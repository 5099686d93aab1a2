-- ===== src/Instruction/Wire.antt =====
-- The byte form that `unpack` of rs/src/instruction.rs reads, and the instructions that have one.
use rebuild_token_vesting.Base.{
  ◌*◌, ◌^◌, ◌<◌, ◌≡◌, refl, List, [], ◌∷◌, ◌++◌, length, length-append, All, arith,
}
use rebuild_token_vesting.Base.Bytes.{Bytes, to_le_bytes, length-to_le_bytes}
use rebuild_token_vesting.State.Header.{IsPubkey}
use rebuild_token_vesting.State.Schedule.{IsU64}
use rebuild_token_vesting.Instruction.{
  Schedule, VestingInstruction, init, create, unlock, change_destination, empty, pack_schedules,
  pack,
}

pub record IsScheduleArg (s : Schedule) : Type 0 where
  pub release_time_u64 : IsU64 s.release_time
  pub amount_u64 : IsU64 s.amount

-- What the Rust types say of the fields: 32 bytes, `u32` and `u64`.
abbrev pub IsInstruction : VestingInstruction → Type 0
IsInstruction (init seeds n) = IsPubkey seeds × (n < 2 ^ 32)
IsInstruction (create seeds mint dest schedules) =
    IsPubkey seeds × IsPubkey mint × IsPubkey dest × All IsScheduleArg schedules
IsInstruction (unlock seeds) = IsPubkey seeds
IsInstruction (change_destination seeds) = IsPubkey seeds
IsInstruction (empty n) = n < 2 ^ 32

-- A tag, then the fields in order, integers little-endian.
unfoldable pub wire : VestingInstruction → Bytes
unfolding pack_schedules
wire (init seeds n) = 0 ∷ (seeds ++ to_le_bytes 4 n)
wire (create seeds mint dest schedules) =
    1 ∷ (seeds ++ (mint ++ (dest ++ pack_schedules schedules)))
wire (unlock seeds) = 2 ∷ seeds
wire (change_destination seeds) = 3 ∷ seeds
wire (empty n) = 4 ∷ to_le_bytes 4 n

-- The instructions that `pack` writes in that form: all but `Empty`.
abbrev pub IsPackable : VestingInstruction → Type 0
IsPackable (empty n) = ⊥
IsPackable (init seeds n) = Unit
IsPackable (create seeds mint dest schedules) = Unit
IsPackable (unlock seeds) = Unit
IsPackable (change_destination seeds) = Unit

pub pack-eq-wire : (i : VestingInstruction) → IsPackable i → pack i ≡ wire i
unfolding pack wire
pack-eq-wire (init seeds n) h = refl
pack-eq-wire (create seeds mint dest schedules) h = refl
pack-eq-wire (unlock seeds) h = refl
pack-eq-wire (change_destination seeds) h = refl
pack-eq-wire (empty n) h = absurd h

-- The bytes that may follow without being read: less than one schedule behind a `Create`, and
-- any number behind the others.
abbrev pub IsTrailing : VestingInstruction → Bytes → Type 0
IsTrailing (create seeds mint dest schedules) tail = length tail < 16
IsTrailing (init seeds n) tail = Unit
IsTrailing (unlock seeds) tail = Unit
IsTrailing (change_destination seeds) tail = Unit
IsTrailing (empty n) tail = Unit

pub length-pack_schedules : (ss : List Schedule) → length (pack_schedules ss) ≡ 16 * length ss
unfolding pack_schedules
length-pack_schedules [] = omega arith
length-pack_schedules (s ∷ ss) = omega (
  arith,
  length-append (to_le_bytes 8 s.release_time) (to_le_bytes 8 s.amount ++ pack_schedules ss),
  length-append (to_le_bytes 8 s.amount) (pack_schedules ss),
  length-to_le_bytes 8 s.release_time,
  length-to_le_bytes 8 s.amount,
  length-pack_schedules ss,
)
