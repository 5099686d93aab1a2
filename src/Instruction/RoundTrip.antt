-- ===== src/Instruction/RoundTrip.antt =====
-- `unpack` reads back what `pack` writes (rs/src/instruction.rs), but for `Empty`.
use rebuild_token_vesting.Base.{
  ℕ, ◌+◌, ◌/◌, ◌^◌, ◌<◌, ◌≡◌, refl, List, [], ◌∷◌, ◌++◌, length, length-append, All, arith, ok,
  some, append_assoc, append-nil, get_range-append, index_from-append,
}
use rebuild_token_vesting.Base.Bytes.{
  Bytes, to_le_bytes, length-to_le_bytes, from_le_bytes-to_le_bytes,
}
use rebuild_token_vesting.State.Header.{IsPubkey}
use rebuild_token_vesting.State.Schedule.{IsU64}
use rebuild_token_vesting.Instruction.{
  Seeds, Schedule, VestingInstruction, init, create, unlock, change_destination, empty,
  unpack_seeds, unpack_u32, unpack_u64, unpack_addr, create_loop, unpack_init, unpack_create,
  unpack, pack_schedules, pack,
}
use rebuild_token_vesting.Instruction.Wire.{
  IsScheduleArg, IsInstruction, wire, IsPackable, pack-eq-wire, IsTrailing, length-pack_schedules,
}

pub unpack_u64-append :
    (n v : ℕ) (front rest : Bytes)
    → length front ≡ n
    → IsU64 v
    → unpack_u64 (front ++ (to_le_bytes 8 v ++ rest)) n ≡ ok v
unfolding unpack_u64
unpack_u64-append n v front rest e u = rw (
  get_range-append n (n + 8) front (to_le_bytes 8 v) rest e (omega (arith, length-to_le_bytes 8 v)),
  from_le_bytes-to_le_bytes 8 v u,
)

pub unpack_u32-append :
    (n v : ℕ) (front rest : Bytes)
    → length front ≡ n
    → v < 2 ^ 32
    → unpack_u32 (front ++ (to_le_bytes 4 v ++ rest)) n ≡ ok v
unfolding unpack_u32
unpack_u32-append n v front rest e u = rw (
  get_range-append n (n + 4) front (to_le_bytes 4 v) rest e (omega (arith, length-to_le_bytes 4 v)),
  from_le_bytes-to_le_bytes 4 v u,
)

pub unpack_addr-append :
    (n : ℕ) (front key rest : Bytes)
    → length front ≡ n
    → length key ≡ 32
    → unpack_addr (front ++ (key ++ rest)) n ≡ ok key
unfolding unpack_addr
unpack_addr-append n front key rest e k =
    rw (get_range-append n (n + 32) front key rest e (omega arith))

pub unpack_seeds-append :
    (seeds rest : Bytes) → length seeds ≡ 32 → unpack_seeds (seeds ++ rest) 0 ≡ some seeds
unfolding unpack_seeds
unpack_seeds-append seeds rest k = get_range-append 0 32 [] seeds rest refl (omega arith)

-- The loop over `offset` reads back a concatenation.
create_loop-pack_schedules :
    (ss : List Schedule) (offset : ℕ) (front rest : Bytes)
    → All IsScheduleArg ss
    → length front ≡ offset
    → create_loop (length ss) offset (front ++ (pack_schedules ss ++ rest)) ≡ ok ss
unfolding create_loop pack_schedules
create_loop-pack_schedules [] offset front rest v e = refl
create_loop-pack_schedules (s ∷ ss) offset front rest v e = rw (
  append_assoc time (amount ++ pack_schedules ss) rest,
  append_assoc amount (pack_schedules ss) rest,
  unpack_u64-append offset s.release_time front (amount ++ (pack_schedules ss ++ rest)) e
      v.0.release_time_u64,
  ← append_assoc front time (amount ++ (pack_schedules ss ++ rest)),
  unpack_u64-append (offset + 8) s.amount (front ++ time) (pack_schedules ss ++ rest)
      (omega (arith, length-append front time, length-to_le_bytes 8 s.release_time)) v.0.amount_u64,
  ← append_assoc (front ++ time) amount (pack_schedules ss ++ rest),
  create_loop-pack_schedules ss (offset + 16) ((front ++ time) ++ amount) rest v.1 (
      omega (
        arith,
        length-append (front ++ time) amount,
        length-append front time,
        length-to_le_bytes 8 s.release_time,
        length-to_le_bytes 8 s.amount,
      )),
)
  where
    time : Bytes
    time = to_le_bytes 8 s.release_time

    amount : Bytes
    amount = to_le_bytes 8 s.amount

pub unpack-wire_init :
    (seeds : Seeds) (n : ℕ) (tail : Bytes)
    → IsPubkey seeds
    → n < 2 ^ 32
    → unpack_init (seeds ++ (to_le_bytes 4 n ++ tail)) ≡ ok (init seeds n)
unfolding unpack_init
unpack-wire_init seeds n tail k u = rw (
  unpack_seeds-append seeds (to_le_bytes 4 n ++ tail) k.size,
  unpack_u32-append 32 n seeds tail k.size u,
)

module _ (seeds mint dest : Bytes) (ss : List Schedule) (tail : Bytes) (ks : IsPubkey seeds)
    (km : IsPubkey mint) (kd : IsPubkey dest) (vs : All IsScheduleArg ss)
    (short : length tail < 16) where
  keys_length : length ((seeds ++ mint) ++ dest) ≡ 96
  keys_length = omega (
    arith,
    length-append (seeds ++ mint) dest,
    length-append seeds mint,
    ks.size,
    km.size,
    kd.size,
  )

  rounds : length (pack_schedules ss ++ tail) / 16 ≡ length ss
  rounds = omega (arith, length-pack_schedules ss, length-append (pack_schedules ss) tail)

  pub unpack-wire_create :
      unpack_create (seeds ++ (mint ++ (dest ++ (pack_schedules ss ++ tail))))
      ≡ ok (create seeds mint dest ss)
  unfolding unpack_create
  unpack-wire_create =
      rw
        (
          unpack_seeds-append seeds (mint ++ (dest ++ (pack_schedules ss ++ tail))) ks.size,
          unpack_addr-append 32 seeds mint (dest ++ (pack_schedules ss ++ tail)) ks.size km.size,
          ← append_assoc seeds mint (dest ++ (pack_schedules ss ++ tail)),
          unpack_addr-append 64 (seeds ++ mint) dest (pack_schedules ss ++ tail)
              (omega (arith, length-append seeds mint, ks.size, km.size)) kd.size,
          ← append_assoc (seeds ++ mint) dest (pack_schedules ss ++ tail),
          index_from-append 96 ((seeds ++ mint) ++ dest) (pack_schedules ss ++ tail) keys_length,
        )
        (rw
          (rounds, create_loop-pack_schedules ss 96 ((seeds ++ mint) ++ dest) tail vs keys_length))

-- `unpack` reads the byte form of every instruction with fields in range, whatever follows that it
-- does not read: less than a schedule behind a `Create`, anything behind the others.
pub unpack-wire :
    (i : VestingInstruction) (tail : Bytes)
    → IsInstruction i
    → IsTrailing i tail
    → unpack (wire i ++ tail) ≡ ok i
unfolding unpack wire
unpack-wire (init seeds n) tail (k, u) t =
    rw (append_assoc seeds (to_le_bytes 4 n) tail) (unpack-wire_init seeds n tail k u)
unpack-wire (create seeds mint dest ss) tail (ks, km, kd, vs) t =
    rw
      (
        append_assoc seeds (mint ++ (dest ++ pack_schedules ss)) tail,
        append_assoc mint (dest ++ pack_schedules ss) tail,
        append_assoc dest (pack_schedules ss) tail,
      )
      (unpack-wire_create seeds mint dest ss tail ks km kd vs t)
unpack-wire (unlock seeds) tail k t = rw (unpack_seeds-append seeds tail k.size)
unpack-wire (change_destination seeds) tail k t = rw (unpack_seeds-append seeds tail k.size)
unpack-wire (empty n) tail u t = rw (unpack_u32-append 0 n [] tail refl u)

-- `unpack` returns the instruction that `pack` wrote, for every instruction with fields in range
-- but `Empty`.
pub unpack-pack : (i : VestingInstruction) → IsInstruction i → IsPackable i → unpack (pack i) ≡ ok i
unpack-pack i v p = rw (pack-eq-wire i p) (rw append-nil at (unpack-wire i [] v (no_trailing i)))
  where
    no_trailing : (i : VestingInstruction) → IsTrailing i []
    no_trailing (init seeds n) = tt
    no_trailing (create seeds mint dest ss) = omega arith
    no_trailing (unlock seeds) = tt
    no_trailing (change_destination seeds) = tt
    no_trailing (empty n) = tt
