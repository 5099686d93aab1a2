-- ===== src/Instruction.antt =====
-- rs/src/instruction.rs: the instructions and their byte form.
pub mod Builders
pub mod Wire
pub mod Unpack
pub mod RoundTrip
pub mod Arms
pub mod Decoding
use rebuild_token_vesting.Base.{
  ℕ, zero, suc, ◌+◌, ◌*◌, ◌/◌, ◌-◌, List, [], ◌∷◌, ◌++◌, length, Option, none, some, ◌==◌, ◌||◌,
  if◌then◌else◌, Result, ok, err, panic, ◌>>=◌, unwrap, unwrap_result, ok_or, map_err, get_range,
  index_from,
}
use mathlib.Core.Option
use rebuild_token_vesting.Base.Bytes.{Bytes, to_le_bytes, from_le_bytes}
use rebuild_token_vesting.Error.{ProgramError, VestingError, invalid_instruction, from}
use rebuild_token_vesting.State.Header.{Pubkey}

-- `[u8; 32]`
abbrev pub Seeds : Type 0
Seeds = Bytes

pub record Schedule : Type 0 where
  pub release_time : ℕ
  pub amount : ℕ

pub data VestingInstruction : Type 0 where
  init : Seeds → ℕ → VestingInstruction
  create : Seeds → Pubkey → Pubkey → List Schedule → VestingInstruction
  unlock : Seeds → VestingInstruction
  change_destination : Seeds → VestingInstruction
  empty : ℕ → VestingInstruction

abbrev pub schedule_size : ℕ
schedule_size = 16

unfoldable pub unpack_seeds : Bytes → ℕ → Option Seeds
unpack_seeds rest start = get_range rest start (start + 32)

unfoldable pub unpack_u32 : Bytes → ℕ → Result VestingError ℕ
unpack_u32 rest start =
    ok_or (Option.map from_le_bytes (get_range rest start (start + 4))) invalid_instruction

unfoldable pub unpack_u64 : Bytes → ℕ → Result VestingError ℕ
unpack_u64 rest start =
    ok_or (Option.map from_le_bytes (get_range rest start (start + 8))) invalid_instruction

unfoldable pub unpack_addr : Bytes → ℕ → Result VestingError Pubkey
unpack_addr rest start = ok_or (get_range rest start (start + 32)) invalid_instruction

-- The loop of the `Create` arm: the rounds left, and `offset`.
unfoldable pub create_loop : ℕ → ℕ → Bytes → Result ProgramError (List Schedule)
create_loop zero offset rest = ok []
create_loop (suc rounds) offset rest = do
  release_time ← map_err from (unpack_u64 rest offset)
  amount ← map_err from (unpack_u64 rest (offset + 8))
  schedules ← create_loop rounds (offset + schedule_size) rest
  ok (record { release_time = release_time; amount = amount } ∷ schedules)

-- The arms of the match on the tag.
unfoldable pub unpack_init : Bytes → Result ProgramError VestingInstruction
unfolding unpack_seeds unpack_u32
unpack_init rest = do
  seeds ← unwrap (unpack_seeds rest 0)
  number_of_schedules ← map_err from (unpack_u32 rest 32)
  ok (init seeds number_of_schedules)

unfoldable pub unpack_create : Bytes → Result ProgramError VestingInstruction
unfolding unpack_seeds unpack_addr create_loop unpack_u64
unpack_create rest = do
  seeds ← unwrap (unpack_seeds rest 0)
  token_mint_addr ← map_err from (unpack_addr rest 32)
  token_dest_addr ← map_err from (unpack_addr rest 64)
  tail ← index_from rest 96
  schedules ← create_loop (length tail / schedule_size) 96 rest
  ok (create seeds token_mint_addr token_dest_addr schedules)

unfoldable pub unpack_unlock_or_change : ℕ → Bytes → Result ProgramError VestingInstruction
unfolding unpack_seeds
unpack_unlock_or_change tag rest = do
  seeds ← unwrap (unpack_seeds rest 0)
  ok (if tag == 2 then unlock seeds else change_destination seeds)

unfoldable pub unpack_empty : Bytes → Result ProgramError VestingInstruction
unfolding unpack_u32
unpack_empty rest = do number ← unwrap_result (map_err from (unpack_u32 rest 0)); ok (empty number)

-- `VestingInstruction::unpack`
unfoldable pub unpack : Bytes → Result ProgramError VestingInstruction
unfolding unpack_init unpack_create unpack_unlock_or_change unpack_empty
unpack [] = err (from invalid_instruction)
unpack (tag ∷ rest) =
    if tag == 0
    then unpack_init rest
    else (if tag == 1
        then unpack_create rest
        else (if tag == 2 || tag == 3
            then unpack_unlock_or_change tag rest
            else (if tag == 4 then unpack_empty rest else err (from invalid_instruction))))

-- The loop of `pack` over the schedules.
unfoldable pub pack_schedules : List Schedule → Bytes
pack_schedules [] = []
pack_schedules (s ∷ schedules) =
    to_le_bytes 8 s.release_time ++ (to_le_bytes 8 s.amount ++ pack_schedules schedules)

-- `VestingInstruction::pack`
unfoldable pub pack : VestingInstruction → Bytes
unfolding pack_schedules
pack (empty number) = 0 ∷ []
pack (init seeds number_of_schedules) = 0 ∷ (seeds ++ to_le_bytes 4 number_of_schedules)
pack (create seeds token_mint_addr token_dest_addr schedules) =
    1 ∷ (seeds ++ (token_mint_addr ++ (token_dest_addr ++ pack_schedules schedules)))
pack (unlock seeds) = 2 ∷ seeds
pack (change_destination seeds) = 3 ∷ seeds
