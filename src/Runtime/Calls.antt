-- ===== src/Runtime/Calls.antt =====
-- The functions that rs/src/processor.rs calls and rs/src does not contain, as one record: of
-- `solana_program`, of `spl_token`, and the build's overflow checks.
use rebuild_token_vesting.Base.{ℕ, suc, ◌-◌, ◌^◌, Bool, Option, List, Result}
use rebuild_token_vesting.Base.Bytes.{Bytes}
use rebuild_token_vesting.Error.{ProgramError}
use rebuild_token_vesting.State.Header.{Pubkey, VestingScheduleHeader}
use rebuild_token_vesting.Runtime.Action.{Action, AccountInfo, World}

pub record AccountMeta : Type 0 where
  pub pubkey : Pubkey
  pub is_signer : Bool
  pub is_writable : Bool

-- `solana_program::instruction::Instruction`; its `data` are `input`.
pub record Instruction : Type 0 where
  pub program_id : Pubkey
  pub accounts : List AccountMeta
  pub input : Bytes

-- The fields of `spl_token::state::Account` that the program reads, its mint, and whether its state is
-- `Frozen`.
pub record TokenAccount : Type 0 where
  pub owner : Pubkey
  pub amount : ℕ
  pub delegate : Option Pubkey
  pub close_authority : Option Pubkey
  pub mint : Pubkey
  pub frozen : Bool

-- An `i64`; `negsuc n` is -(n + 1).
pub data ℤ : Type 0 where
  pos : ℕ → ℤ
  negsuc : ℕ → ℤ

-- `t as u64`
unfoldable pub as_u64 : ℤ → ℕ
as_u64 (pos n) = n
as_u64 (negsuc n) = 2 ^ 64 - suc n

-- `Rent::minimum_balance` of a rent that was read.
abbrev pub Rent : Type 0
Rent = ℕ → ℕ

pub record Runtime : Type 0 where
  -- `next_account_info`: the next entry and the iterator behind it.
  pub next_account_info : List AccountInfo → Result ProgramError (AccountInfo × List AccountInfo)
  -- `Pubkey::create_program_address`, its error converted as `?` does.
  pub create_program_address : List Bytes → Pubkey → Result ProgramError Pubkey
  -- `AccountInfo::try_borrow_data`
  pub try_borrow_data : AccountInfo → World → Result ProgramError Bytes
  -- `Pack::unpack`, from an implementation's length, `unpack_from_slice` and `is_initialized`.
  pub unpack :
      ℕ
      → (Bytes → Result ProgramError VestingScheduleHeader)
      → (VestingScheduleHeader → Bool)
      → Bytes
      → Result ProgramError VestingScheduleHeader
  -- `Rent::from_account_info` and `Clock::from_account_info`, the clock's `unix_timestamp`.
  pub rent_from_account_info : AccountInfo → World → Result ProgramError Rent
  pub clock_from_account_info : AccountInfo → World → Result ProgramError ℤ
  -- `system_instruction::create_account`: payer, new account, lamports, space, owner.
  pub create_account : Pubkey → Pubkey → ℕ → ℕ → Pubkey → Instruction
  -- `invoke`, and `invoke_signed` with the seeds of the signing addresses.
  pub invoke : Instruction → List AccountInfo → Action (Unit {0})
  pub invoke_signed : Instruction → List AccountInfo → List (List Bytes) → Action (Unit {0})
  -- `spl_token::id`, `spl_token::state::Account::unpack` and `spl_token::instruction::transfer`:
  -- program, source, destination, authority, signers and amount.
  pub spl_token_id : Pubkey
  pub token_unpack : Bytes → Result ProgramError TokenAccount
  pub transfer :
      Pubkey → Pubkey → Pubkey → Pubkey → List Pubkey → ℕ → Result ProgramError Instruction
  -- Whether `+` on integers panics on overflow, or wraps as in a release build.
  pub overflow_checks : Bool
