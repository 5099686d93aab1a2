-- ===== src/Processor/Create.antt =====
-- rs/src/processor.rs: `process_create`.
pub mod Fill
pub mod FillOutcome
pub mod Checks
pub mod Success
pub mod Promises
pub mod Progress
use mathlib.Core.Option
use rebuild_token_vesting.Base.{
  ℕ, ◌+◌, ◌*◌, ◌^◌, Bool, true, false, not, Option, none, some, List, [], ◌∷◌, length, bytes_eq,
  ltb, ◌==◌, if◌then◌else◌, ok, ok_or, index_at, write_from,
}
use rebuild_token_vesting.Base.Bytes.{Bytes}
use rebuild_token_vesting.Error.{
  invalid_argument, missing_required_signature, invalid_account_data, invalid_instruction_data,
  insufficient_funds,
}
use rebuild_token_vesting.State.Header
use rebuild_token_vesting.State.Header.{Pubkey, VestingScheduleHeader}
use rebuild_token_vesting.State.Schedule
use rebuild_token_vesting.State.Schedule.{VestingSchedule}
use rebuild_token_vesting.Instruction.{Seeds, schedule_size}
use rebuild_token_vesting.Instruction
use rebuild_token_vesting.Runtime.Action.{
  World, Action, AccountInfo, ◌>>=◌, ◌>>◌, pure, lift, read, fail_if, data_of, borrow, write,
  with_borrow_mut,
}
use rebuild_token_vesting.Runtime.Calls.{Runtime}

-- `u64::checked_add`
unfoldable pub checked_add : ℕ → ℕ → Option ℕ
checked_add a b = if ltb (a + b) (2 ^ 64) then some (a + b) else none

unfoldable pub is_some : {A : Type 0} → Option A → Bool
is_some none = false
is_some (some a) = true

-- `state_schedule`: an argument as it is stored.
abbrev pub state_schedule : Instruction.Schedule → VestingSchedule
state_schedule s = record { release_time = s.release_time; amount = s.amount }

-- The loop over the schedules: `offset` and `total_amount`. The data are held by `borrow_mut`.
unfoldable pub fill_loop : Pubkey → List Instruction.Schedule → ℕ → ℕ → Action ℕ
unfolding checked_add
fill_loop k [] offset total_amount = pure total_amount
fill_loop k (s ∷ schedules) offset total_amount = do
  bytes ← read (λ w. ok (data_of w k))
  bytes' ← lift (write_from bytes offset (Schedule.pack_into_slice (state_schedule s)))
  write k bytes'
  n ← lift (ok_or (checked_add total_amount s.amount) invalid_instruction_data)
  fill_loop k schedules (offset + schedule_size) n

-- While the data of the vesting account are held: the check of their size, and the header and the
-- schedules written over them. The result is `total_amount`.
unfoldable pub fill : AccountInfo → Pubkey → Pubkey → List Instruction.Schedule → Action ℕ
unfolding fill_loop
fill vesting_account token_mint_addr token_dest_addr schedules = do
  let state_header : VestingScheduleHeader = record {
    destination_address = token_dest_addr;
    mint_address = token_mint_addr;
    is_initialized = true;
  }
  bytes ← read (λ w. ok (data_of w vesting_account.key))
  fail_if (not (length bytes == Header.len + length schedules * Schedule.len)) invalid_account_data
  bytes' ← lift (Header.pack_into_slice state_header bytes)
  write vesting_account.key bytes'
  fill_loop vesting_account.key schedules Header.len 0

module _ (rt : Runtime) where
  -- The checks on the vesting token account.
  unfoldable pub check_token_account : AccountInfo → AccountInfo → Action (Unit {0})
  unfolding is_some
  check_token_account vesting_account vesting_token_account = do
    token_bytes ← borrow vesting_token_account.key
    token_account ← lift (rt.token_unpack token_bytes)
    fail_if (not (bytes_eq token_account.owner vesting_account.key)) invalid_argument
    fail_if (is_some token_account.delegate) invalid_account_data
    fail_if (is_some token_account.close_authority) invalid_account_data

  -- The check of the source's funds, and the transfer.
  unfoldable pub fund :
      AccountInfo → AccountInfo → AccountInfo → AccountInfo → ℕ → Action (Unit {0})
  fund spl_token_account vesting_token_account source_token_account_owner source_token_account
        total_amount =
      do
        source_bytes ← borrow source_token_account.key
        source_account ← lift (rt.token_unpack source_bytes)
        fail_if (ltb source_account.amount total_amount) insufficient_funds
        ix ← lift (
            rt.transfer spl_token_account.key source_token_account.key vesting_token_account.key
              source_token_account_owner.key [] total_amount)
        rt.invoke ix (
            source_token_account ∷ vesting_token_account ∷ spl_token_account
            ∷ source_token_account_owner ∷ [])

module _ (rt : Runtime) (program_id : Pubkey) where
  -- The checks on the vesting account and on the signer.
  unfoldable pub check_vesting_account : AccountInfo → AccountInfo → Seeds → Action (Unit {0})
  check_vesting_account vesting_account source_token_account_owner seeds = do
    vesting_account_key ← lift (rt.create_program_address (seeds ∷ []) program_id)
    fail_if (not (bytes_eq vesting_account_key vesting_account.key)) invalid_argument
    fail_if (not source_token_account_owner.is_signer) missing_required_signature
    owner ← read (λ w. ok (w.accounts vesting_account.key).owner)
    fail_if (not (bytes_eq owner program_id)) invalid_argument
    bytes ← read (rt.try_borrow_data vesting_account)
    flag ← lift (index_at bytes 64)
    fail_if (flag == 1) invalid_argument

  unfoldable pub create_with :
      AccountInfo
      → AccountInfo
      → AccountInfo
      → AccountInfo
      → AccountInfo
      → Seeds
      → Pubkey
      → Pubkey
      → List Instruction.Schedule
      → Action (Unit {0})
  unfolding check_vesting_account check_token_account fill fund
  create_with spl_token_account vesting_account vesting_token_account source_token_account_owner
        source_token_account seeds token_mint_addr token_dest_addr schedules =
      do
        check_vesting_account vesting_account source_token_account_owner seeds
        check_token_account rt vesting_account vesting_token_account
        with_borrow_mut vesting_account.key (
            fill vesting_account token_mint_addr token_dest_addr schedules >>= λ total_amount.
            fund rt spl_token_account vesting_token_account source_token_account_owner
              source_token_account total_amount)

  unfoldable pub process_create :
      List AccountInfo → Seeds → Pubkey → Pubkey → List Instruction.Schedule → Action (Unit {0})
  unfolding create_with
  process_create accounts seeds token_mint_addr token_dest_addr schedules = do
    (spl_token_account, iter) ← lift (rt.next_account_info accounts)
    (vesting_account, iter) ← lift (rt.next_account_info iter)
    (vesting_token_account, iter) ← lift (rt.next_account_info iter)
    (source_token_account_owner, iter) ← lift (rt.next_account_info iter)
    (source_token_account, iter) ← lift (rt.next_account_info iter)
    create_with spl_token_account vesting_account vesting_token_account source_token_account_owner
        source_token_account seeds token_mint_addr token_dest_addr schedules
