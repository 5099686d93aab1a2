-- ===== src/Processor/Unlock.antt =====
-- rs/src/processor.rs: `process_unlock`.
pub mod Atomic
pub mod Checks
pub mod Release
pub mod Effect
pub mod Success
pub mod Once
pub mod Progress
use rebuild_token_vesting.Base.{
  ℕ, ◌+◌, ◌%◌, ◌^◌, Bool, true, false, not, List, [], ◌∷◌, bytes_eq, ltb, leb, ◌==◌, if◌then◌else◌,
  Result, ok, panic, index_from, index_to, write_from, ◌>>=◌ as and_then,
}
use rebuild_token_vesting.Base.Bytes.{Bytes}
use rebuild_token_vesting.Error.{ProgramError, invalid_argument}
use rebuild_token_vesting.State.Header
use rebuild_token_vesting.State.Header.{Pubkey}
use rebuild_token_vesting.State.Schedule.{VestingSchedule}
use rebuild_token_vesting.State.Schedules.{unpack_schedules, pack_schedules_into_slice}
use rebuild_token_vesting.Instruction.{Seeds}
use rebuild_token_vesting.Runtime.Action.{
  Action, AccountInfo, ◌>>=◌, ◌>>◌, pure, lift, read, fail_if, data_of, borrow, write,
  with_borrow_mut,
}
use rebuild_token_vesting.Runtime.Calls.{Runtime, as_u64}

-- `a + b` of `u64`: on overflow a panic in a build with overflow checks, and else the low bits.
unfoldable pub add_u64 : Bool → ℕ → ℕ → Result ProgramError ℕ
add_u64 checks a b =
    if ltb (a + b) (2 ^ 64) then ok (a + b) else (if checks then panic else ok ((a + b) % 2 ^ 64))

-- One round of the loop: the schedule is due, or it stays.
abbrev pub is_due : ℕ → VestingSchedule → Bool
is_due now s = leb s.release_time now

abbrev pub settle : ℕ → VestingSchedule → VestingSchedule
settle now s = if is_due now s then record s { amount = 0 } else s

-- The loop of `process_unlock`: `total_amount_to_transfer` so far; the total, and the schedules
-- as it leaves them.
unfoldable pub release_loop :
    Bool → ℕ → List VestingSchedule → ℕ → Result ProgramError (ℕ × List VestingSchedule)
unfolding add_u64
release_loop checks now [] total = ok (total, [])
release_loop checks now (s ∷ schedules) total =
    and_then (if is_due now s then add_u64 checks total s.amount else ok total) λ total'.
      and_then (release_loop checks now schedules total') λ rest. ok (rest.0, settle now s ∷ rest.1)

-- The write behind the transfer, `packed_state.borrow_mut()` held for it.
unfoldable pub store_schedules : AccountInfo → List VestingSchedule → Action (Unit {0})
store_schedules vesting_account schedules = with_borrow_mut vesting_account.key (do
  bytes ← read (λ w. ok (data_of w vesting_account.key))
  bytes' ← lift (write_from bytes Header.len (pack_schedules_into_slice schedules))
  write vesting_account.key bytes')

module _ (rt : Runtime) where
  -- How much has vested, and the schedules with the vested amounts set to 0.
  unfoldable pub vested : AccountInfo → AccountInfo → Action (ℕ × List VestingSchedule)
  unfolding release_loop
  vested clock_sysvar_account vesting_account = do
    unix_timestamp ← read (rt.clock_from_account_info clock_sysvar_account)
    packed_state ← borrow vesting_account.key
    schedule_bytes ← lift (index_from packed_state Header.len)
    schedules ← lift (unpack_schedules schedule_bytes)
    lift (release_loop rt.overflow_checks (as_u64 unix_timestamp) schedules 0)

  -- The transfer, signed with the seeds, and then the write.
  unfoldable pub send :
      AccountInfo
      → AccountInfo
      → AccountInfo
      → AccountInfo
      → Pubkey
      → Seeds
      → ℕ
      → List VestingSchedule
      → Action (Unit {0})
  send spl_token_account vesting_account vesting_token_account destination_token_account
        vesting_account_key seeds total_amount_to_transfer schedules =
      do
        fail_if (total_amount_to_transfer == 0) invalid_argument
        ix ← lift (
            rt.transfer spl_token_account.key vesting_token_account.key
              destination_token_account.key vesting_account_key [] total_amount_to_transfer)
        rt.invoke_signed ix
            (spl_token_account ∷ vesting_token_account ∷ destination_token_account ∷ vesting_account
              ∷ [])
            ((seeds ∷ []) ∷ [])
        store_schedules vesting_account schedules

module _ (rt : Runtime) (program_id : Pubkey) where
  -- The checks; the result is `vesting_account_key`.
  unfoldable pub check_unlock :
      AccountInfo → AccountInfo → AccountInfo → AccountInfo → Seeds → Action Pubkey
  check_unlock spl_token_account vesting_account vesting_token_account destination_token_account
        seeds =
      do
        vesting_account_key ← lift (rt.create_program_address (seeds ∷ []) program_id)
        fail_if (not (bytes_eq vesting_account_key vesting_account.key)) invalid_argument
        fail_if (not (bytes_eq spl_token_account.key rt.spl_token_id)) invalid_argument
        packed_state ← borrow vesting_account.key
        header_bytes ← lift (index_to packed_state Header.len)
        header_state ←
            lift (rt.unpack Header.len Header.unpack_from_slice Header.is_initialized header_bytes)
        fail_if (not (bytes_eq header_state.destination_address destination_token_account.key))
            invalid_argument
        token_bytes ← borrow vesting_token_account.key
        token_account ← lift (rt.token_unpack token_bytes)
        fail_if (not (bytes_eq token_account.owner vesting_account_key)) invalid_argument
        pure vesting_account_key

  unfoldable pub unlock_with :
      AccountInfo
      → AccountInfo
      → AccountInfo
      → AccountInfo
      → AccountInfo
      → Seeds
      → Action (Unit {0})
  unlock_with spl_token_account clock_sysvar_account vesting_account vesting_token_account
        destination_token_account seeds =
      do
        vesting_account_key ←
            check_unlock spl_token_account vesting_account vesting_token_account
              destination_token_account seeds
        (total_amount_to_transfer, schedules) ← vested rt clock_sysvar_account vesting_account
        send rt spl_token_account vesting_account vesting_token_account destination_token_account
            vesting_account_key seeds total_amount_to_transfer schedules

  unfoldable pub process_unlock : List AccountInfo → Seeds → Action (Unit {0})
  unfolding unlock_with
  process_unlock accounts seeds = do
    (spl_token_account, iter) ← lift (rt.next_account_info accounts)
    (clock_sysvar_account, iter) ← lift (rt.next_account_info iter)
    (vesting_account, iter) ← lift (rt.next_account_info iter)
    (vesting_token_account, iter) ← lift (rt.next_account_info iter)
    (destination_token_account, iter) ← lift (rt.next_account_info iter)
    unlock_with spl_token_account clock_sysvar_account vesting_account vesting_token_account
        destination_token_account seeds
