-- ===== src/Processor/Init.antt =====
-- rs/src/processor.rs: `process_init`.
pub mod Creation
use rebuild_token_vesting.Base.{ℕ, ◌+◌, ◌*◌, not, List, [], ◌∷◌, bytes_eq, unwrap_result, Result}
use rebuild_token_vesting.Error.{invalid_argument}
use rebuild_token_vesting.State.Header
use rebuild_token_vesting.State.Header.{Pubkey}
use rebuild_token_vesting.State.Schedule
use rebuild_token_vesting.Instruction.{Seeds}
use rebuild_token_vesting.Runtime.Action.{Action, AccountInfo, ◌>>=◌, ◌>>◌, lift, read, fail_if}
use rebuild_token_vesting.Runtime.Calls.{Runtime}

-- The bytes of a contract with so many schedules.
unfoldable pub state_size : ℕ → ℕ
state_size number_of_schedules = number_of_schedules * Schedule.len + Header.len

module _ (rt : Runtime) (program_id : Pubkey) where
  -- Behind the account list: size and rent, the check of the key, and the call that creates the
  -- account, signed with the seeds.
  unfoldable pub init_with :
      AccountInfo → AccountInfo → AccountInfo → AccountInfo → Seeds → ℕ → Action (Unit {0})
  unfolding state_size
  init_with system_program_account rent_sysvar_account payer vesting_account seeds n = do
    rent ← read (rt.rent_from_account_info rent_sysvar_account)
    vesting_account_key ← lift (unwrap_result (rt.create_program_address (seeds ∷ []) program_id))
    fail_if (not (bytes_eq vesting_account_key vesting_account.key)) invalid_argument
    rt.invoke_signed
        (rt.create_account payer.key vesting_account_key (rent (state_size n)) (state_size n)
          program_id)
        (system_program_account ∷ payer ∷ vesting_account ∷ []) ((seeds ∷ []) ∷ [])

  unfoldable pub process_init : List AccountInfo → Seeds → ℕ → Action (Unit {0})
  unfolding init_with
  process_init accounts seeds number_of_schedules = do
    (system_program_account, iter) ← lift (rt.next_account_info accounts)
    (rent_sysvar_account, iter) ← lift (rt.next_account_info iter)
    (payer, iter) ← lift (rt.next_account_info iter)
    (vesting_account, iter) ← lift (rt.next_account_info iter)
    init_with system_program_account rent_sysvar_account payer vesting_account seeds
        number_of_schedules
