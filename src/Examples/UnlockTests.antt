-- ===== src/Examples/UnlockTests.antt =====
-- `process_unlock` of rs/src/processor.rs on the example's accounts.
use rebuild_token_vesting.Examples.ChainLaws.{chain-TransferKeeps, chain-CallFails}
use rebuild_token_vesting.Base.{
  ℕ, ◌+◌, ◌^◌, ◌≡◌, ◌≢◌, refl, ap, false, List, [], ◌∷◌, ◌++◌, ok, err, arith, bytes_eq, ltb,
  if◌then◌else◌, panic, ◌%◌,
}
use rebuild_token_vesting.Error.{invalid_argument}
use rebuild_token_vesting.Contract.{encode, locked, due, settled, release}
use rebuild_token_vesting.Runtime.Action.{World, AccountInfo, data_of, set_data}
use rebuild_token_vesting.Runtime.Calls
use rebuild_token_vesting.Runtime.Calls.{TokenAccount, pos, as_u64}
use rebuild_token_vesting.Processor.Unlock.{process_unlock, release_loop}
use rebuild_token_vesting.Processor.Unlock.Atomic.{process_unlock_error}
use rebuild_token_vesting.Processor.Unlock.Effect.{Holds}
use rebuild_token_vesting.Processor.Unlock.Success.{Unlocks}
use rebuild_token_vesting.Processor.Unlock.Once.{process_unlock_releases, process_unlock_once}
use rebuild_token_vesting.Processor.Unlock.Release.{release_loop_lem}
use rebuild_token_vesting.Processor.Unlock.Progress.{
  Matches, process_unlock_too_early, process_unlock_succeeds,
}
use rebuild_token_vesting.Examples.Chain.{
  token_bytes, chain, chain-NextAccount, chain-PackUnpack, key_of, token_program, derive,
  read_token, read_clock, make_transfer, call_signed, moved, token_of, pay, repeated, call,
}
use rebuild_token_vesting.Examples.Scene.{
  program, vesting_seeds, vesting_account, vesting_tokens, bob_tokens, spl_program, clock_sysvar,
  bobs_contract, held, bobs_contract-IsContract, other_keys,
}

abbrev vesting_token_account : TokenAccount
vesting_token_account = token_of 160 (key_of 2 ++ repeated 132 0)

held-Matches :
    (time : ℕ)
    → Matches chain program spl_program vesting_account vesting_tokens bob_tokens vesting_seeds
        (held time)
        bobs_contract
unfolding derive read_token
held-Matches time = record {
  valid = bobs_contract-IsContract;
  free = refl;
  holds = refl;
  derived = refl;
  spl_program = refl;
  to_destination = refl;
  token_account = vesting_token_account;
  token_unpacked = refl;
  token_owner = refl;
}

abbrev unlock_accounts : List AccountInfo
unlock_accounts = spl_program ∷ clock_sysvar ∷ vesting_account ∷ vesting_tokens ∷ bob_tokens ∷ []

abbrev pub payment : Calls.Instruction
payment = record {
  program_id = token_program;
  accounts = [];
  input = 100 ∷ (vesting_tokens.key ++ bob_tokens.key);
}

-- The accounts behind an unlock at the time 10, when only the first schedule is due.
abbrev pub unlocked_world : World
unlocked_world =
    set_data (moved 100 vesting_tokens.key bob_tokens.key (held 10)) vesting_account.key
      (encode (release 10 bobs_contract))

pub unlocking :
    process_unlock chain program unlock_accounts vesting_seeds (held 10) ≡ (ok tt, unlocked_world)
unfolding make_transfer bytes_eq call_signed call pay moved set_data read_clock due as_u64
unlocking =
    process_unlock_succeeds chain chain-NextAccount chain-PackUnpack program spl_program
      clock_sysvar vesting_account vesting_tokens bob_tokens [] vesting_seeds (held 10)
      bobs_contract (held-Matches 10) chain-TransferKeeps (pos 10) payment
      (moved 100 vesting_tokens.key bob_tokens.key (held 10)) (other_keys 1 9 (omega arith)) refl
      (omega arith) refl refl

process_unlock_succeeds_example :
    process_unlock chain program unlock_accounts vesting_seeds (held 10) ≡ (ok tt, unlocked_world)
unfolding make_transfer bytes_eq call_signed call pay moved set_data read_clock due as_u64
process_unlock_succeeds_example =
    process_unlock_succeeds chain chain-NextAccount chain-PackUnpack program spl_program
      clock_sysvar vesting_account vesting_tokens bob_tokens [] vesting_seeds (held 10)
      bobs_contract (held-Matches 10) chain-TransferKeeps (pos 10) payment
      (moved 100 vesting_tokens.key bob_tokens.key (held 10)) (other_keys 1 9 (omega arith)) refl
      (omega arith) refl refl

early :
    process_unlock chain program unlock_accounts vesting_seeds (held 4)
    ≡ (err invalid_argument, held 4)
unfolding read_clock due as_u64
early =
    process_unlock_too_early chain chain-NextAccount chain-PackUnpack program spl_program
      clock_sysvar vesting_account vesting_tokens bob_tokens [] vesting_seeds (held 4) bobs_contract
      (held-Matches 4) (pos 4) refl refl

process_unlock_too_early_example :
    process_unlock chain program unlock_accounts vesting_seeds (held 4)
    ≡ (err invalid_argument, held 4)
unfolding read_clock due as_u64
process_unlock_too_early_example =
    process_unlock_too_early chain chain-NextAccount chain-PackUnpack program spl_program
      clock_sysvar vesting_account vesting_tokens bob_tokens [] vesting_seeds (held 4) bobs_contract
      (held-Matches 4) (pos 4) refl refl

process_unlock_releases_example :
    (done : Unlocks chain clock_sysvar vesting_account vesting_tokens bob_tokens bobs_contract
      (held 10)
      unlocked_world)
    × Holds unlocked_world vesting_account.key (release (as_u64 done.time) bobs_contract)
    × (due (as_u64 done.time) bobs_contract.schedules
          + locked (settled (as_u64 done.time) bobs_contract.schedules)
        ≡ locked bobs_contract.schedules)
process_unlock_releases_example =
    process_unlock_releases chain chain-NextAccount chain-PackUnpack chain-TransferKeeps program
      spl_program clock_sysvar vesting_account vesting_tokens bob_tokens [] vesting_seeds (held 10)
      unlocked_world bobs_contract bobs_contract-IsContract refl refl (other_keys 1 9 (omega arith))
      unlocking

process_unlock_once_example :
    process_unlock chain program unlock_accounts vesting_seeds unlocked_world
    ≢ (ok tt, unlocked_world)
unfolding read_clock bytes_eq moved pay call set_data as_u64
process_unlock_once_example =
    process_unlock_once chain chain-NextAccount chain-PackUnpack chain-TransferKeeps program
      spl_program clock_sysvar vesting_account vesting_tokens bob_tokens [] vesting_seeds (held 10)
      unlocked_world unlocked_world bobs_contract (pos 10) (pos 10) bobs_contract-IsContract refl
      refl (other_keys 1 9 (omega arith)) unlocking refl refl (omega arith)

-- What Bob received, and what is left.
bob_paid :
    (data_of unlocked_world bob_tokens.key ≡ token_bytes 100 7)
    × (data_of unlocked_world vesting_tokens.key ≡ token_bytes 60 2)
unfolding bytes_eq moved pay call set_data
bob_paid = (refl, refl)

release_loop_lem_example : release_loop false 10 bobs_contract.schedules 0 ≡ (
    if ltb (due 10 bobs_contract.schedules) (2 ^ 64)
    then ok (due 10 bobs_contract.schedules, settled 10 bobs_contract.schedules)
    else (if false
        then panic
        else ok (due 10 bobs_contract.schedules % 2 ^ 64, settled 10 bobs_contract.schedules)))
release_loop_lem_example = release_loop_lem false 10 bobs_contract.schedules

process_unlock_error_example :
    (process_unlock chain program unlock_accounts vesting_seeds (held 4)).1 ≡ held 4
process_unlock_error_example =
    process_unlock_error chain chain-CallFails program unlock_accounts vesting_seeds (held 4)
      invalid_argument (ap (λ p. p.0) early)
