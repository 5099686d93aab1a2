-- ===== src/Examples/CreateTests.antt =====
-- `process_init` and `process_create` of rs/src/processor.rs on the example's accounts.
use rebuild_token_vesting.Examples.ChainLaws.{chain-TransferKeeps}
use rebuild_token_vesting.Base.{
  Bool, true, false, ◌+◌, ◌-◌, ◌*◌, ◌^◌, ◌<◌, ◌≡◌, ◌≢◌, refl, none, some, List, [], ◌∷◌, ◌++◌,
  length, map, ok, err, arith, bytes_eq, index_at,
}
use rebuild_token_vesting.Error.{invalid_instruction_data}
use rebuild_token_vesting.Contract.{IsContract, encode, locked}
use rebuild_token_vesting.Instruction
use rebuild_token_vesting.Runtime.Action.{World, AccountInfo, data_of, set_data}
use rebuild_token_vesting.Runtime.Calls
use rebuild_token_vesting.Runtime.Calls.{TokenAccount}
use rebuild_token_vesting.Processor.Create.{state_schedule, fill, process_create}
use rebuild_token_vesting.Processor.Create.Success.{Creates}
use rebuild_token_vesting.Processor.Create.FillOutcome.{fill_stores, fill_total_over, fill-eq-ok}
use rebuild_token_vesting.Processor.Create.Promises.{process_create_stores, process_create_once}
use rebuild_token_vesting.Processor.Create.Progress.{Offers, process_create_succeeds}
use rebuild_token_vesting.Processor.Unlock.Effect.{Holds}
use rebuild_token_vesting.Examples.Chain.{
  chain, chain-NextAccount, chain-TryBorrow, key_of, token_program, derive, read_token,
  make_transfer, call, moved, token_of, pay, repeated,
}
use rebuild_token_vesting.Examples.Scene.{
  program, vesting_seeds, vesting_account, vesting_tokens, alice, alice_tokens, bob_tokens,
  spl_program, mint_address, schedule_args, bobs_contract, blank, held, args-IsScheduleArg,
  bobs_contract-IsContract, key_of-IsPubkey, other_keys,
}

abbrev vesting_token_account : TokenAccount
vesting_token_account = token_of 0 (key_of 2 ++ repeated 132 0)

abbrev alice_token_account : TokenAccount
alice_token_account = token_of 200 (key_of 4 ++ repeated 132 0)

-- Alice and the token program, in lists that may mark them writable or not.
abbrev pub alice_listed : Bool → AccountInfo
alice_listed writable = record { key = key_of 4; is_signer = true; is_writable = writable }

abbrev pub spl_listed : Bool → AccountInfo
spl_listed writable = record { key = key_of 9; is_signer = false; is_writable = writable }

blank-Offers :
    (writable : Bool)
    → Offers chain program vesting_account vesting_tokens
        (alice_listed writable)
        alice_tokens
        vesting_seeds
        schedule_args
        blank
unfolding derive read_token locked index_at
blank-Offers writable = record {
  free = refl;
  derived = refl;
  signed = refl;
  owned = refl;
  size = refl;
  flag = 0;
  flag_read = refl;
  not_initialized = omega arith;
  token_account = vesting_token_account;
  token_unpacked = refl;
  token_owner = refl;
  no_delegate = refl;
  no_close_authority = refl;
  distinct = other_keys 5 2 (omega arith);
  source_account = alice_token_account;
  source_unpacked = refl;
  total_u64 = omega arith;
  enough = omega arith;
}

abbrev funding : Calls.Instruction
funding = record {
  program_id = token_program;
  accounts = [];
  input = 160 ∷ (alice_tokens.key ++ vesting_tokens.key);
}

abbrev filled : World
filled = record (set_data blank vesting_account.key (encode bobs_contract)) {
  borrowed = some vesting_account.key;
}

-- The accounts behind the creation.
abbrev pub created_world : World
created_world = record (moved 160 alice_tokens.key vesting_tokens.key filled) { borrowed = none }

abbrev create_accounts : List AccountInfo
create_accounts = spl_program ∷ vesting_account ∷ vesting_tokens ∷ alice ∷ alice_tokens ∷ []

pub creation_listed :
    (spl_writable writable : Bool)
    → process_create chain program
        (spl_listed spl_writable
          ∷ vesting_account
          ∷ vesting_tokens
          ∷ alice_listed writable
          ∷ alice_tokens
          ∷ [])
        vesting_seeds
        mint_address
        bob_tokens.key
        schedule_args
        blank
      ≡ (ok tt, created_world)
unfolding make_transfer bytes_eq call pay moved locked set_data
creation_listed spl_writable writable =
    process_create_succeeds chain chain-NextAccount chain-TryBorrow program
      (spl_listed spl_writable) vesting_account vesting_tokens (alice_listed writable) alice_tokens
      [] vesting_seeds mint_address bob_tokens.key (key_of-IsPubkey 11 (omega arith))
      (key_of-IsPubkey 6 (omega arith)) schedule_args blank (blank-Offers writable) funding
      (moved 160 alice_tokens.key vesting_tokens.key filled) refl refl

pub creation :
    process_create chain program create_accounts vesting_seeds mint_address bob_tokens.key
      schedule_args blank
    ≡ (ok tt, created_world)
creation = creation_listed true true

process_create_succeeds_example :
    process_create chain program create_accounts vesting_seeds mint_address bob_tokens.key
      schedule_args blank
    ≡ (ok tt, created_world)
unfolding make_transfer bytes_eq call pay moved locked set_data
process_create_succeeds_example =
    process_create_succeeds chain chain-NextAccount chain-TryBorrow program spl_program
      vesting_account vesting_tokens alice alice_tokens [] vesting_seeds mint_address bob_tokens.key
      (key_of-IsPubkey 11 (omega arith)) (key_of-IsPubkey 6 (omega arith)) schedule_args blank
      (blank-Offers true) funding (moved 160 alice_tokens.key vesting_tokens.key filled) refl refl

process_create_stores_example :
    Creates chain program spl_program vesting_account vesting_tokens alice alice_tokens
      vesting_seeds mint_address bob_tokens.key schedule_args blank created_world
    × Holds created_world vesting_account.key bobs_contract
    × ((created_world.accounts vesting_account.key).owner ≡ program)
    × IsContract bobs_contract
process_create_stores_example =
    process_create_stores chain chain-NextAccount program spl_program vesting_account vesting_tokens
      alice alice_tokens [] vesting_seeds mint_address bob_tokens.key
      (key_of-IsPubkey 11 (omega arith)) (key_of-IsPubkey 6 (omega arith)) schedule_args
      args-IsScheduleArg chain-TransferKeeps blank created_world (other_keys 1 9 (omega arith))
      creation

process_create_once_example :
    process_create chain program create_accounts vesting_seeds mint_address bob_tokens.key
      schedule_args
      (held 0)
    ≢ (ok tt, created_world)
process_create_once_example =
    process_create_once chain chain-NextAccount program spl_program vesting_account vesting_tokens
      alice alice_tokens [] vesting_seeds mint_address bob_tokens.key
      (key_of-IsPubkey 11 (omega arith)) (key_of-IsPubkey 6 (omega arith)) schedule_args
      args-IsScheduleArg chain-TryBorrow (held 0) created_world bobs_contract
      bobs_contract-IsContract refl refl

fill-eq-ok_example :
    (length (data_of blank vesting_account.key) ≡ 65 + length schedule_args * 16)
    × (locked (map state_schedule schedule_args) < 2 ^ 64)
    × (160 ≡ locked (map state_schedule schedule_args))
    × (set_data blank vesting_account.key (encode bobs_contract)
        ≡ set_data blank vesting_account.key (encode bobs_contract))
unfolding locked
fill-eq-ok_example =
    fill-eq-ok vesting_account mint_address bob_tokens.key (key_of-IsPubkey 11 (omega arith))
      (key_of-IsPubkey 6 (omega arith)) schedule_args blank 160
      (set_data blank vesting_account.key (encode bobs_contract))
      (fill_stores vesting_account mint_address bob_tokens.key (key_of-IsPubkey 11 (omega arith))
        (key_of-IsPubkey 6 (omega arith)) schedule_args blank refl (omega arith))

-- Two amounts whose sum is no `u64`.
abbrev large : List Instruction.Schedule
large =
    record { release_time = 0; amount = 2 ^ 64 - 1 } ∷ record { release_time = 0; amount = 1 } ∷ []

fill_total_over_example :
    (fill vesting_account mint_address bob_tokens.key large blank).0 ≡ err invalid_instruction_data
unfolding locked
fill_total_over_example =
    fill_total_over vesting_account mint_address bob_tokens.key (key_of-IsPubkey 11 (omega arith))
      (key_of-IsPubkey 6 (omega arith)) large blank refl (omega arith)
