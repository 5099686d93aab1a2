-- ===== src/Examples/ChangeTests.antt =====
-- `process_change_destination` of rs/src/processor.rs on the example's accounts, and a contract from
-- its creation to an unlock.
use rebuild_token_vesting.Examples.ChainLaws.{chain-TransferKeeps}
use rebuild_token_vesting.Base.{
  ℕ, ◌+◌, ◌≡◌, false, ◌≢◌, List, true, ◌↔◌, refl, [], ◌∷◌, map, ok, arith, bytes_eq, ◌++◌,
}
use rebuild_token_vesting.Contract.{Contract, encode, locked, due, release}
use rebuild_token_vesting.Contract.Life.{redirect, Life, Event}
use rebuild_token_vesting.Runtime.Action.{AccountInfo, World, set_data}
use rebuild_token_vesting.Runtime.Calls.{pos, as_u64}
use rebuild_token_vesting.Processor.Create.{state_schedule}
use rebuild_token_vesting.Processor.Create.Success.{Creates}
use rebuild_token_vesting.Processor.ChangeDestination.{process_change_destination}
use rebuild_token_vesting.Processor.ChangeDestination.Effect.{
  Authorised, process_change_destination_iff,
}
use rebuild_token_vesting.Processor.Unlock.{process_unlock}
use rebuild_token_vesting.Processor.Unlock.Progress.{Matches, process_unlock_succeeds}
use rebuild_token_vesting.Processor.ChangeDestination.Atomic.{process_change_destination_failure}
use rebuild_token_vesting.Processor.Isolation.{Call-elsewhere, process_create_elsewhere}
use rebuild_token_vesting.Processor.Lifecycle.{Call-Event, created_contract-Pays}
use rebuild_token_vesting.Processor.Sequence.{
  Live, Call, unlocks, no_call, then_call, Transfers, Pays,
}
use rebuild_token_vesting.Examples.Chain.{
  chain, chain-NextAccount, chain-TryBorrow, chain-PackUnpack, key_of, derive, read_token,
  read_clock, make_transfer, call_signed, moved, token_of, pay, repeated, call,
}
use rebuild_token_vesting.Examples.Scene.{
  entry, program, vesting_seeds, vesting_account, vesting_tokens, bob_tokens, bob, new_tokens,
  alice, alice_tokens, mint_address, spl_program, clock_sysvar, schedule_args, bobs_contract, blank,
  held, bobs_contract-IsContract, args-IsScheduleArg, key_of-IsPubkey, other_keys,
}
use rebuild_token_vesting.Examples.CreateTests.{created_world, creation}
use rebuild_token_vesting.Examples.UnlockTests.{payment, unlocked_world, unlocking}

abbrev redirected_world : World
redirected_world =
    set_data (held 10) vesting_account.key (encode (redirect new_tokens.key bobs_contract))

process_change_destination_iff_example :
    (process_change_destination chain program
        (vesting_account ∷ bob_tokens ∷ bob ∷ new_tokens ∷ [])
        vesting_seeds
        (held 10)
      ≡ (ok tt, redirected_world))
    ↔ (Authorised chain program vesting_account bob_tokens bob vesting_seeds (held 10) bobs_contract
        × (redirected_world ≡ redirected_world))
process_change_destination_iff_example =
    process_change_destination_iff chain chain-PackUnpack program vesting_account bob_tokens bob
      new_tokens vesting_seeds (held 10) bobs_contract bobs_contract-IsContract refl refl
      chain-NextAccount [] redirected_world

-- Bob may.
bob-Authorised :
    Authorised chain program vesting_account bob_tokens bob vesting_seeds (held 10) bobs_contract
unfolding derive read_token
bob-Authorised = record {
  derived = refl;
  present_destination = refl;
  signed = refl;
  token_account = token_of 0 (key_of 7 ++ repeated 132 0);
  token_unpacked = refl;
  owned = refl;
}

-- So he sends the rest to another account.
bob_redirects :
    process_change_destination chain program
      (vesting_account ∷ bob_tokens ∷ bob ∷ new_tokens ∷ [])
      vesting_seeds
      (held 10)
    ≡ (ok tt, redirected_world)
bob_redirects =
    (process_change_destination_iff chain chain-PackUnpack program vesting_account bob_tokens bob
        new_tokens vesting_seeds (held 10) bobs_contract bobs_contract-IsContract refl refl
        chain-NextAccount [] redirected_world).1
      (bob-Authorised, refl)

held-Live : Live program (held 10) vesting_account.key bobs_contract
held-Live = record { valid = bobs_contract-IsContract; free = refl; holds = refl; owned = refl }

unlock-Call : Call chain program vesting_account 10 (held 10) unlocked_world
unfolding read_clock as_u64
unlock-Call =
    unlocks spl_program clock_sysvar vesting_tokens bob_tokens [] vesting_seeds (pos 10) refl
      (omega arith) unlocking

Call-Event_example :
    (amount : ℕ) × (c : Contract) × Event 10 bobs_contract amount c
    × Live program unlocked_world vesting_account.key c
    × Transfers chain program vesting_account unlock-Call amount
Call-Event_example =
    Call-Event chain chain-NextAccount chain-PackUnpack chain-TryBorrow chain-TransferKeeps program
      (other_keys 1 9 (omega arith)) vesting_account 10 (held 10) unlocked_world bobs_contract
      unlock-Call held-Live

-- The unlock of the contract that Alice just created.
abbrev pub paid_world : World
paid_world =
    set_data (moved 100 vesting_tokens.key bob_tokens.key created_world) vesting_account.key
      (encode (release 10 bobs_contract))

created-Matches :
    Matches chain program spl_program vesting_account vesting_tokens bob_tokens vesting_seeds
      created_world bobs_contract
unfolding derive read_token set_data bytes_eq moved pay call
created-Matches = record {
  valid = bobs_contract-IsContract;
  free = refl;
  holds = refl;
  derived = refl;
  spl_program = refl;
  to_destination = refl;
  token_account = token_of 160 (key_of 2 ++ repeated 132 0);
  token_unpacked = refl;
  token_owner = refl;
}

pub created_unlocking :
    process_unlock chain program
      (spl_program ∷ clock_sysvar ∷ vesting_account ∷ vesting_tokens ∷ bob_tokens ∷ [])
      vesting_seeds
      created_world
    ≡ (ok tt, paid_world)
unfolding make_transfer bytes_eq call_signed call pay read_clock due as_u64 set_data moved
created_unlocking =
    process_unlock_succeeds chain chain-NextAccount chain-PackUnpack program spl_program
      clock_sysvar vesting_account vesting_tokens bob_tokens [] vesting_seeds created_world
      bobs_contract created-Matches chain-TransferKeeps (pos 10) payment
      (moved 100 vesting_tokens.key bob_tokens.key created_world) (other_keys 1 9 (omega arith))
      refl (omega arith) refl refl

pub unlock_created : Call chain program vesting_account 10 created_world paid_world
unfolding read_clock as_u64 set_data moved bytes_eq pay call
unlock_created =
    unlocks spl_program clock_sysvar vesting_tokens bob_tokens [] vesting_seeds (pos 10) refl
      (omega arith) created_unlocking

created_contract-Pays_example :
    (paid : ℕ) × (c : Contract) × Creates chain program spl_program vesting_account vesting_tokens
      alice alice_tokens vesting_seeds mint_address bob_tokens.key schedule_args blank created_world
    × Life 10 bobs_contract paid c
    × Live program paid_world vesting_account.key c
    × Pays chain program vesting_account (then_call no_call unlock_created) paid
    × (paid + locked c.schedules ≡ locked (map state_schedule schedule_args))
    × (paid + due 10 c.schedules ≡ due 10 (map state_schedule schedule_args))
created_contract-Pays_example =
    created_contract-Pays chain chain-NextAccount chain-PackUnpack chain-TryBorrow
      chain-TransferKeeps program (other_keys 1 9 (omega arith)) vesting_account spl_program
      vesting_tokens alice alice_tokens [] vesting_seeds mint_address bob_tokens.key schedule_args
      blank created_world paid_world 10 (key_of-IsPubkey 11 (omega arith))
      (key_of-IsPubkey 6 (omega arith)) args-IsScheduleArg (other_keys 1 9 (omega arith)) refl
      creation (then_call no_call unlock_created)

-- Bob's account in the list without his signature.
abbrev unsigned : List AccountInfo
unsigned = vesting_account ∷ bob_tokens ∷ entry 7 false ∷ new_tokens ∷ []

unsigned_fails :
    (process_change_destination chain program unsigned vesting_seeds (held 10)).0 ≢ ok tt
unsigned_fails e =
    let result = process_change_destination chain program unsigned vesting_seeds (held 10) in
    let (bob_may, _) =
      (process_change_destination_iff chain chain-PackUnpack program vesting_account bob_tokens
          (entry 7 false) new_tokens vesting_seeds (held 10) bobs_contract bobs_contract-IsContract
          refl refl chain-NextAccount [] result.1).0
        (λ i. (e i, result.1)) in
    not_signed bob_may.signed
  where
    not_signed : false ≡ true → ⊥
    not_signed q = cc

process_change_destination_failure_example :
    (process_change_destination chain program unsigned vesting_seeds (held 10)).1 ≡ held 10
process_change_destination_failure_example =
    process_change_destination_failure chain program unsigned vesting_seeds (held 10) unsigned_fails

Call-elsewhere_example : unlocked_world.accounts (key_of 20) ≡ (held 10).accounts (key_of 20)
Call-elsewhere_example =
    Call-elsewhere chain chain-NextAccount chain-PackUnpack chain-TryBorrow chain-TransferKeeps
      program (other_keys 1 9 (omega arith)) vesting_account (key_of 20)
      (other_keys 20 2 (omega arith)) 10 (held 10) unlocked_world bobs_contract held-Live
      (other_keys 0 9 (omega arith)) unlock-Call

process_create_elsewhere_example : created_world.accounts (key_of 20) ≡ blank.accounts (key_of 20)
process_create_elsewhere_example =
    process_create_elsewhere chain chain-TransferKeeps vesting_account (key_of 20)
      (other_keys 20 2 (omega arith)) chain-NextAccount program spl_program vesting_tokens alice
      alice_tokens [] vesting_seeds mint_address bob_tokens.key schedule_args blank created_world
      (key_of-IsPubkey 11 (omega arith)) (key_of-IsPubkey 6 (omega arith)) args-IsScheduleArg
      (other_keys 1 9 (omega arith)) (other_keys 0 9 (omega arith)) creation
