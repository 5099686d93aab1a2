-- ===== src/Examples/SolvencyTests.antt =====
-- The tokens behind the contract of the example, over the calls of rs/src/processor.rs.
use rebuild_token_vesting.Base.{◌+◌, ◌-◌, ◌<◌, ◌≤◌, map, ◌≡◌, refl, [], ◌∷◌, ◌++◌, ok, arith}
use rebuild_token_vesting.Contract.{locked, due, release}
use rebuild_token_vesting.Runtime.Action.{World}
use rebuild_token_vesting.Runtime.Calls.{pos, as_u64}
use rebuild_token_vesting.Processor.Unlock.{process_unlock}
use rebuild_token_vesting.Processor.Unlock.Effect.{Holds}
use rebuild_token_vesting.Processor.Sequence.{Live, no_call, then_call}
use rebuild_token_vesting.Processor.Solvency.{Covers}
use rebuild_token_vesting.Processor.Solvency.Calls.{Solvent, created_contract-Solvent}
use rebuild_token_vesting.Processor.Solvency.Payout.{Payable, process_unlock_pays_out}
use rebuild_token_vesting.Examples.Chain.{
  chain, chain-NextAccount, chain-PackUnpack, chain-TryBorrow, key_of, derive, read_token,
  read_clock, token_of, repeated,
}
use rebuild_token_vesting.Examples.ChainLaws.{
  chain-TransferKeeps, chain-TokenTransfer, chain-CarriesOut,
}
use rebuild_token_vesting.Examples.Scene.{
  program, vesting_seeds, vesting_account, vesting_tokens, alice, alice_tokens, bob_tokens,
  spl_program, clock_sysvar, mint_address, schedule_args, bobs_contract, blank, held,
  args-IsScheduleArg, bobs_contract-IsContract, key_of-IsPubkey, other_keys,
}
use rebuild_token_vesting.Examples.CreateTests.{created_world, creation}
use rebuild_token_vesting.Examples.ChangeTests.{paid_world, unlock_created, created_unlocking}
use rebuild_token_vesting.Processor.Solvency.Balances.{Has, created_and_unlocked}
use rebuild_token_vesting.Processor.Create.{state_schedule}
use rebuild_token_vesting.Runtime.Calls.{TokenAccount, ℤ}

held-Live : Live program (held 10) vesting_account.key bobs_contract
held-Live = record { free = refl; owned = refl; holds = refl; valid = bobs_contract-IsContract }

abbrev held-Covers : Covers chain vesting_account.key vesting_tokens.key (held 10) bobs_contract
unfolding read_token locked
held-Covers = record {
  token_account = token_of 160 (key_of 2 ++ repeated 132 0);
  token_unpacked = refl;
  token_owner = refl;
  no_delegate = refl;
  no_close_authority = refl;
  covered = omega arith;
}

held-Payable :
    Payable chain program spl_program vesting_account vesting_tokens bob_tokens vesting_seeds
      (due (as_u64 (pos 10)) bobs_contract.schedules)
      (held 10)
      bobs_contract
      held-Covers.token_account
unfolding derive read_token due as_u64 held-Covers
held-Payable = record {
  derived = refl;
  spl_program = refl;
  to_destination = refl;
  token_key = key_of-IsPubkey 3 (omega arith);
  token_writable = refl;
  destination_writable = refl;
  token_owned = refl;
  destination_owned = refl;
  token_thawed = refl;
  destination_account = token_of 0 (key_of 7 ++ repeated 132 0);
  destination_unpacked = refl;
  same_mint = refl;
  destination_thawed = refl;
  room = omega arith;
}

process_unlock_pays_out_example :
    (w' : World) × (process_unlock chain program
        (spl_program ∷ clock_sysvar ∷ vesting_account ∷ vesting_tokens ∷ bob_tokens ∷ [])
        vesting_seeds
        (held 10)
      ≡ (ok tt, w'))
    × Holds w' vesting_account.key (release (as_u64 (pos 10)) bobs_contract)
unfolding read_clock due as_u64
process_unlock_pays_out_example =
    process_unlock_pays_out chain chain-NextAccount chain-PackUnpack chain-TransferKeeps program
      (chain-CarriesOut program) spl_program clock_sysvar vesting_account vesting_tokens bob_tokens
      [] vesting_seeds (held 10) bobs_contract (pos 10) (other_keys 1 9 (omega arith)) held-Live
      held-Covers held-Payable refl (omega arith)

created_contract-Solvent_example :
    Solvent chain program vesting_account.key vesting_tokens.key paid_world
created_contract-Solvent_example =
    created_contract-Solvent chain chain-NextAccount chain-PackUnpack chain-TryBorrow
      chain-TransferKeeps chain-TokenTransfer program (other_keys 1 9 (omega arith)) vesting_account
      vesting_tokens spl_program alice alice_tokens [] vesting_seeds mint_address bob_tokens.key
      schedule_args blank created_world paid_world 10 (key_of-IsPubkey 11 (omega arith))
      (key_of-IsPubkey 6 (omega arith)) args-IsScheduleArg refl refl (other_keys 5 3 (omega arith))
      creation (then_call no_call unlock_created)

created_and_unlocked_example :
    (b : TokenAccount) × (t : ℤ) × Has chain blank vesting_tokens.key b
    × (chain.clock_from_account_info clock_sysvar created_world ≡ ok t)
    × (0 < due (as_u64 t) (map state_schedule schedule_args))
    × (locked (map state_schedule schedule_args) ≤ 200)
    × Has chain paid_world alice_tokens.key
        (token_of (200 - locked (map state_schedule schedule_args)) (key_of 4 ++ repeated 132 0))
    × Has chain paid_world vesting_tokens.key (record b {
      amount =
          b.amount
          + locked (map state_schedule schedule_args)
          - due (as_u64 t) (map state_schedule schedule_args);
    })
    × Has chain paid_world bob_tokens.key (
        token_of
          (0 + due (as_u64 t) (map state_schedule schedule_args))
          (key_of 7 ++ repeated 132 0))
unfolding read_token
created_and_unlocked_example =
    created_and_unlocked chain chain-NextAccount chain-PackUnpack chain-TransferKeeps
      chain-TokenTransfer program (other_keys 1 9 (omega arith)) vesting_account vesting_tokens
      alice_tokens bob_tokens spl_program alice spl_program clock_sysvar [] [] vesting_seeds
      vesting_seeds mint_address bob_tokens.key schedule_args blank created_world paid_world
      (token_of 200 (key_of 4 ++ repeated 132 0)) (token_of 0 (key_of 7 ++ repeated 132 0))
      (key_of-IsPubkey 11 (omega arith)) (key_of-IsPubkey 6 (omega arith)) args-IsScheduleArg refl
      refl (other_keys 5 3 (omega arith)) (other_keys 6 3 (omega arith))
      (other_keys 6 5 (omega arith)) refl refl refl creation created_unlocking
