-- ===== src/Examples/FlowTests.antt =====
-- The flow of rs/fuzz/fuzz_targets/fuzz_target_1.rs on a small bank.
use rebuild_token_vesting.Base.{
  ◌≡◌, refl, sym, ap, ◌∙◌, true, false, [], ◌∷◌, ◌++◌, Result, ok, bytes_eq, arith,
}
use rebuild_token_vesting.Error.{ProgramError}
use rebuild_token_vesting.State.Header.{IsPubkey}
use rebuild_token_vesting.Instruction
use rebuild_token_vesting.Instruction.Builders
use rebuild_token_vesting.Instruction.{pack}
use rebuild_token_vesting.Runtime.Action.{World, ◌>>=◌}
use rebuild_token_vesting.Runtime.Calls
use rebuild_token_vesting.Runtime.Calls.{Runtime, TokenAccount, pos, as_u64}
use rebuild_token_vesting.Runtime.Steps.{pure-eq-ok}
use rebuild_token_vesting.Processor.Dispatch.Clients.{submit, submit-create, submit-unlock}
use rebuild_token_vesting.Flow.{seed, flow_contract}
use rebuild_token_vesting.Flow.Amounts.{Opened, flow_contract_passes}
use rebuild_token_vesting.Examples.Chain.{
  chain, chain-NextAccount, chain-PackUnpack, key_of, token_program, token_of, repeated, read_token,
}
use rebuild_token_vesting.Examples.ChainLaws.{chain-TransferKeeps, chain-TokenTransfer}
use rebuild_token_vesting.Examples.Scene.{program, key_of-IsPubkey, other_keys}
use rebuild_token_vesting.Examples.EntryTests.{metas, metas-MetaFields}
use rebuild_token_vesting.Examples.FuzzScene.{bank, note}
use rebuild_token_vesting.Examples.FlowScene.{
  flow_world, execute, run_all, test_bank, execute_program, bank_runs, schedules, flow_created,
  flow_unlocked, flow_creation, flow_unlocking,
}

abbrev flow_create_ix : Calls.Instruction
flow_create_ix = record {
  program_id = program;
  accounts =
      record { pubkey = token_program; is_signer = false; is_writable = false }
      ∷ record { pubkey = seed; is_signer = false; is_writable = true }
      ∷ record { pubkey = key_of 3; is_signer = false; is_writable = true }
      ∷ record { pubkey = key_of 4; is_signer = true; is_writable = false }
      ∷ record { pubkey = key_of 5; is_signer = false; is_writable = true }
      ∷ [];
  input = pack (Instruction.create seed (key_of 11) (key_of 6) schedules);
}

abbrev flow_unlock_ix : Calls.Instruction
flow_unlock_ix = record {
  program_id = program;
  accounts =
      record { pubkey = token_program; is_signer = false; is_writable = false }
      ∷ record { pubkey = key_of 10; is_signer = false; is_writable = false }
      ∷ record { pubkey = seed; is_signer = false; is_writable = true }
      ∷ record { pubkey = key_of 3; is_signer = false; is_writable = true }
      ∷ record { pubkey = key_of 6; is_signer = false; is_writable = true }
      ∷ [];
  input = pack (Instruction.unlock seed);
}

flow_create-built :
    Builders.create metas program token_program seed
      (key_of 3)
      (key_of 4)
      (key_of 5)
      (key_of 6)
      (key_of 11)
      schedules
      seed
    ≡ ok flow_create_ix
unfolding Builders.create
flow_create-built = refl

flow_unlock-built :
    Builders.unlock metas program token_program (key_of 10) seed (key_of 3) (key_of 6) seed
    ≡ ok flow_unlock_ix
unfolding Builders.unlock
flow_unlock-built = refl

seed_key : IsPubkey seed
seed_key = record { size = refl; bytes = ground arith }

create_sent : submit chain (ok flow_create_ix) flow_world ≡ (ok tt, flow_created)
create_sent =
    ap (λ b. submit chain b flow_world) (sym flow_create-built)
    ∙ submit-create chain metas metas-MetaFields flow_world program token_program seed (key_of 3)
        (key_of 4) (key_of 5) (key_of 6) (key_of 11) schedules seed
        (
          seed_key,
          key_of-IsPubkey 11 (omega arith),
          key_of-IsPubkey 6 (omega arith),
          (record { release_time_u64 = omega arith; amount_u64 = omega arith }, tt),
        )
    ∙ flow_creation

unlock_sent : submit chain (ok flow_unlock_ix) flow_created ≡ (ok tt, flow_unlocked)
unlock_sent =
    ap (λ b. submit chain b flow_created) (sym flow_unlock-built)
    ∙ submit-unlock chain metas metas-MetaFields flow_created program token_program (key_of 10) seed
        (key_of 3) (key_of 6) seed seed_key
    ∙ flow_unlocking

run_one :
    (ix : Calls.Instruction) (w w' : World)
    → ix.program_id ≡ program
    → submit chain (ok ix) w ≡ (ok tt, w')
    → run_all (ix ∷ []) w ≡ (ok tt, w')
unfolding run_all
run_one ix w w' ours sent =
    ap (λ (p : Result ProgramError (Unit {0}) × World). ◌>>=◌ (λ _. p) (λ u. run_all []) w)
      (execute_program ix w ours ∙ sent)

run_behind :
    (ix : Calls.Instruction) (w w' : World)
    → run_all (ix ∷ []) w ≡ (ok tt, w')
    → run_all (note 15 (key_of 7) ∷ ix ∷ []) w ≡ (ok tt, w')
unfolding run_all execute bytes_eq
run_behind ix w w' sent = sent

flow_world-Opened : Opened chain (key_of 5) (key_of 6) flow_world
unfolding read_token bytes_eq
flow_world-Opened = record {
  free = refl;
  source_account = token_of 1000 (key_of 4 ++ repeated 132 0);
  source_has = refl;
  source_amount = refl;
  source_no_delegate = refl;
  destination_account = token_of 0 (key_of 7 ++ repeated 132 0);
  destination_has = refl;
  destination_amount = refl;
}

opened :
    (w' : World)
    → execute (note 15 (key_of 7)) flow_world ≡ (ok tt, w')
    → Opened chain (key_of 5) (key_of 6) w'
unfolding execute bytes_eq
opened w' e = let same = (pure-eq-ok tt flow_world e).1 in rw same flow_world-Opened

flow_contract_passes_example :
    flow_contract bank chain test_bank program (key_of 4) (key_of 11) (key_of 7) seed flow_world
    ≡ (ok tt, flow_unlocked)
unfolding bytes_eq execute
flow_contract_passes_example =
    flow_contract_passes bank chain chain-NextAccount chain-PackUnpack chain-TransferKeeps
      chain-TokenTransfer metas-MetaFields refl test_bank program (other_keys 1 9 (omega arith))
      (key_of 4) (key_of 11) (key_of 7) bank_runs seed (key_of-IsPubkey 11 (omega arith))
      (key_of-IsPubkey 6 (omega arith)) (other_keys 5 3 (omega arith))
      (other_keys 6 3 (omega arith)) (other_keys 6 5 (omega arith)) flow_create_ix flow_unlock_ix
      flow_world flow_created flow_unlocked opened flow_create-built flow_unlock-built
      (run_behind flow_create_ix flow_world flow_created
        (run_one flow_create_ix flow_world flow_created refl create_sent))
      (run_one flow_unlock_ix flow_created flow_unlocked refl unlock_sent)
