-- ===== src/Flow/Amounts.antt =====
-- The amounts that the flow of rs/fuzz/fuzz_targets/fuzz_target_1.rs asserts.
use rebuild_token_vesting.Base.{◌≡◌, ◌≢◌, sym, ap, ◌∙◌, true, false, none, [], ◌∷◌, ok, arith}
use rebuild_token_vesting.State.Header.{Pubkey, IsPubkey}
use rebuild_token_vesting.Instruction.Builders
use rebuild_token_vesting.Runtime.Action.{World}
use rebuild_token_vesting.Runtime.Calls
use rebuild_token_vesting.Runtime.Calls.{Runtime, TokenAccount, as_u64}
use rebuild_token_vesting.Runtime.Documented.{NextAccount, PackUnpack, TransferKeeps, TokenTransfer}
use rebuild_token_vesting.Processor.Solvency.Balances.{Has, created_and_unlocked}
use rebuild_token_vesting.Processor.Dispatch.Clients.{
  MetaFields, listed, submit, submit-create, submit-unlock,
}
use rebuild_token_vesting.Fuzz.Outside.{Outside}
use rebuild_token_vesting.Flow.{
  TestBank, seed, source_token_acc_key, dest_token_acc_key, flow_contract,
}
use rebuild_token_vesting.Flow.Sending.{
  Runs, one_schedule, one_locked, one_due, one_valid, seed-IsPubkey, flow_check_passes,
  two_in_order, one_in_order, flow_contract_sends,
}

-- The funds of the flow, and the empty account for the receiver.
pub record Opened (rt : Runtime) (source destination : Pubkey) (w : World) : Type 0 where
  pub free : w.borrowed ≡ none
  pub source_account : TokenAccount
  pub source_has : Has rt w source source_account
  pub source_amount : source_account.amount ≡ 1000
  pub source_no_delegate : source_account.delegate ≡ none
  pub destination_account : TokenAccount
  pub destination_has : Has rt w destination destination_account
  pub destination_amount : destination_account.amount ≡ 0

module _ (o : Outside) (rt : Runtime) (next : NextAccount rt) (pack : PackUnpack rt)
    (keeps : TransferKeeps rt) (doc : TokenTransfer rt) (fields : MetaFields o.metas)
    (same_id : o.spl_token_id ≡ rt.spl_token_id) (bank : TestBank o) (program_id : Pubkey)
    (other_program : program_id ≢ rt.spl_token_id) (payer mint_keypair dest_keypair : o.Keypair)
    (runs : Runs o rt bank program_id) (vesting : Pubkey) where
  abbrev token : Pubkey
  token = o.get_associated_token_address vesting (o.pubkey mint_keypair)

  abbrev source : Pubkey
  source = source_token_acc_key o rt bank program_id payer mint_keypair dest_keypair

  abbrev destination : Pubkey
  destination = dest_token_acc_key o rt bank program_id payer mint_keypair dest_keypair

  made_for :
      (ix : Calls.Instruction)
      → Builders.create o.metas program_id o.spl_token_id vesting token
          (o.pubkey payer)
          source
          destination
          (o.pubkey mint_keypair)
          one_schedule
          seed
        ≡ ok ix
      → ix.program_id ≡ program_id
  unfolding Builders.create
  made_for ix e = cc

  made_for_unlock :
      (ix : Calls.Instruction)
      → Builders.unlock o.metas program_id o.spl_token_id bank.clock_id vesting token destination
          seed
        ≡ ok ix
      → ix.program_id ≡ program_id
  unfolding Builders.unlock
  made_for_unlock ix e = cc

  -- If the program is not the token program, transfers do what the token program documents, the
  -- bank runs the instructions of a transaction in order and accounts can be read, for a mint's and
  -- a receiver's key of 32 bytes and three different token accounts: when the flow's two last
  -- transactions succeed, from accounts with 1000 tokens for the payer (without a delegate) and
  -- none for the receiver once its account is made, the flow's assertions hold and it ends without
  -- a panic.
  pub flow_contract_passes :
      IsPubkey (o.pubkey mint_keypair)
      → IsPubkey destination
      → source ≢ token
      → destination ≢ token
      → destination ≢ source
      → (create_ix unlock_ix : Calls.Instruction) (w w1 w2 : World)
      → (opens : (w' : World)
          → runs.execute
              (o.create_associated_token_account
                (o.pubkey payer)
                (o.pubkey dest_keypair)
                (o.pubkey mint_keypair))
              w
            ≡ (ok tt, w')
          → Opened rt source destination w')
      → Builders.create o.metas program_id o.spl_token_id vesting token
          (o.pubkey payer)
          source
          destination
          (o.pubkey mint_keypair)
          (record { release_time = 1; amount = 111 } ∷ [])
          seed
        ≡ ok create_ix
      → Builders.unlock o.metas program_id o.spl_token_id bank.clock_id vesting token destination
          seed
        ≡ ok unlock_ix
      → bank.process_transaction
          (o.create_associated_token_account
              (o.pubkey payer)
              (o.pubkey dest_keypair)
              (o.pubkey mint_keypair)
            ∷ create_ix
            ∷ [])
          (o.pubkey payer)
          (payer ∷ [])
          w
        ≡ (ok tt, w1)
      → bank.process_transaction (unlock_ix ∷ []) (o.pubkey payer) (payer ∷ []) w1 ≡ (ok tt, w2)
      → flow_contract o rt bank program_id payer mint_keypair dest_keypair vesting w ≡ (ok tt, w2)
  flow_contract_passes km kd two to_other to_third create_ix unlock_ix w w1 w2 opens built_create
        built_unlock created unlocked =
      let (w0, opened, ran_create) =
        two_in_order o rt bank program_id payer mint_keypair dest_keypair runs _ create_ix w w1
          (runs.in_order _ _ _ w w1 created) in
      let ran_unlock =
        one_in_order o rt bank program_id payer mint_keypair dest_keypair runs unlock_ix w1 w2
          (runs.in_order _ _ _ w1 w2 unlocked) in
      let start : Opened rt source destination w0 = opens w0 opened in
      let create_run =
        sym (
          submit-create rt o.metas fields w0 program_id o.spl_token_id vesting token
            (o.pubkey payer) source destination (o.pubkey mint_keypair) one_schedule seed
            (seed-IsPubkey, km, kd, one_valid))
        ∙ ap (λ b. submit rt b w0) built_create
        ∙ sym (runs.by_program create_ix w0 (made_for create_ix built_create))
        ∙ ran_create in
      let unlock_run =
        sym (
          submit-unlock rt o.metas fields w1 program_id o.spl_token_id bank.clock_id vesting token
            destination seed seed-IsPubkey)
        ∙ ap (λ b. submit rt b w1) built_unlock
        ∙ sym (runs.by_program unlock_ix w1 (made_for_unlock unlock_ix built_unlock))
        ∙ ran_unlock in
      let (b, t, _, _, some_due, _, source_has, _, destination_has) =
        created_and_unlocked rt next pack keeps doc program_id other_program
          (listed vesting false true) (listed token false true) (listed source false true)
          (listed destination false true) (listed o.spl_token_id false false)
          (listed (o.pubkey payer) true false) (listed o.spl_token_id false false)
          (listed bank.clock_id false false) [] [] seed seed (o.pubkey mint_keypair) destination
          one_schedule w0 w1 w2 start.source_account start.destination_account km kd one_valid
          start.free same_id two to_other to_third start.source_has start.source_no_delegate
          start.destination_has create_run unlock_run in
      flow_contract_sends o rt bank program_id payer mint_keypair dest_keypair runs vesting
        create_ix unlock_ix w w1 w2 built_create built_unlock created unlocked
      ∙ flow_check_passes o rt bank program_id payer mint_keypair dest_keypair runs w2 _ _
          destination_has source_has
          (omega (arith, start.destination_amount, one_due (as_u64 t) some_due))
          (omega (arith, start.source_amount, one_locked))
