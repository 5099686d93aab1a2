-- ===== src/Processor/Solvency/Handlers.antt =====
-- The handlers of rs/src/processor.rs keep a contract's tokens covered.
use rebuild_token_vesting.Base.{
  ℕ, ◌+◌, ◌≡◌, ◌≢◌, sym, ap, ◌∙◌, some, List, [], ◌∷◌, length, map, All, ok, arith, bytes_eq→eq,
}
use rebuild_token_vesting.State.Header.{Pubkey, IsPubkey}
use rebuild_token_vesting.Contract.{
  Contract, IsContract, encode, length-encode, locked, due, release, due-add-locked,
}
use rebuild_token_vesting.Contract.Life.{redirect}
use rebuild_token_vesting.Instruction
use rebuild_token_vesting.Instruction.{Seeds}
use rebuild_token_vesting.Instruction.Wire.{IsScheduleArg}
use rebuild_token_vesting.Runtime.Action.{World, AccountInfo, data_of, set_data}
use rebuild_token_vesting.Runtime.Calls.{Runtime, as_u64}
use rebuild_token_vesting.Runtime.Documented.{NextAccount, TransferKeeps, TokenTransfer}
use rebuild_token_vesting.Runtime.Store.{accounts-set_data_ne}
use rebuild_token_vesting.Processor.Create.{state_schedule, process_create}
use rebuild_token_vesting.Processor.Create.Fill.{contract_of}
use rebuild_token_vesting.Processor.Create.Promises.{process_create_stores}
use rebuild_token_vesting.Processor.Unlock.Success.{Unlocks}
use rebuild_token_vesting.Processor.Solvency.{
  Covers, token_is_no_contract, moved-Covers, stays-Covers,
}

module _ (rt : Runtime) (next : NextAccount rt) (keeps : TransferKeeps rt) (doc : TokenTransfer rt)
    (program_id : Pubkey) (other_program : program_id ≢ rt.spl_token_id) where
  -- A creation transfers the total into the token account.
  pub process_create-Covers :
      (spl vesting token owner source : AccountInfo) (more : List AccountInfo) (seeds : Seeds)
      (mint dest : Pubkey) (ss : List Instruction.Schedule) (w w' : World)
      → IsPubkey mint
      → IsPubkey dest
      → All IsScheduleArg ss
      → spl.key ≡ rt.spl_token_id
      → source.key ≢ token.key
      → process_create rt program_id
          (spl ∷ vesting ∷ token ∷ owner ∷ source ∷ more)
          seeds
          mint
          dest
          ss
          w
        ≡ (ok tt, w')
      → Covers rt vesting.key token.key w' (contract_of mint dest ss)
  process_create-Covers spl vesting token owner source more seeds mint dest ss w w' km kd vs is_spl
        two e =
      let (done, _, _, _) =
        process_create_stores rt next program_id spl vesting token owner source more seeds mint dest
          km kd ss vs keeps w w' (λ same. other_program (same ∙ is_spl)) e in
      let t = done.token_checked in
      let total : ℕ = locked (map state_schedule ss) in
      let filled : World = set_data w vesting.key (encode (contract_of mint dest ss)) in
      let apart : token.key ≢ vesting.key =
        token_is_no_contract rt doc vesting.key token.key (length ss) w t.token_account
          (omega (arith, done.size)) t.token_unpacked in
      let before : rt.token_unpack (data_of filled token.key) ≡ ok t.token_account =
        ap (λ x. rt.token_unpack x.bytes)
          (accounts-set_data_ne w vesting.key token.key (encode (contract_of mint dest ss)) apart)
        ∙ t.token_unpacked in
      let moved =
        doc.moves_unsigned source.key token.key owner.key total done.ix done.infos
          (record filled { borrowed = some vesting.key }) done.sent
          (ap (λ p. rt.transfer p source.key token.key owner.key [] total) (sym is_spl)
            ∙ done.transfer_made)
          done.transferred in
      record {
        token_account = record t.token_account { amount = t.token_account.amount + total };
        token_unpacked =
            ap (λ x. rt.token_unpack (data_of x token.key)) done.result
            ∙ moved.credited t.token_account before two;
        token_owner = bytes_eq→eq _ _ t.token_owner;
        no_delegate = t.no_delegate;
        no_close_authority = t.no_close_authority;
        covered = omega arith;
      }

module _ (rt : Runtime) (doc : TokenTransfer rt) (vesting : AccountInfo) (k : Pubkey) where
  -- An unlock pays what it no longer locks.
  pub Unlocks-Covers :
      (clock token destination : AccountInfo) (c : Contract) (w w' : World)
      → IsContract c
      → data_of w vesting.key ≡ encode c
      → (done : Unlocks rt clock vesting token destination c w w') → Covers rt vesting.key k w c
      → Covers rt vesting.key k w' (release (as_u64 done.time) c)
  Unlocks-Covers clock token destination c w w' v holds done covers =
      let now : ℕ = as_u64 done.time in
      let apart : k ≢ vesting.key =
        token_is_no_contract rt doc vesting.key k (length c.schedules) w covers.token_account
          (ap length holds ∙ length-encode c v) covers.token_unpacked in
      let moved =
        doc.moves token.key destination.key vesting.key (due now c.schedules) done.ix done.infos
          done.signer_seeds w done.sent done.transfer_made done.transferred in
      stays-Covers rt vesting.key k done.sent w' (release now c) (release now c)
        (ap (λ x. x.accounts k) done.result
          ∙ accounts-set_data_ne done.sent vesting.key k (encode (release now c)) apart)
        (omega arith)
        (moved-Covers rt vesting.key k token.key destination.key (due now c.schedules) w done.sent c
          (release now c) moved (due-add-locked now c.schedules) covers)

  -- A change of the destination leaves the tokens alone.
  pub redirect-Covers :
      (new : Pubkey) (c : Contract) (w w' : World)
      → IsContract c
      → data_of w vesting.key ≡ encode c
      → w' ≡ set_data w vesting.key (encode (redirect new c))
      → Covers rt vesting.key k w c
      → Covers rt vesting.key k w' (redirect new c)
  redirect-Covers new c w w' v holds result covers =
      let apart : k ≢ vesting.key =
        token_is_no_contract rt doc vesting.key k (length c.schedules) w covers.token_account
          (ap length holds ∙ length-encode c v) covers.token_unpacked in
      stays-Covers rt vesting.key k w w' c (redirect new c)
        (ap (λ x. x.accounts k) result
          ∙ accounts-set_data_ne w vesting.key k (encode (redirect new c)) apart)
        (omega arith) covers
