-- ===== src/Processor/Isolation.antt =====
-- What the handlers of rs/src/processor.rs leave alone.
use rebuild_token_vesting.Base.{ℕ, ◌≡◌, ◌≢◌, sym, ap, ◌∙◌, some, List, ◌∷◌, All, ok}
use rebuild_token_vesting.State.Header.{Pubkey, IsPubkey}
use rebuild_token_vesting.Contract.{Contract, encode, release}
use rebuild_token_vesting.Contract.Life.{redirect}
use rebuild_token_vesting.Instruction
use rebuild_token_vesting.Instruction.{Seeds}
use rebuild_token_vesting.Instruction.Wire.{IsScheduleArg}
use rebuild_token_vesting.Runtime.Action.{World, AccountInfo, set_data}
use rebuild_token_vesting.Runtime.Calls.{Runtime, as_u64}
use rebuild_token_vesting.Runtime.Documented.{NextAccount, PackUnpack, TryBorrow, TransferKeeps}
use rebuild_token_vesting.Runtime.Store.{accounts-set_data_ne, owner-set_data}
use rebuild_token_vesting.Processor.Create.{process_create}
use rebuild_token_vesting.Processor.Create.Fill.{contract_of}
use rebuild_token_vesting.Processor.Create.Promises.{process_create_stores, process_create_once}
use rebuild_token_vesting.Processor.Unlock.Success.{Unlocks}
use rebuild_token_vesting.Processor.Unlock.Once.{process_unlock_releases}
use rebuild_token_vesting.Processor.ChangeDestination.Effect.{process_change_destination_iff}
use rebuild_token_vesting.Processor.Sequence.{Live, Call, unlocks, changes, creates}

module _ (rt : Runtime) (keeps : TransferKeeps rt) (vesting : AccountInfo) (k : Pubkey)
    (elsewhere : k ≢ vesting.key) where
  Unlocks-elsewhere :
      (clock token destination : AccountInfo) (c : Contract) (w w' : World)
      → (w.accounts k).owner ≢ rt.spl_token_id
      → Unlocks rt clock vesting token destination c w w'
      → w'.accounts k ≡ w.accounts k
  Unlocks-elsewhere clock token destination c w w' foreign done =
      ap (λ x. x.accounts k) done.result
      ∙ accounts-set_data_ne done.sent vesting.key k (encode (release (as_u64 done.time) c))
          elsewhere
      ∙ keeps.accounts_kept _ _ _ _ _ done.ix done.infos done.signer_seeds w done.sent
          done.transfer_made done.transferred k foreign

  -- With keys and schedules in range, and a first account that does not name the program itself: a
  -- successful creation leaves every account but the vesting account as it was that is not owned by
  -- the program which the first account names.
  pub process_create_elsewhere :
      (next : NextAccount rt) (program_id : Pubkey) (spl token owner source : AccountInfo)
      (more : List AccountInfo) (seeds : Seeds) (mint dest : Pubkey)
      (ss : List Instruction.Schedule) (w w' : World)
      → IsPubkey mint
      → IsPubkey dest
      → All IsScheduleArg ss
      → program_id ≢ spl.key
      → (w.accounts k).owner ≢ spl.key
      → process_create rt program_id
          (spl ∷ vesting ∷ token ∷ owner ∷ source ∷ more)
          seeds
          mint
          dest
          ss
          w
        ≡ (ok tt, w')
      → w'.accounts k ≡ w.accounts k
  process_create_elsewhere next program_id spl token owner source more seeds mint dest ss w w' km kd
        vs other foreign e =
      let (done, _, _, _) =
        process_create_stores rt next program_id spl vesting token owner source more seeds mint dest
          km kd ss vs keeps w w' other e in
      let filled : World = set_data w vesting.key (encode (contract_of mint dest ss)) in
      ap (λ x. x.accounts k) done.result
      ∙ keeps.accounts_kept_unsigned _ _ _ _ _ done.ix done.infos
          (record filled { borrowed = some vesting.key }) done.sent done.transfer_made
          done.transferred k
          (λ same.
            foreign
              (sym (owner-set_data w vesting.key k (encode (contract_of mint dest ss))) ∙ same))
      ∙ accounts-set_data_ne w vesting.key k (encode (contract_of mint dest ss)) elsewhere

module _ (rt : Runtime) (next : NextAccount rt) (pack : PackUnpack rt) (try : TryBorrow rt)
    (keeps : TransferKeeps rt) (program_id : Pubkey) (other_program : program_id ≢ rt.spl_token_id)
    (vesting : AccountInfo) (k : Pubkey) (elsewhere : k ≢ vesting.key) where
  -- If the program is not the token program: a successful call on a vesting account of the program
  -- that holds a contract, with no data borrowed, leaves every other account as it was that is not
  -- the token program's, and so all other contracts.
  pub Call-elsewhere :
      (limit : ℕ) (w w' : World) (c : Contract)
      → Live program_id w vesting.key c
      → (w.accounts k).owner ≢ rt.spl_token_id
      → Call rt program_id vesting limit w w'
      → w'.accounts k ≡ w.accounts k
  Call-elsewhere limit w w' c live foreign
        (unlocks spl clock token destination more seeds t read bound e) =
      let (done, _, _) =
        process_unlock_releases rt next pack keeps program_id spl clock vesting token destination
          more seeds w w' c live.valid live.free live.holds
          (λ same. other_program (sym live.owned ∙ same)) e in
      Unlocks-elsewhere rt keeps vesting k elsewhere clock token destination c w w' foreign done
  Call-elsewhere limit w w' c live foreign (changes destination owner new more seeds kn e) =
      let (_, result) =
        (process_change_destination_iff rt pack program_id vesting destination owner new seeds w c
            live.valid live.free live.holds next more w').0
          e in
      ap (λ x. x.accounts k) result
      ∙ accounts-set_data_ne w vesting.key k (encode (redirect new.key c)) elsewhere
  Call-elsewhere limit w w' c live foreign
        (creates spl token owner source more seeds mint dest ss km kd vs e) =
      absurd (
        process_create_once rt next program_id spl vesting token owner source more seeds mint dest
          km kd ss vs try w w' c live.valid live.free live.holds e)
