-- ===== src/Processor/Solvency/Calls.antt =====
-- A vesting contract stays covered through the calls of rs/src/processor.rs.
use rebuild_token_vesting.Base.{ℕ, ◌≡◌, ◌≢◌, ◌∙◌, none, List, ◌∷◌, All, ok}
use rebuild_token_vesting.State.Header.{Pubkey, IsPubkey}
use rebuild_token_vesting.Contract.{Contract, release}
use rebuild_token_vesting.Contract.Life.{redirect}
use rebuild_token_vesting.Instruction
use rebuild_token_vesting.Instruction.{Seeds}
use rebuild_token_vesting.Instruction.Wire.{IsScheduleArg}
use rebuild_token_vesting.Runtime.Action.{World, AccountInfo}
use rebuild_token_vesting.Runtime.Calls.{Runtime, as_u64}
use rebuild_token_vesting.Runtime.Documented.{
  NextAccount, PackUnpack, TryBorrow, TransferKeeps, TokenTransfer,
}
use rebuild_token_vesting.Processor.Create.{process_create}
use rebuild_token_vesting.Processor.Create.Fill.{contract_of}
use rebuild_token_vesting.Processor.Create.Promises.{process_create_once}
use rebuild_token_vesting.Processor.ChangeDestination.Effect.{process_change_destination_iff}
use rebuild_token_vesting.Processor.Sequence.{
  Live, Call, unlocks, changes, creates, CallList, no_call, then_call,
}
use rebuild_token_vesting.Processor.Lifecycle.{unlock-Live, change-Live, created-Live}
use rebuild_token_vesting.Processor.Solvency.{Covers}
use rebuild_token_vesting.Processor.Solvency.Handlers.{
  Unlocks-Covers, redirect-Covers, process_create-Covers,
}

-- The vesting account holds a contract, and the account `k` has its tokens.
abbrev pub Solvent : Runtime → Pubkey → Pubkey → Pubkey → World → Type 0
Solvent rt program_id vesting k w =
    (c : Contract) × Live program_id w vesting c × Covers rt vesting k w c

module _ (rt : Runtime) (next : NextAccount rt) (pack : PackUnpack rt) (try : TryBorrow rt)
    (keeps : TransferKeeps rt) (doc : TokenTransfer rt) (program_id : Pubkey)
    (other_program : program_id ≢ rt.spl_token_id) (vesting : AccountInfo) (k : Pubkey) where
  pub Call-Solvent :
      (limit : ℕ) (w w' : World)
      → Call rt program_id vesting limit w w'
      → Solvent rt program_id vesting.key k w
      → Solvent rt program_id vesting.key k w'
  Call-Solvent limit w w' (unlocks spl clock token destination more seeds t read bound e)
        (c, live, covers) =
      let (done, live') =
        unlock-Live rt next pack try keeps program_id other_program vesting spl clock token
          destination more seeds w w' c e live in
      (
        release (as_u64 done.time) c,
        live',
        Unlocks-Covers rt doc vesting k clock token destination c w w' live.valid live.holds done
            covers,
      )
  Call-Solvent limit w w' (changes destination owner new more seeds kn e) (c, live, covers) =
      let (_, result) =
        (process_change_destination_iff rt pack program_id vesting destination owner new seeds w c
            live.valid live.free live.holds next more w').0
          e in
      (
        redirect new.key c,
        change-Live program_id vesting.key new.key w w' c kn result live,
        redirect-Covers rt doc vesting k new.key c w w' live.valid live.holds result covers,
      )
  Call-Solvent limit w w' (creates spl token owner source more seeds mint dest ss km kd vs e)
        (c, live, covers) =
      absurd (
        process_create_once rt next program_id spl vesting token owner source more seeds mint dest
          km kd ss vs try w w' c live.valid live.free live.holds e)

  CallList-Solvent :
      (limit : ℕ) (w w' : World)
      → CallList rt program_id vesting limit w w'
      → Solvent rt program_id vesting.key k w
      → Solvent rt program_id vesting.key k w'
  CallList-Solvent limit w w' no_call s = s
  CallList-Solvent limit w w' (then_call {w1} {w2} calls call) s =
      Call-Solvent limit w1 w2 call (CallList-Solvent limit w w1 calls s)

module _ (rt : Runtime) (next : NextAccount rt) (pack : PackUnpack rt) (try : TryBorrow rt)
    (keeps : TransferKeeps rt) (doc : TokenTransfer rt) (program_id : Pubkey)
    (other_program : program_id ≢ rt.spl_token_id) (vesting token : AccountInfo) where
  -- If the program is not the token program, transfers do what the token program documents, no data
  -- are borrowed, and the creation's first account is the token program and its source is not the
  -- vesting token account: from a successful creation with keys and schedules in range on, through
  -- any row of successful unlocks and changes of the destination with accounts and seeds of any
  -- caller's choice, the vesting token account belongs to the vesting account, without a delegate
  -- and without another who may close it, and holds at least what the contract still locks.
  pub created_contract-Solvent :
      (spl owner source : AccountInfo) (more : List AccountInfo) (seeds : Seeds)
      (mint dest : Pubkey) (ss : List Instruction.Schedule) (w w1 w2 : World) (limit : ℕ)
      → IsPubkey mint
      → IsPubkey dest
      → All IsScheduleArg ss
      → w.borrowed ≡ none
      → spl.key ≡ rt.spl_token_id
      → source.key ≢ token.key
      → process_create rt program_id
          (spl ∷ vesting ∷ token ∷ owner ∷ source ∷ more)
          seeds
          mint
          dest
          ss
          w
        ≡ (ok tt, w1)
      → CallList rt program_id vesting limit w1 w2
      → Solvent rt program_id vesting.key token.key w2
  created_contract-Solvent spl owner source more seeds mint dest ss w w1 w2 limit km kd vs free
        is_spl two e calls =
      let live =
        created-Live rt next keeps program_id vesting spl token owner source more seeds mint dest ss
          w w1 km kd vs (λ same. other_program (same ∙ is_spl)) free e in
      let covers =
        process_create-Covers rt next keeps doc program_id other_program spl vesting token owner
          source more seeds mint dest ss w w1 km kd vs is_spl two e in
      CallList-Solvent rt next pack try keeps doc program_id other_program vesting token.key limit
        w1 w2 calls (contract_of mint dest ss, live, covers)
