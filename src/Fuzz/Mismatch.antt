-- ===== src/Fuzz/Mismatch.antt =====
-- The `Create` that rs/hfuzz/src/vesting_fuzz.rs makes behind its own `Init`.
use rebuild_token_vesting.Base.{
  ℕ, ◌≤◌, ◌≡◌, sym, ap, ◌∙◌, true, false, List, [], ◌∷◌, ◌++◌, length, length-take, take, All,
  All-take, ok, arith,
}
use rebuild_token_vesting.Base.Bytes.{Bytes}
use rebuild_token_vesting.State.Header.{Pubkey, IsPubkey}
use rebuild_token_vesting.Instruction
use rebuild_token_vesting.Instruction.{Seeds, VestingInstruction, create}
use rebuild_token_vesting.Instruction.Wire.{IsScheduleArg}
use rebuild_token_vesting.Runtime.Action.{World, data_of}
use rebuild_token_vesting.Runtime.Calls
use rebuild_token_vesting.Runtime.Calls.{Runtime}
use rebuild_token_vesting.Runtime.Documented.{NextAccount}
use rebuild_token_vesting.Processor.Init.{state_size}
use rebuild_token_vesting.Processor.Create.Success.{create_with-Creates}
use rebuild_token_vesting.Processor.Create.Promises.{process_create_accounts}
use rebuild_token_vesting.Processor.Dispatch.Clients.{MetaFields, listed, submit, submit-create}
use rebuild_token_vesting.Fuzz.Outside.{Outside, FindsDerived}
use rebuild_token_vesting.Fuzz.Harness.{FuzzInstruction, TokenVestingEnv, run_correct, run_fuzz_ix}
use rebuild_token_vesting.Fuzz.Correct.{seeds_with, run_fuzz_ix_correct}
use rebuild_token_vesting.Fuzz.Promises.{seeds_with-IsPubkey}
use rebuild_token_vesting.Fuzz.CreateEnds.{snoc-last, passed, length-passed, create_arm-ends}

module _ (o : Outside) (rt : Runtime) (next : NextAccount rt) (fields : MetaFields o.metas)
    (derives : FindsDerived o rt) (env : TokenVestingEnv o) (ix : FuzzInstruction)
    (correct_payer mint : o.Keypair) (wrong_vesting wrong_token : Pubkey)
    (owner destination_owner : o.Keypair) (destination_token new_token : Pubkey)
    (wrong_payer : o.Keypair) (vesting : Pubkey) (bump : ℕ) where
  -- For correct inputs of the harness whose instruction is a Create, with keys and schedules in
  -- range and an address found for the seeds: if the last instruction that `run_fuzz_ix` makes
  -- succeeds in the program on a vesting account of the size that the Init for
  -- `number_of_schedules` makes, then there are at least `number_of_schedules` schedules.
  pub correct_create_needs :
      ix.correct_inputs ≡ true
      → IsPubkey ix.seeds
      → All IsScheduleArg ix.schedules
      → IsPubkey (o.pubkey mint)
      → IsPubkey destination_token
      → o.find_program_address (take 31 ix.seeds ∷ []) env.vesting_program_id ≡ ok (vesting, bump)
      → (s m d : Bytes) (ss : List Instruction.Schedule) → ix.instruction ≡ create s m d ss
      → (before : List Calls.Instruction) (create_ix : Calls.Instruction) (sks : List o.Keypair)
        (w w' : World)
      → run_fuzz_ix o env ix correct_payer mint wrong_vesting wrong_token owner destination_owner
          destination_token new_token wrong_payer
        ≡ ok (before ++ (create_ix ∷ []), sks)
      → length (data_of w vesting) ≡ state_size ix.number_of_schedules
      → submit rt (ok create_ix) w ≡ (ok tt, w')
      → ix.number_of_schedules ≤ length ix.schedules
  unfolding state_size
  correct_create_needs correct seeds_valid schedules_valid mint_valid destination_valid found s m d
        ss is_create before create_ix sks w w' made size done =
      let (bump_u8, _) =
        derives (take 31 ix.seeds) env.vesting_program_id vesting bump
          (omega (arith, length-take 31 ix.seeds, seeds_valid.size)) found in
      let vesting_token : Pubkey = o.get_associated_token_address vesting (o.pubkey mint) in
      let source_token : Pubkey = o.get_associated_token_address (o.pubkey owner) (o.pubkey mint) in
      let seeds : Seeds = seeds_with ix.seeds bump in
      let arm_made =
        ap
          (λ (i : VestingInstruction).
            run_correct o env ix correct_payer mint owner destination_owner destination_token
              vesting vesting_token source_token seeds i)
          (sym is_create)
        ∙ sym (
            run_fuzz_ix_correct o env ix correct_payer mint wrong_vesting wrong_token owner
              destination_owner destination_token new_token wrong_payer vesting bump correct
              seeds_valid.size found)
        ∙ made in
      let (before', create_ix', ends, built) =
        create_arm-ends o env ix correct_payer mint owner destination_owner destination_token
          vesting vesting_token source_token seeds s m d ss _ sks arm_made in
      let runs =
        sym (
          submit-create rt o.metas fields w env.vesting_program_id env.token_program_id vesting
            vesting_token (o.pubkey owner) source_token destination_token (o.pubkey mint)
            (passed o env ix) seeds
            (
              seeds_with-IsPubkey ix.seeds bump seeds_valid bump_u8,
              mint_valid,
              destination_valid,
              All-take IsScheduleArg _ ix.schedules schedules_valid,
            ))
        ∙ ap (λ b. submit rt b w)
            (built ∙ ap ok (snoc-last before' before create_ix' create_ix (sym ends)))
        ∙ done in
      let creates =
        create_with-Creates rt env.vesting_program_id (listed env.token_program_id false false)
          (listed vesting false true) (listed vesting_token false true)
          (listed (o.pubkey owner) true false) (listed source_token false true) seeds
          (o.pubkey mint) destination_token mint_valid destination_valid (passed o env ix) w w'
          (sym (
              process_create_accounts rt env.vesting_program_id
                (listed env.token_program_id false false) (listed vesting false true)
                (listed vesting_token false true) (listed (o.pubkey owner) true false)
                (listed source_token false true) [] seeds (o.pubkey mint) destination_token
                (passed o env ix) w next)
            ∙ runs) in
      omega (arith, size, creates.size, length-passed o env ix)
