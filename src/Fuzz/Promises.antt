-- ===== src/Fuzz/Promises.antt =====
-- The program on the instructions that rs/hfuzz/src/vesting_fuzz.rs makes of its correct inputs.
use rebuild_token_vesting.Base.{
  ℕ, ◌<◌, ◌≡◌, ◌↔◌, refl, sym, ap, ◌∙◌, true, false, List, [], ◌∷◌, take, All-take, All-append,
  Result, ok, arith, length-take, length-append,
}
use rebuild_token_vesting.Base.Bytes.{IsByte}
use rebuild_token_vesting.Error.{ProgramError}
use rebuild_token_vesting.State.Header.{Pubkey, IsPubkey}
use rebuild_token_vesting.Instruction.{Seeds, VestingInstruction, init}
use rebuild_token_vesting.Instruction.Builders
use rebuild_token_vesting.Runtime.Action.{World, AccountInfo}
use rebuild_token_vesting.Runtime.Calls
use rebuild_token_vesting.Runtime.Calls.{Runtime, Rent}
use rebuild_token_vesting.Runtime.Documented.{NextAccount}
use rebuild_token_vesting.Processor.Init.{state_size, process_init}
use rebuild_token_vesting.Processor.Init.Creation.{process_init_iff}
use rebuild_token_vesting.Processor.Dispatch.Clients.{MetaFields, listed, submit, submit-init}
use rebuild_token_vesting.Fuzz.Outside.{Outside, FindsDerived}
use rebuild_token_vesting.Fuzz.Harness.{FuzzInstruction, TokenVestingEnv, run_correct, run_fuzz_ix}
use rebuild_token_vesting.Fuzz.Correct.{seeds_with, run_fuzz_ix_correct}

pub seeds_with-IsPubkey : (s : Seeds) (b : ℕ) → IsPubkey s → b < 256 → IsPubkey (seeds_with s b)
seeds_with-IsPubkey s b v h = record {
  size = omega (arith, length-append (take 31 s) (b ∷ []), length-take 31 s, v.size);
  bytes = All-append IsByte (take 31 s) (b ∷ []) (All-take IsByte 31 s v.bytes) (h, tt);
}

module _ (o : Outside) (rt : Runtime) (next : NextAccount rt) (fields : MetaFields o.metas)
    (derives : FindsDerived o rt) (env : TokenVestingEnv o) (ix : FuzzInstruction)
    (correct_payer mint : o.Keypair) (wrong_vesting wrong_token : Pubkey)
    (owner destination_owner : o.Keypair) (destination_token new_token : Pubkey)
    (wrong_payer : o.Keypair) (vesting : Pubkey) (bump : ℕ) (correct : ix.correct_inputs ≡ true)
    (seeds_valid : IsPubkey ix.seeds) (count_u8 : ix.number_of_schedules < 256)
    (found : o.find_program_address (take 31 ix.seeds ∷ []) env.vesting_program_id
      ≡ ok (vesting, bump)) where
  builder_init :
      (init_ix : Calls.Instruction) × (Builders.init o.metas env.system_program_id
          env.rent_program_id env.vesting_program_id
          (o.pubkey correct_payer)
          vesting
          (seeds_with ix.seeds bump)
          ix.number_of_schedules
        ≡ ok init_ix)
  unfolding Builders.init
  builder_init = (_, refl)

  -- The arm of the instruction, with the derived keys.
  abbrev arm : VestingInstruction → Result ProgramError (List Calls.Instruction × List o.Keypair)
  arm i =
      run_correct o env ix correct_payer mint owner destination_owner destination_token vesting
        (o.get_associated_token_address vesting (o.pubkey mint))
        (o.get_associated_token_address (o.pubkey owner) (o.pubkey mint)) (seeds_with ix.seeds bump)
        i

  init_alone :
      (s : Seeds) (n : ℕ) (init_ix : Calls.Instruction)
      → Builders.init o.metas env.system_program_id env.rent_program_id env.vesting_program_id
          (o.pubkey correct_payer)
          vesting
          (seeds_with ix.seeds bump)
          ix.number_of_schedules
        ≡ ok init_ix
      → arm (init s n) ≡ ok (init_ix ∷ [], [])
  unfolding run_correct
  init_alone s n init_ix made = rw made refl

  -- The accounts of the `Init` that the harness makes.
  abbrev init_accounts : List AccountInfo
  init_accounts =
      listed env.system_program_id false false
      ∷ listed env.rent_program_id false false
      ∷ listed (o.pubkey correct_payer) true true
      ∷ listed vesting false true
      ∷ []

  -- For correct inputs of the harness whose instruction is an Init, with seeds of 32 bytes that an
  -- address is found for, fewer than 256 schedules and a rent that can be read: the one instruction
  -- that `run_fuzz_ix` makes succeeds in the program exactly when the system program makes the
  -- account for this address and number of schedules.
  pub correct_init_iff :
      (s : Seeds) (n : ℕ) (w w' : World) (rent : Rent)
      → ix.instruction ≡ init s n
      → rt.rent_from_account_info (listed env.rent_program_id false false) w ≡ ok rent
      → (init_ix : Calls.Instruction) × (run_fuzz_ix o env ix correct_payer mint wrong_vesting
            wrong_token owner destination_owner destination_token new_token wrong_payer
          ≡ ok (init_ix ∷ [], []))
        × ((submit rt (ok init_ix) w ≡ (ok tt, w')) ↔ (
            rt.invoke_signed
              (rt.create_account
                (o.pubkey correct_payer)
                vesting
                (rent (state_size ix.number_of_schedules))
                (state_size ix.number_of_schedules)
                env.vesting_program_id)
              (listed env.system_program_id false false
                ∷ listed (o.pubkey correct_payer) true true
                ∷ listed vesting false true
                ∷ [])
              ((seeds_with ix.seeds bump ∷ []) ∷ [])
              w
            ≡ (ok tt, w')))
  correct_init_iff s n w w' rent is_init read =
      let (init_ix, made) = builder_init in
      let (bump_u8, derived) =
        derives (take 31 ix.seeds) env.vesting_program_id vesting bump
          (omega (arith, length-take 31 ix.seeds, seeds_valid.size)) found in
      let runs : submit rt (ok init_ix) w
          ≡ process_init rt env.vesting_program_id init_accounts (seeds_with ix.seeds bump)
              ix.number_of_schedules w =
        ap (λ b. submit rt b w) (sym made)
        ∙ submit-init rt o.metas fields w env.system_program_id env.rent_program_id
            env.vesting_program_id (o.pubkey correct_payer) vesting (seeds_with ix.seeds bump)
            ix.number_of_schedules (seeds_with-IsPubkey ix.seeds bump seeds_valid bump_u8)
            (omega arith) in
      let (to_call, from_call) =
        process_init_iff rt next env.vesting_program_id (listed env.system_program_id false false)
          (listed env.rent_program_id false false) (listed (o.pubkey correct_payer) true true)
          (listed vesting false true) [] (seeds_with ix.seeds bump) ix.number_of_schedules w rent
          read w' in
      (
        init_ix,
        run_fuzz_ix_correct o env ix correct_payer mint wrong_vesting wrong_token owner
              destination_owner destination_token new_token wrong_payer vesting bump correct
              seeds_valid.size found
            ∙ ap arm is_init
            ∙ init_alone s n init_ix made,
        (λ e. (to_call (sym runs ∙ e)).1, λ c. runs ∙ from_call (derived, c)),
      )
