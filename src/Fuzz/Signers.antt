-- ===== src/Fuzz/Signers.antt =====
-- The keypairs that `run_fuzz_ix` (rs/hfuzz/src/vesting_fuzz.rs) returns.
use rebuild_token_vesting.Base.{
  ◌≡◌, sym, ap, ◌∙◌, Bool-cases, inl, inr, List, [], ◌∷◌, All, Result, ok, >>=-eq-ok, unwrap_result,
}
use rebuild_token_vesting.Error.{ProgramError}
use rebuild_token_vesting.State.Header.{Pubkey}
use rebuild_token_vesting.Instruction.{
  Seeds, VestingInstruction, init, create, unlock, change_destination, empty,
}
use rebuild_token_vesting.Instruction.Builders
use rebuild_token_vesting.Runtime.Calls
use rebuild_token_vesting.Fuzz.Outside.{Outside, KeypairBytes}
use rebuild_token_vesting.Fuzz.Harness.{
  FuzzInstruction, TokenVestingEnv, slice_to, assign_at, clone_keypair, create_fuzzinstruction,
  run_correct, run_wrong, run_fuzz_ix,
}

module _ (o : Outside) (keypairs : KeypairBytes o) (env : TokenVestingEnv o)
    (P : o.Keypair → Type 0) where
  abbrev Made : Type 0
  Made = Result ProgramError (List Calls.Instruction × List o.Keypair)

  second :
      {a ixs : List Calls.Instruction} {b sks : List o.Keypair}
      → ◌≡◌ {A = Made} (ok (a, b)) (ok (ixs, sks))
      → b ≡ sks
  second q = cc

  none_sign :
      {a ixs : List Calls.Instruction} {sks : List o.Keypair}
      → ◌≡◌ {A = Made} (ok (a, [])) (ok (ixs, sks))
      → All P sks
  none_sign q = let e = second q in rw (← e) tt

  cloned : (k k' : o.Keypair) → P k → clone_keypair o k ≡ ok k' → P k'
  unfolding clone_keypair
  cloned k k' p e =
      let same : k ≡ k' = ok_same (sym (ap unwrap_result (keypairs k)) ∙ e) in rw (← same) p
    where
      ok_same : {x y : o.Keypair} → ◌≡◌ {A = Result ProgramError o.Keypair} (ok x) (ok y) → x ≡ y
      ok_same q = cc

  run_correct-signers :
      (ix : FuzzInstruction) (payer mint owner destination_owner : o.Keypair)
      (destination_token vesting vesting_token source_token : Pubkey) (seeds : Seeds)
      (i : VestingInstruction) (ixs : List Calls.Instruction) (sks : List o.Keypair)
      → P mint
      → P env.mint_authority_keypair
      → P owner
      → run_correct o env ix payer mint owner destination_owner destination_token vesting
          vesting_token source_token seeds i
        ≡ ok (ixs, sks)
      → All P sks
  unfolding run_correct Builders.init
  run_correct-signers ix payer mint owner destination_owner destination_token vesting vesting_token
        source_token seeds (init s n) ixs sks pm pa po e =
      none_sign e
  run_correct-signers ix payer mint owner destination_owner destination_token vesting vesting_token
        source_token seeds (create s m d ss) ixs sks pm pa po e =
      let (made, _, e1) =
        >>=-eq-ok
          (create_fuzzinstruction o env ix payer source_token owner destination_token
            (o.pubkey destination_owner) vesting vesting_token seeds mint ix.source_token_amount)
          _ e in
      let (k1, c1, e2) = >>=-eq-ok (clone_keypair o mint) _ e1 in
      let (k2, c2, e3) = >>=-eq-ok (clone_keypair o env.mint_authority_keypair) _ e2 in
      let (k3, c3, e4) = >>=-eq-ok (clone_keypair o owner) _ e3 in
      let same = second e4 in
      rw (← same) (
        cloned mint k1 pm c1,
        (cloned env.mint_authority_keypair k2 pa c2, (cloned owner k3 po c3, tt)),
      )
  run_correct-signers ix payer mint owner destination_owner destination_token vesting vesting_token
        source_token seeds (unlock s) ixs sks pm pa po e =
      none_sign e
  run_correct-signers ix payer mint owner destination_owner destination_token vesting vesting_token
        source_token seeds (change_destination s) ixs sks pm pa po e =
      none_sign e
  run_correct-signers ix payer mint owner destination_owner destination_token vesting vesting_token
        source_token seeds (empty n) ixs sks pm pa po e =
      none_sign e

  run_wrong-signers :
      (ix : FuzzInstruction) (vesting : Pubkey) (payer : o.Keypair) (i : VestingInstruction)
      (ixs : List Calls.Instruction) (sks : List o.Keypair)
      → run_wrong o env ix vesting payer i ≡ ok (ixs, sks)
      → All P sks
  unfolding run_wrong Builders.init
  run_wrong-signers ix vesting payer (init s n) ixs sks e = none_sign e
  run_wrong-signers ix vesting payer (create s m d ss) ixs sks e = none_sign e
  run_wrong-signers ix vesting payer (unlock s) ixs sks e = none_sign e
  run_wrong-signers ix vesting payer (change_destination s) ixs sks e = none_sign e
  run_wrong-signers ix vesting payer (empty n) ixs sks e = none_sign e

  -- What holds of the mint's, the authority's and the owner's keypair holds of all that sign.
  pub run_fuzz_ix-signers :
      (ix : FuzzInstruction) (payer mint : o.Keypair) (wrong_vesting wrong_token : Pubkey)
      (owner destination_owner : o.Keypair) (destination_token new_token : Pubkey)
      (wrong_payer : o.Keypair) (ixs : List Calls.Instruction) (sks : List o.Keypair)
      → P mint
      → P env.mint_authority_keypair
      → P owner
      → run_fuzz_ix o env ix payer mint wrong_vesting wrong_token owner destination_owner
          destination_token new_token wrong_payer
        ≡ ok (ixs, sks)
      → All P sks
  unfolding run_fuzz_ix
  run_fuzz_ix-signers ix payer mint wrong_vesting wrong_token owner destination_owner
        destination_token new_token wrong_payer ixs sks pm pa po e =
      elim (Bool-cases ix.correct_inputs) [
        | inl correct ↦
            let (prefix, _, e1) = >>=-eq-ok (slice_to ix.seeds 31) _ (rw correct at e) in
            let (found, _, e2) =
              >>=-eq-ok (o.find_program_address (prefix ∷ []) env.vesting_program_id) _ e1 in
            let (seeds, _, e3) = >>=-eq-ok (assign_at ix.seeds 31 found.1) _ e2 in
            run_correct-signers ix payer mint owner destination_owner destination_token _ _ _ seeds
              ix.instruction ixs sks pm pa po e3
        | inr wrong ↦
            run_wrong-signers ix wrong_vesting wrong_payer ix.instruction ixs sks (rw wrong at e)
      ]
