-- ===== src/Fuzz/Correct.antt =====
-- What becomes of the correct inputs of rs/hfuzz/src/vesting_fuzz.rs in the program.
use rebuild_token_vesting.Base.{
  ℕ, ◌≡◌, refl, ap, true, [], ◌∷◌, ◌++◌, length, take, drop, le→leb, lt→ltb, ok, arith, length-drop,
}
use rebuild_token_vesting.Base.Bytes.{Bytes}
use rebuild_token_vesting.State.Header.{Pubkey}
use rebuild_token_vesting.Instruction.{Seeds}
use rebuild_token_vesting.Fuzz.Outside.{Outside}
use rebuild_token_vesting.Fuzz.Harness.{
  FuzzInstruction, TokenVestingEnv, slice_to, assign_at, run_correct, run_fuzz_ix,
}

-- The seeds of a correct input: 31 bytes of the drawn ones and the bump.
abbrev pub seeds_with : Seeds → ℕ → Seeds
seeds_with seeds bump = take 31 seeds ++ (bump ∷ [])

slice_31 : (s : Bytes) → length s ≡ 32 → slice_to s 31 ≡ ok (take 31 s)
unfolding slice_to
slice_31 s h = rw (le→leb 31 (length s) (omega (arith, h)))

assign_31 : (s : Bytes) (b : ℕ) → length s ≡ 32 → assign_at s 31 b ≡ ok (seeds_with s b)
unfolding assign_at
assign_31 s b h = rw (lt→ltb 31 (length s) (omega (arith, h))) (
    ap (λ (t : Bytes). ok (take 31 s ++ (b ∷ t)))
      (nothing (drop 32 s) (omega (arith, length-drop 32 s, h))))
  where
    nothing : (t : Bytes) → length t ≡ 0 → t ≡ []
    nothing [] e = refl
    nothing (x ∷ t) e = absurd (omega (arith, e))

module _ (o : Outside) (env : TokenVestingEnv o) (ix : FuzzInstruction)
    (correct_payer mint : o.Keypair) (wrong_vesting wrong_token : Pubkey)
    (owner destination_owner : o.Keypair) (destination_token new_token : Pubkey)
    (wrong_payer : o.Keypair) (vesting : Pubkey) (bump : ℕ) where
  -- A correct input has its keys derived and its seeds mended.
  pub run_fuzz_ix_correct :
      ix.correct_inputs ≡ true
      → length ix.seeds ≡ 32
      → o.find_program_address (take 31 ix.seeds ∷ []) env.vesting_program_id ≡ ok (vesting, bump)
      → run_fuzz_ix o env ix correct_payer mint wrong_vesting wrong_token owner destination_owner
          destination_token new_token wrong_payer
        ≡ run_correct o env ix correct_payer mint owner destination_owner destination_token vesting
            (o.get_associated_token_address vesting (o.pubkey mint))
            (o.get_associated_token_address (o.pubkey owner) (o.pubkey mint))
            (seeds_with ix.seeds bump)
            ix.instruction
  unfolding run_fuzz_ix
  run_fuzz_ix_correct correct size found =
      rw (correct, slice_31 ix.seeds size, found, assign_31 ix.seeds bump size)
