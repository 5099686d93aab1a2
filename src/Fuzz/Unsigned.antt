-- ===== src/Fuzz/Unsigned.antt =====
-- The rows of rs/hfuzz/src/vesting_fuzz.rs whose instruction is a wrong Init never reach the
-- program.
use rebuild_token_vesting.Base.{
  ℕ, ◌≤◌, ◌<◌, arith, ◌≡◌, ◌≢◌, sym, ap, ◌∙◌, inl, inr, some, List, [], ◌∷◌, All, Any, ok, err,
}
use rebuild_token_vesting.State.Header.{Pubkey}
use rebuild_token_vesting.Runtime.Calls
use rebuild_token_vesting.Runtime.Calls.{AccountMeta}
use rebuild_token_vesting.Processor.Dispatch.Clients.{MetaFields}
use rebuild_token_vesting.Fuzz.Outside.{Outside, KeypairBytes, transaction_error, signature_failure}
use rebuild_token_vesting.Fuzz.Keys.{AccountId, get}
use rebuild_token_vesting.Fuzz.Harness.{FuzzInstruction, TokenVestingEnv}
use rebuild_token_vesting.Fuzz.Run.{
  KeyMaps, no_keys, add_keys, collect, check_result, tolerates, run_fuzz_instructions,
}
use rebuild_token_vesting.Fuzz.KeyInvariant.{Distinct, no_keys-Distinct, add_keys-Distinct}
use rebuild_token_vesting.Fuzz.Signatures.{all_keys, IsSigner, collect-signers}
use rebuild_token_vesting.Fuzz.Required.{Requires, IsWrongInit, collect-Requires, all_keys-counts}

-- The first `limit` keypairs that are drawn are new.
pub record FreshKeys (o : Outside) (env : TokenVestingEnv o) (correct_payer : o.Keypair) (limit : ℕ)
    : Type 0 where
  pub drawn :
      (i j : ℕ)
      → i < limit
      → j < limit
      → i ≢ j
      → o.pubkey (o.new_keypair i) ≢ o.pubkey (o.new_keypair j)
  pub authority :
      (i : ℕ) → i < limit → o.pubkey env.mint_authority_keypair ≢ o.pubkey (o.new_keypair i)
  pub payer : (i : ℕ) → i < limit → o.pubkey correct_payer ≢ o.pubkey (o.new_keypair i)

-- "Transaction did not pass signature verification": the bank's answer when a key that has to sign has
-- not signed.
abbrev pub ChecksSignatures : Outside → Type 0
ChecksSignatures o =
    (ixs : List Calls.Instruction) (payer : Pubkey) (signers : List o.Keypair) (hash : o.Hash)
    (tx : o.Transaction) (k : Pubkey)
    → o.partial_sign (o.new_with_payer ixs (some payer)) signers hash ≡ ok tx
    → Requires ixs k
    → All (λ (s : o.Keypair). o.pubkey s ≢ k) signers
    → o.process_transaction tx ≡ err (transaction_error signature_failure)

module _ (o : Outside) (fields : MetaFields o.metas) (keypairs : KeypairBytes o)
    (env : TokenVestingEnv o) (correct_payer : o.Keypair) (limit : ℕ)
    (fresh : FreshKeys o env correct_payer limit) where
  all_keys-Distinct :
      (ins : List FuzzInstruction) (maps : KeyMaps o)
      → (all_keys o ins maps).drawn ≤ limit
      → Distinct o limit fresh.drawn maps
      → Distinct o limit fresh.drawn (all_keys o ins maps)
  unfolding all_keys
  all_keys-Distinct [] maps few d = d
  all_keys-Distinct (ix ∷ rest) maps few d = all_keys-Distinct rest (add_keys o ix maps) few (
      add_keys-Distinct o limit fresh.drawn ix maps
        (omega (arith, few, all_keys-counts o rest (add_keys o ix maps))) d)

  signer-other :
      (maps : KeyMaps o) (id : AccountId) (k s : o.Keypair)
      → maps.drawn ≤ limit
      → Distinct o limit fresh.drawn maps
      → get id maps.payer_keys ≡ some k
      → IsSigner o env maps s
      → o.pubkey s ≢ o.pubkey k
  signer-other maps id k s few d got (inl authority) e =
      let (i, early, drawn) = d.payers_below id k got in
      fresh.authority i (omega arith) (sym (ap o.pubkey authority) ∙ e ∙ ap o.pubkey drawn)
  signer-other maps id k s few d got (inr (inl (j, owner))) e =
      d.payers_owners id j k s got owner (sym e)
  signer-other maps id k s few d got (inr (inr (j, mint))) e =
      d.payers_mints id j k s got mint (sym e)

  signers-other :
      (maps : KeyMaps o) (id : AccountId) (k : o.Keypair) (ss : List o.Keypair)
      → maps.drawn ≤ limit
      → Distinct o limit fresh.drawn maps
      → get id maps.payer_keys ≡ some k
      → All (IsSigner o env maps) ss
      → All (λ (s : o.Keypair). o.pubkey s ≢ o.pubkey k) ss
  signers-other maps id k [] few d got h = tt
  signers-other maps id k (s ∷ ss) few d got (h, hs) =
      (signer-other maps id k s few d got h, signers-other maps id k ss few d got hs)

  pub wrong_init_unsigned :
      (ins : List FuzzInstruction) (ixs : List Calls.Instruction) (sks : List o.Keypair)
      → (all_keys o ins (no_keys o)).drawn ≤ limit
      → Any IsWrongInit ins
      → collect o env correct_payer ins (no_keys o) [] [] ≡ ok (ixs, sks)
      → (k : Pubkey) × Requires ixs k
        × All (λ (s : o.Keypair). o.pubkey s ≢ k) (correct_payer ∷ sks)
  wrong_init_unsigned ins ixs sks few wrong e =
      let maps : KeyMaps o = all_keys o ins (no_keys o) in
      let d : Distinct o limit fresh.drawn maps =
        all_keys-Distinct ins (no_keys o) few (no_keys-Distinct o limit fresh.drawn) in
      let (id, k, got, required) =
        collect-Requires o fields env correct_payer ins (no_keys o) [] ixs [] sks wrong e in
      let (i, early, drawn) = d.payers_below id k got in
      (
        o.pubkey k,
        required,
        (
          (λ same. fresh.payer i (omega arith) (same ∙ ap o.pubkey drawn)),
          signers-other maps id k sks few d got
              (collect-signers o env keypairs correct_payer ins (no_keys o) [] ixs [] sks tt e),
        ),
      )

  -- If the keypairs that the run draws are new, can be copied, and the bank checks signatures: when
  -- a row of inputs with an Init of wrong inputs has been collected and signed, the bank refuses
  -- its transaction with `SignatureFailure`, and the run ends without a panic.
  pub wrong_init_skips :
      (checks : ChecksSignatures o) (ins : List FuzzInstruction) (ixs : List Calls.Instruction)
      (sks : List o.Keypair) (hash : o.Hash) (tx : o.Transaction)
      → (all_keys o ins (no_keys o)).drawn ≤ limit
      → Any IsWrongInit ins
      → collect o env correct_payer ins (no_keys o) [] [] ≡ ok (ixs, sks)
      → o.partial_sign
          (o.new_with_payer ixs (some (o.pubkey correct_payer)))
          (correct_payer ∷ sks)
          hash
        ≡ ok tx
      → (o.process_transaction tx ≡ err (transaction_error signature_failure))
        × (run_fuzz_instructions o env correct_payer hash ins ≡ ok tt)
  unfolding run_fuzz_instructions check_result tolerates
  wrong_init_skips checks ins ixs sks hash tx few wrong e signed =
      let (k, required, others) = wrong_init_unsigned ins ixs sks few wrong e in
      let refused =
        checks ixs (o.pubkey correct_payer) (correct_payer ∷ sks) hash tx k signed required
          others in
      (refused, rw (e, signed, refused))
