-- ===== src/Fuzz/Signatures.antt =====
-- Who signs the transaction of `run_fuzz_instructions` (rs/hfuzz/src/vesting_fuzz.rs).
use rebuild_token_vesting.Base.{
  ◌≡◌, refl, inl, inr, ◌⊎◌, none, some, List, [], ◌∷◌, ◌++◌, All, All-append, Result, ok, >>=-eq-ok,
  unwrap, Option,
}
use rebuild_token_vesting.Error.{ProgramError}
use rebuild_token_vesting.State.Header.{Pubkey}
use rebuild_token_vesting.Runtime.Calls
use rebuild_token_vesting.Runtime.Calls.{AccountMeta}
use rebuild_token_vesting.Fuzz.Outside.{Outside, KeypairBytes}
use rebuild_token_vesting.Fuzz.Keys.{AccountId, get, or_insert_with-keeps}
use rebuild_token_vesting.Fuzz.Harness.{FuzzInstruction, TokenVestingEnv, run_fuzz_ix}
use rebuild_token_vesting.Fuzz.Signers.{run_fuzz_ix-signers}
use rebuild_token_vesting.Fuzz.Run.{KeyMaps, add_keys, run_with_keys, collect}

unwrapped_some :
    {A : Type 0} {k : A} (r : Option A)
    → ◌≡◌ {A = Result ProgramError A} (unwrap r) (ok k)
    → r ≡ some k
unwrapped_some none h = cc
unwrapped_some (some a) h = cc

second :
    {A B : Type 0} {a x : A} {b y : B}
    → ◌≡◌ {A = Result ProgramError (A × B)} (ok (a, b)) (ok (x, y))
    → b ≡ y
second q = cc

module _ (o : Outside) where
  -- The maps behind the `entry` calls of all rounds.
  unfoldable pub all_keys : List FuzzInstruction → KeyMaps o → KeyMaps o
  all_keys [] maps = maps
  all_keys (ix ∷ rest) maps = all_keys rest (add_keys o ix maps)

  -- Keys that stay.
  pub record Grows (maps maps' : KeyMaps o) : Type 0 where
    pub owners :
        (id : AccountId) (k : o.Keypair)
        → get id maps.source_token_account_owner_keys ≡ some k
        → get id maps'.source_token_account_owner_keys ≡ some k
    pub mints :
        (id : AccountId) (k : o.Keypair)
        → get id maps.mint_keys ≡ some k
        → get id maps'.mint_keys ≡ some k
    pub payers :
        (id : AccountId) (k : o.Keypair)
        → get id maps.payer_keys ≡ some k
        → get id maps'.payer_keys ≡ some k

  add_keys-Grows : (ix : FuzzInstruction) (maps : KeyMaps o) → Grows maps (add_keys o ix maps)
  unfolding add_keys
  add_keys-Grows ix maps = record {
    owners = λ id k e.
        or_insert_with-keeps o.new_keypair ix.source_token_account_owner_key id
          maps.source_token_account_owner_keys _ k e;
    mints = λ id k e. or_insert_with-keeps o.new_keypair ix.mint_key id maps.mint_keys _ k e;
    payers = λ id k e. or_insert_with-keeps o.new_keypair ix.payer_key id maps.payer_keys _ k e;
  }

  pub all_keys-Grows :
      (ixs : List FuzzInstruction) (maps : KeyMaps o) → Grows maps (all_keys ixs maps)
  unfolding all_keys
  all_keys-Grows [] maps = record {
    owners = λ id k e. e;
    mints = λ id k e. e;
    payers = λ id k e. e;
  }
  all_keys-Grows (ix ∷ rest) maps =
      let first = add_keys-Grows ix maps in
      let later = all_keys-Grows rest (add_keys o ix maps) in
      record {
        owners = λ id k e. later.owners id k (first.owners id k e);
        mints = λ id k e. later.mints id k (first.mints id k e);
        payers = λ id k e. later.payers id k (first.payers id k e);
      }

  module _ (env : TokenVestingEnv o) where
    -- The keypairs that `run_fuzz_ix` returns are the mint's, the mint authority's and the owner's.
    abbrev pub IsSigner : KeyMaps o → o.Keypair → Type 0
    IsSigner maps k =
        (k ≡ env.mint_authority_keypair)
        ⊎ (((id : AccountId) × (get id maps.source_token_account_owner_keys ≡ some k))
            ⊎ ((id : AccountId) × (get id maps.mint_keys ≡ some k)))

    Grows-IsSigner :
        (maps maps' : KeyMaps o) (k : o.Keypair)
        → Grows maps maps'
        → IsSigner maps k
        → IsSigner maps' k
    Grows-IsSigner maps maps' k g (inl authority) = inl authority
    Grows-IsSigner maps maps' k g (inr (inl (id, e))) = inr (inl (id, g.owners id k e))
    Grows-IsSigner maps maps' k g (inr (inr (id, e))) = inr (inr (id, g.mints id k e))

    Grows-All :
        (maps maps' : KeyMaps o) (ks : List o.Keypair)
        → Grows maps maps'
        → All (IsSigner maps) ks
        → All (IsSigner maps') ks
    Grows-All maps maps' [] g h = tt
    Grows-All maps maps' (k ∷ ks) g (h, hs) =
        (Grows-IsSigner maps maps' k g h, Grows-All maps maps' ks g hs)

    -- A round that returned, with the keys of the maps that count for signatures.
    pub record Round (payer : o.Keypair) (ix : FuzzInstruction) (maps : KeyMaps o)
        (ixs : List Calls.Instruction) (sks : List o.Keypair) : Type 0 where
      pub mint : o.Keypair
      pub owner : o.Keypair
      pub destination_owner : o.Keypair
      pub wrong_payer : o.Keypair
      pub vesting : Pubkey
      pub vesting_token : Pubkey
      pub destination_token : Pubkey
      pub new_token : Pubkey
      pub mint_got : get ix.mint_key maps.mint_keys ≡ some mint
      pub owner_got :
          get ix.source_token_account_owner_key maps.source_token_account_owner_keys ≡ some owner
      pub payer_got : get ix.payer_key maps.payer_keys ≡ some wrong_payer
      pub ran :
          run_fuzz_ix o env ix payer mint vesting vesting_token owner destination_owner
            destination_token new_token wrong_payer
          ≡ ok (ixs, sks)

    pub run_with_keys-Round :
        (payer : o.Keypair) (ix : FuzzInstruction) (maps : KeyMaps o) (ixs : List Calls.Instruction)
        (sks : List o.Keypair)
        → run_with_keys o env payer ix maps ≡ ok (ixs, sks)
        → Round payer ix maps ixs sks
    unfolding run_with_keys
    run_with_keys-Round payer ix maps ixs sks e =
        let (mint, got1, e1) = >>=-eq-ok (unwrap (get ix.mint_key maps.mint_keys)) _ e in
        let (v, _, e2) =
          >>=-eq-ok (unwrap (get ix.vesting_account_key maps.vesting_account_keys)) _ e1 in
        let (vt, _, e3) =
          >>=-eq-ok (unwrap (get ix.vesting_token_account_key maps.vesting_token_account_keys)) _
            e2 in
        let (owner, got4, e4) =
          >>=-eq-ok
            (unwrap (get ix.source_token_account_owner_key maps.source_token_account_owner_keys)) _
            e3 in
        let (d, _, e5) =
          >>=-eq-ok (unwrap (get ix.destination_token_owner_key maps.destination_token_owner_keys))
            _ e4 in
        let (dt, _, e6) =
          >>=-eq-ok (unwrap (get ix.destination_token_key maps.destination_token_keys)) _ e5 in
        let (nt, _, e7) =
          >>=-eq-ok (unwrap (get ix.new_destination_token_key maps.new_destination_token_keys)) _
            e6 in
        let (p, got8, e8) = >>=-eq-ok (unwrap (get ix.payer_key maps.payer_keys)) _ e7 in
        record {
          mint = mint;
          owner = owner;
          destination_owner = d;
          wrong_payer = p;
          vesting = v;
          vesting_token = vt;
          destination_token = dt;
          new_token = nt;
          mint_got = unwrapped_some _ got1;
          owner_got = unwrapped_some _ got4;
          payer_got = unwrapped_some _ got8;
          ran = e8;
        }

    module _ (keypairs : KeypairBytes o) where
      run_with_keys-signers :
          (payer : o.Keypair) (ix : FuzzInstruction) (maps : KeyMaps o)
          (ixs : List Calls.Instruction) (sks : List o.Keypair)
          → run_with_keys o env payer ix maps ≡ ok (ixs, sks)
          → All (IsSigner maps) sks
      run_with_keys-signers payer ix maps ixs sks e =
          let r = run_with_keys-Round payer ix maps ixs sks e in
          run_fuzz_ix-signers o keypairs env (IsSigner maps) ix payer r.mint r.vesting
            r.vesting_token r.owner r.destination_owner r.destination_token r.new_token
            r.wrong_payer ixs sks (inr (inr (ix.mint_key, r.mint_got))) (inl refl)
            (inr (inl (ix.source_token_account_owner_key, r.owner_got))) r.ran

      -- All that sign have their keys in the last maps.
      pub collect-signers :
          (payer : o.Keypair) (ins : List FuzzInstruction) (maps : KeyMaps o)
          (out ixs : List Calls.Instruction) (ks sks : List o.Keypair)
          → All (IsSigner (all_keys ins maps)) ks
          → collect o env payer ins maps out ks ≡ ok (ixs, sks)
          → All (IsSigner (all_keys ins maps)) sks
      unfolding collect all_keys
      collect-signers payer [] maps out ixs ks sks h e = let same = second e in rw (← same) h
      collect-signers payer (ix ∷ rest) maps out ixs ks sks h e =
          let (made, ran, e1) = >>=-eq-ok (run_with_keys o env payer ix (add_keys o ix maps)) _ e in
          collect-signers payer rest (add_keys o ix maps) (out ++ made.0) ixs (ks ++ made.1) sks
            (All-append (IsSigner (all_keys rest (add_keys o ix maps))) ks made.1 h (
              Grows-All (add_keys o ix maps) (all_keys rest (add_keys o ix maps)) made.1
                (all_keys-Grows rest (add_keys o ix maps))
                (run_with_keys-signers payer ix (add_keys o ix maps) made.0 made.1 ran)))
            e1
