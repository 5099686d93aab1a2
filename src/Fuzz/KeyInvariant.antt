-- ===== src/Fuzz/KeyInvariant.antt =====
-- The keypairs that `run_fuzz_instructions` (rs/hfuzz/src/vesting_fuzz.rs) draws: no payer of a wrong
-- input is one of the keypairs that sign.
use rebuild_token_vesting.Base.{
  ℕ, suc, ◌≤◌, ◌<◌, ◌≡◌, ◌≢◌, sym, ap, ◌∙◌, inl, inr, ◌⊎◌, Option, none, some, Option-cases, arith,
}
use rebuild_token_vesting.Fuzz.Outside.{Outside}
use rebuild_token_vesting.Fuzz.Keys.{
  AccountId, KeyMap, get, or_insert_with, or_insert_with-missing, or_insert_with-present, get-cons,
}
use rebuild_token_vesting.Fuzz.Harness.{FuzzInstruction}
use rebuild_token_vesting.Fuzz.Run.{KeyMaps, no_keys, add_keys}

module _ {ℓ} {A : Type ℓ} where
  -- Where a key of the map comes from behind `or_insert_with`.
  pub or_insert_with-source :
      (make : ℕ → A) (id j : AccountId) (m : KeyMap A) (n : ℕ) (a : A)
      → get j (or_insert_with make id m n).0 ≡ some a
      → (get j m ≡ some a) ⊎ ((a ≡ make n) × ((or_insert_with make id m n).1 ≡ suc n))
  or_insert_with-source make id j m n a has = elim (Option-cases (get id m)) [
    | inl missing ↦
        let new = or_insert_with-missing make id m n missing in
        elim (get-cons id j (make n) a m (sym (ap (λ p. get j p.0) new) ∙ has)) [
          | inl same ↦ inr (same, ap (λ p. p.1) new)
          | inr behind ↦ inl behind
        ]
    | inr (b, present) ↦
        inl (sym (ap (λ p. get j p.0) (or_insert_with-present make id m n b present)) ∙ has)
  ]

  pub or_insert_with-counts :
      (make : ℕ → A) (id : AccountId) (m : KeyMap A) (n : ℕ) → n ≤ (or_insert_with make id m n).1
  or_insert_with-counts make id m n = elim (Option-cases (get id m)) [
    | inl missing ↦ omega (arith, ap (λ p. p.1) (or_insert_with-missing make id m n missing))
    | inr (b, present) ↦ omega (arith, ap (λ p. p.1) (or_insert_with-present make id m n b present))
  ]

module _ (o : Outside) where
  -- Every keypair of the map was drawn before the draw number `n`.
  abbrev pub Below : KeyMap o.Keypair → ℕ → Type 0
  Below m n =
      (id : AccountId) (k : o.Keypair)
      → get id m ≡ some k
      → (i : ℕ) × (i < n) × (k ≡ o.new_keypair i)

  -- The maps share no public key.
  abbrev pub Apart : KeyMap o.Keypair → KeyMap o.Keypair → Type 0
  Apart p q =
      (id j : AccountId) (a b : o.Keypair)
      → get id p ≡ some a
      → get j q ≡ some b
      → o.pubkey a ≢ o.pubkey b

  Below-mono : (m : KeyMap o.Keypair) (n n' : ℕ) → n ≤ n' → Below m n → Below m n'
  Below-mono m n n' le h id k e = let (i, lt, same) = h id k e in (i, omega arith, same)

  Below-insert :
      (id : AccountId) (m : KeyMap o.Keypair) (n : ℕ)
      → Below m n
      → Below (or_insert_with o.new_keypair id m n).0 (or_insert_with o.new_keypair id m n).1
  Below-insert id m n h j k e = elim (or_insert_with-source o.new_keypair id j m n k e) [
    | inl old ↦ Below-mono m n _ (or_insert_with-counts o.new_keypair id m n) h j k old
    | inr (new, count) ↦ (n, omega arith, new)
  ]

  module _ (limit : ℕ)
      (fresh : (i j : ℕ)
        → i < limit
        → j < limit
        → i ≢ j
        → o.pubkey (o.new_keypair i) ≢ o.pubkey (o.new_keypair j)) where
    other_draw :
        (n : ℕ) (k : o.Keypair)
        → n < limit
        → (i : ℕ) × (i < n) × (k ≡ o.new_keypair i)
        → o.pubkey (o.new_keypair n) ≢ o.pubkey k
    other_draw n k few (i, lt, same) e =
        fresh n i few (omega arith) (λ q. omega arith) (e ∙ ap o.pubkey same)

    Apart-insert-left :
        (id : AccountId) (p q : KeyMap o.Keypair) (n : ℕ)
        → (or_insert_with o.new_keypair id p n).1 ≤ limit
        → Apart p q
        → Below q n
        → Apart (or_insert_with o.new_keypair id p n).0 q
    Apart-insert-left id p q n few apart below j j' a b ea eb =
        elim (or_insert_with-source o.new_keypair id j p n a ea) [
          | inl old ↦ apart j j' a b old eb
          | inr (new, count) ↦
              λ e. other_draw n b (omega arith) (below j' b eb) (sym (ap o.pubkey new) ∙ e)
        ]

    Apart-insert-right :
        (id : AccountId) (p q : KeyMap o.Keypair) (n : ℕ)
        → (or_insert_with o.new_keypair id q n).1 ≤ limit
        → Apart p q
        → Below p n
        → Apart p (or_insert_with o.new_keypair id q n).0
    Apart-insert-right id p q n few apart below j j' a b ea eb =
        elim (or_insert_with-source o.new_keypair id j' q n b eb) [
          | inl old ↦ apart j j' a b ea old
          | inr (new, count) ↦
              λ e. other_draw n a (omega arith) (below j a ea) (sym (ap o.pubkey new) ∙ sym e)
        ]

    -- The keypairs of the payers are apart from those that sign.
    pub record Distinct (maps : KeyMaps o) : Type 0 where
      pub owners_below : Below maps.source_token_account_owner_keys maps.drawn
      pub mints_below : Below maps.mint_keys maps.drawn
      pub payers_below : Below maps.payer_keys maps.drawn
      pub payers_owners : Apart maps.payer_keys maps.source_token_account_owner_keys
      pub payers_mints : Apart maps.payer_keys maps.mint_keys

    pub no_keys-Distinct : Distinct (no_keys o)
    unfolding get
    no_keys-Distinct = record {
      owners_below = λ id k e. absurd (nothing k e);
      mints_below = λ id k e. absurd (nothing k e);
      payers_below = λ id k e. absurd (nothing k e);
      payers_owners = λ id j a b ea eb. absurd (nothing a ea);
      payers_mints = λ id j a b ea eb. absurd (nothing a ea);
    }
      where
        nothing : (k : o.Keypair) → ◌≡◌ {A = Option o.Keypair} none (some k) → ⊥
        nothing k e = cc

    pub add_keys-Distinct :
        (ix : FuzzInstruction) (maps : KeyMaps o)
        → (add_keys o ix maps).drawn ≤ limit
        → Distinct maps
        → Distinct (add_keys o ix maps)
    unfolding add_keys
    add_keys-Distinct ix maps few d =
        let (m1, n1) =
          or_insert_with o.new_unique ix.vesting_account_key maps.vesting_account_keys maps.drawn in
        let (m2, n2) =
          or_insert_with o.new_unique ix.vesting_token_account_key maps.vesting_token_account_keys
            n1 in
        let (m3, n3) =
          or_insert_with o.new_keypair ix.source_token_account_owner_key
            maps.source_token_account_owner_keys n2 in
        let (m4, n4) =
          or_insert_with o.new_keypair ix.destination_token_owner_key
            maps.destination_token_owner_keys n3 in
        let (m5, n5) =
          or_insert_with o.new_unique ix.destination_token_key maps.destination_token_keys n4 in
        let (m6, n6) =
          or_insert_with o.new_unique ix.new_destination_token_key maps.new_destination_token_keys
            n5 in
        let (m7, n7) = or_insert_with o.new_keypair ix.mint_key maps.mint_keys n6 in
        let (m8, n8) = or_insert_with o.new_keypair ix.payer_key maps.payer_keys n7 in
        let to_2 : maps.drawn ≤ n2 = omega (
          arith,
          or_insert_with-counts o.new_unique ix.vesting_account_key maps.vesting_account_keys
              maps.drawn,
          or_insert_with-counts o.new_unique ix.vesting_token_account_key
              maps.vesting_token_account_keys n1,
        ) in
        let to_3 : n2 ≤ n3 =
          or_insert_with-counts o.new_keypair ix.source_token_account_owner_key
            maps.source_token_account_owner_keys n2 in
        let to_6 : n3 ≤ n6 = omega (
          arith,
          or_insert_with-counts o.new_keypair ix.destination_token_owner_key
              maps.destination_token_owner_keys n3,
          or_insert_with-counts o.new_unique ix.destination_token_key maps.destination_token_keys
              n4,
          or_insert_with-counts o.new_unique ix.new_destination_token_key
              maps.new_destination_token_keys n5,
        ) in
        let to_7 : n6 ≤ n7 = or_insert_with-counts o.new_keypair ix.mint_key maps.mint_keys n6 in
        let few : n8 ≤ limit = few in
        let to_8 : n7 ≤ n8 = or_insert_with-counts o.new_keypair ix.payer_key maps.payer_keys n7 in
        let owners_below : Below m3 n3 =
          Below-insert ix.source_token_account_owner_key maps.source_token_account_owner_keys n2
            (Below-mono _ maps.drawn n2 to_2 d.owners_below) in
        let mints_below : Below m7 n7 =
          Below-insert ix.mint_key maps.mint_keys n6
            (Below-mono _ maps.drawn n6 (omega arith) d.mints_below) in
        record {
          owners_below = Below-mono m3 n3 n8 (omega arith) owners_below;
          mints_below = Below-mono m7 n7 n8 to_8 mints_below;
          payers_below =
              Below-insert ix.payer_key maps.payer_keys n7
                (Below-mono _ maps.drawn n7 (omega arith) d.payers_below);
          payers_owners =
              Apart-insert-left ix.payer_key maps.payer_keys m3 n7 few
                (Apart-insert-right ix.source_token_account_owner_key maps.payer_keys
                  maps.source_token_account_owner_keys n2 (omega arith) d.payers_owners
                  (Below-mono _ maps.drawn n2 to_2 d.payers_below))
                (Below-mono m3 n3 n7 (omega arith) owners_below);
          payers_mints =
              Apart-insert-left ix.payer_key maps.payer_keys m7 n7 few
                (Apart-insert-right ix.mint_key maps.payer_keys maps.mint_keys n6 (omega arith)
                  d.payers_mints (Below-mono _ maps.drawn n6 (omega arith) d.payers_below))
                mints_below;
        }

  -- Rounds only draw more.
  pub add_keys-counts :
      (ix : FuzzInstruction) (maps : KeyMaps o) → maps.drawn ≤ (add_keys o ix maps).drawn
  unfolding add_keys
  add_keys-counts ix maps = omega (
    arith,
    or_insert_with-counts o.new_unique ix.vesting_account_key maps.vesting_account_keys _,
    or_insert_with-counts o.new_unique ix.vesting_token_account_key maps.vesting_token_account_keys
        _,
    or_insert_with-counts o.new_keypair ix.source_token_account_owner_key
        maps.source_token_account_owner_keys _,
    or_insert_with-counts o.new_keypair ix.destination_token_owner_key
        maps.destination_token_owner_keys _,
    or_insert_with-counts o.new_unique ix.destination_token_key maps.destination_token_keys _,
    or_insert_with-counts o.new_unique ix.new_destination_token_key maps.new_destination_token_keys
        _,
    or_insert_with-counts o.new_keypair ix.mint_key maps.mint_keys _,
    or_insert_with-counts o.new_keypair ix.payer_key maps.payer_keys _,
  )
