-- ===== src/Fuzz/Keys.antt =====
-- The maps of keys of `run_fuzz_instructions` (rs/hfuzz/src/vesting_fuzz.rs): `HashMap::entry` with
-- `or_insert_with`, and `get`.
use rebuild_token_vesting.Base.{
  ℕ, suc, ◌≡◌, Option, none, some, List, [], ◌∷◌, ◌==◌, if◌then◌else◌, arith, ◌⊎◌, Option-cases,
  inl, inr, Bool-cases, true, false, sym, ap, ◌∙◌, ==_iff,
}

-- `type AccountId = u8`
abbrev pub AccountId : Type 0
AccountId = ℕ

abbrev pub KeyMap {ℓ} : Type ℓ → Type ℓ
KeyMap A = List (AccountId × A)

module _ {ℓ} {A : Type ℓ} where
  -- `map.get(&id)`
  unfoldable pub get : AccountId → KeyMap A → Option A
  get id [] = none
  get id ((j, a) ∷ m) = if j == id then some a else get id m

  -- The closure runs only for an id that has no key.
  abbrev insert_for : (ℕ → A) → AccountId → KeyMap A → ℕ → Option A → KeyMap A × ℕ
  insert_for make id m n none = ((id, make n) ∷ m, suc n)
  insert_for make id m n (some a) = (m, n)

  -- `map.entry(id).or_insert_with(make)`, where `make n` is what the call number `n` returns; with the
  -- number of the next call.
  unfoldable pub or_insert_with : (ℕ → A) → AccountId → KeyMap A → ℕ → KeyMap A × ℕ
  unfolding get
  or_insert_with make id m n = insert_for make id m n (get id m)

  get-head : (id : AccountId) (a : A) (m : KeyMap A) → get id ((id, a) ∷ m) ≡ some a
  unfolding get
  get-head id a m = ground arith

  get-behind :
      (id j : AccountId) (a : A) (m : KeyMap A) → (id == j) ≡ false → get j ((id, a) ∷ m) ≡ get j m
  unfolding get
  get-behind id j a m h = rw h

  pub get-cons :
      (id j : AccountId) (a b : A) (m : KeyMap A)
      → get j ((id, a) ∷ m) ≡ some b
      → (b ≡ a) ⊎ (get j m ≡ some b)
  get-cons id j a b m has = elim (Bool-cases (id == j)) [
    | inl same ↦ inl (the_key (sym has ∙ head_key id j same))
    | inr other ↦ inr (sym (get-behind id j a m other) ∙ has)
  ]
    where
      head_key : (i k : AccountId) → (i == k) ≡ true → get k ((i, a) ∷ m) ≡ some a
      head_key i k same = ap (λ x. get k ((x, a) ∷ m)) ((==_iff i k).0 same) ∙ get-head k a m

      the_key : some b ≡ some a → b ≡ a
      the_key q = cc

  pub or_insert_with-missing :
      (make : ℕ → A) (id : AccountId) (m : KeyMap A) (n : ℕ)
      → get id m ≡ none
      → or_insert_with make id m n ≡ ((id, make n) ∷ m, suc n)
  unfolding or_insert_with
  or_insert_with-missing make id m n missing = ap (insert_for make id m n) missing

  pub or_insert_with-present :
      (make : ℕ → A) (id : AccountId) (m : KeyMap A) (n : ℕ) (a : A)
      → get id m ≡ some a
      → or_insert_with make id m n ≡ (m, n)
  unfolding or_insert_with
  or_insert_with-present make id m n a present = ap (insert_for make id m n) present

  -- Behind `or_insert_with` the map has a key for the account.
  pub or_insert_with-Has :
      (make : ℕ → A) (id : AccountId) (m : KeyMap A) (n : ℕ)
      → (a : A) × (get id (or_insert_with make id m n).0 ≡ some a)
  or_insert_with-Has make id m n = elim (Option-cases (get id m)) [
    | inl missing ↦ (
      make n,
      ap (λ p. get id p.0) (or_insert_with-missing make id m n missing) ∙ get-head id (make n) m,
    )
    | inr (a, present) ↦
        (a, ap (λ p. get id p.0) (or_insert_with-present make id m n a present) ∙ present)
  ]

  some-none : (a : A) → ◌≡◌ {A = Option A} (some a) none → ⊥
  some-none a q = cc

  -- A key that the map has stays.
  pub or_insert_with-keeps :
      (make : ℕ → A) (id j : AccountId) (m : KeyMap A) (n : ℕ) (a : A)
      → get j m ≡ some a
      → get j (or_insert_with make id m n).0 ≡ some a
  or_insert_with-keeps make id j m n a has = elim (Option-cases (get id m)) [
    | inl missing ↦
        ap (λ p. get j p.0) (or_insert_with-missing make id m n missing)
        ∙ (elim (Bool-cases (id == j)) [
          | inl same ↦
              absurd
                (some-none a (sym has ∙ ap (λ k. get k m) (sym ((==_iff id j).0 same)) ∙ missing))
          | inr other ↦ get-behind id j (make n) m other ∙ has
        ])
    | inr (b, present) ↦ ap (λ p. get j p.0) (or_insert_with-present make id m n b present) ∙ has
  ]
