-- ===== src/Runtime/Steps.antt =====
-- Inversion of a step that ended well, for the handlers of rs/src/processor.rs.
use rebuild_token_vesting.Base.{
  ◌≡◌, refl, sym, ap, Bool, true, false, not, Result, ok, err, panic, if◌then◌else◌,
  fail_if as fails, some, Bool-cases, inl, inr,
}
use rebuild_token_vesting.Base.Bytes.{Bytes}
use rebuild_token_vesting.Error.{ProgramError}
use rebuild_token_vesting.State.Header.{Pubkey}
use rebuild_token_vesting.Runtime.Action.{World, Action, ◌>>=◌, is_borrowed, with_borrow_mut}

-- How a handler goes on behind a step with the result `r` that left the accounts `w`.
abbrev pub continue :
    {A B : Type 0}
    → World
    → Result ProgramError A
    → (A → Result ProgramError B × World)
    → Result ProgramError B × World
continue w r k = elim r [ ok a ↦ k a | err e ↦ (err e, w) | panic ↦ (panic, w) ]

module _ {A B : Type 0} where
  pub step-eq-ok :
      (r : Result ProgramError A) (k : A → Result ProgramError B × World) (w : World) {b : B}
      {w' : World}
      → continue w r k ≡ (ok b, w')
      → (a : A) × (r ≡ ok a) × (k a ≡ (ok b, w'))
  step-eq-ok (ok a) k w e = (a, refl, e)
  step-eq-ok (err x) k w e = cc
  step-eq-ok panic k w e = cc

  pub action-eq-ok :
      (m : Action A) (f : A → Action B) {b : B} (w : World) {w' : World}
      → (m >>= f) w ≡ (ok b, w')
      → (a : A) × (w1 : World) × (m w ≡ (ok a, w1)) × (f a w1 ≡ (ok b, w'))
  action-eq-ok m f {b} w {w'} e = go (m w) refl e
    where
      go :
          (p : Result ProgramError A × World)
          → m w ≡ p
          → ◌>>=◌ (λ _. p) f w ≡ (ok b, w')
          → (a : A) × (w1 : World) × (m w ≡ (ok a, w1)) × (f a w1 ≡ (ok b, w'))
      go (ok a, w1) q h = (a, w1, q, h)
      go (err x, w1) q h = cc
      go (panic, w1) q h = cc

module _ {B : Type 0} where
  pub fail_if-eq-ok :
      (t : Bool) (x : ProgramError) (k : Unit {0} → Result ProgramError B × World) (w : World)
      {b : B} {w' : World}
      → continue w (fails t x) k ≡ (ok b, w')
      → (t ≡ false) × (k tt ≡ (ok b, w'))
  fail_if-eq-ok true x k w e = cc
  fail_if-eq-ok false x k w e = (refl, e)

  -- The same for a test that has to hold.
  pub require-eq-ok :
      (t : Bool) (x : ProgramError) (k : Unit {0} → Result ProgramError B × World) (w : World)
      {b : B} {w' : World}
      → continue w (fails (not t) x) k ≡ (ok b, w')
      → (t ≡ true) × (k tt ≡ (ok b, w'))
  require-eq-ok true x k w e = (refl, e)
  require-eq-ok false x k w e = cc

  -- A borrow, which must find the data free.
  pub borrow-eq-ok :
      (t : Bool) (bytes : Bytes) (k : Bytes → Result ProgramError B × World) (w : World) {b : B}
      {w' : World}
      → continue w (if t then panic else ok bytes) k ≡ (ok b, w')
      → (t ≡ false) × (k bytes ≡ (ok b, w'))
  borrow-eq-ok true bytes k w e = cc
  borrow-eq-ok false bytes k w e = (refl, e)

pub pure-eq-ok :
    {A : Type 0} (a : A) (w : World) {b : A} {w' : World}
    → ◌≡◌ {A = Result ProgramError A × World} (ok a, w) (ok b, w')
    → (a ≡ b) × (w' ≡ w)
pure-eq-ok a w e = (cc, cc)

-- What ran while the data of `k` were held.
pub with_borrow_mut-eq-ok :
    {A : Type 0} (k : Pubkey) (body : Action A) (w : World) {b : A} {w' : World}
    → with_borrow_mut k body w ≡ (ok b, w')
    → (held : World) × (body (record w { borrowed = some k }) ≡ (ok b, held))
      × (w' ≡ record held { borrowed = w.borrowed })
unfolding with_borrow_mut
with_borrow_mut-eq-ok {A} k body w {b} {w'} e = elim (Bool-cases (is_borrowed w k)) [
  | inl taken ↦ absurd (no_panic (rw taken at e))
  | inr free ↦ ran (rw free at e)
]
  where
    no_panic : ◌≡◌ {A = Result ProgramError A × World} (panic, w) (ok b, w') → ⊥
    no_panic h = cc

    inner : Result ProgramError A × World
    inner = body (record w { borrowed = some k })

    ran :
        ◌≡◌ {A = Result ProgramError A × World}
          (inner.0, record inner.1 { borrowed = w.borrowed })
          (ok b, w')
        → (held : World) × (body (record w { borrowed = some k }) ≡ (ok b, held))
          × (w' ≡ record held { borrowed = w.borrowed })
    ran h = (inner.1, λ i. ((h i).0, inner.1), sym (ap (λ x. x.1) h))

-- A test that ends a function.
pub fail_if_last :
    (t : Bool) (x : ProgramError) (w : World) {w' : World}
    → ◌≡◌ {A = Result ProgramError (Unit {0}) × World} (fails t x, w) (ok tt, w')
    → (t ≡ false) × (w' ≡ w)
fail_if_last true x w e = cc
fail_if_last false x w e = (refl, cc)
