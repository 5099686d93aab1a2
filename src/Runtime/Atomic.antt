-- ===== src/Runtime/Atomic.antt =====
-- Computations that change no account unless they succeed, for the handlers of rs/src/processor.rs.
use rebuild_token_vesting.Base.{◌≡◌, ◌≢◌, refl, sym, ap, ◌∙◌, Result, ok, err, panic}
use rebuild_token_vesting.Error.{ProgramError}
use rebuild_token_vesting.Runtime.Action.{World, Action, ◌>>=◌}

abbrev pub Atomic : Action (Unit {0}) → Type 0
Atomic m = (w : World) → (m w).0 ≢ ok tt → (m w).1 ≡ w

abbrev pub ReadOnly : {A : Type 0} → Action A → Type 0
ReadOnly m = (w : World) → (m w).1 ≡ w

-- Behind a step that only reads.
pub bind-Atomic :
    {A : Type 0} (m : Action A) (f : A → Action (Unit {0}))
    → ReadOnly m
    → ((a : A) → Atomic (f a))
    → Atomic (m >>= f)
bind-Atomic {A} m f reads atomic w h = go (m w) refl h
  where
    same : (p : Result ProgramError A × World) → m w ≡ p → p.1 ≡ w
    same p q = sym (ap (λ x. x.1) q) ∙ reads w

    go :
        (p : Result ProgramError A × World)
        → m w ≡ p
        → (◌>>=◌ (λ _. p) f w).0 ≢ ok tt
        → (◌>>=◌ (λ _. p) f w).1 ≡ w
    go (ok a, w1) q h = atomic a w1 h ∙ same (ok a, w1) q
    go (err x, w1) q h = same (err x, w1) q
    go (panic, w1) q h = same (panic, w1) q

-- The same for errors alone: a panic may come after a write.
abbrev pub ErrorAtomic : Action (Unit {0}) → Type 0
ErrorAtomic m = (w : World) (x : ProgramError) → (m w).0 ≡ err x → (m w).1 ≡ w

module _ {A : Type 0} (m : Action A) (f : A → Action (Unit {0})) where
  -- Behind a step that only reads.
  pub bind-ErrorAtomic : ReadOnly m → ((a : A) → ErrorAtomic (f a)) → ErrorAtomic (m >>= f)
  bind-ErrorAtomic reads atomic w x h = go (m w) refl h
    where
      same : (p : Result ProgramError A × World) → m w ≡ p → p.1 ≡ w
      same p q = sym (ap (λ x. x.1) q) ∙ reads w

      go :
          (p : Result ProgramError A × World)
          → m w ≡ p
          → (◌>>=◌ (λ _. p) f w).0 ≡ err x
          → (◌>>=◌ (λ _. p) f w).1 ≡ w
      go (ok a, w1) q h = atomic a w1 x h ∙ same (ok a, w1) q
      go (err y, w1) q h = same (err y, w1) q
      go (panic, w1) q h = same (panic, w1) q

-- Before a step that returns no error.
pub last-ErrorAtomic :
    (m : Action (Unit {0})) (f : Unit {0} → Action (Unit {0}))
    → ErrorAtomic m
    → ((w : World) (x : ProgramError) → (f tt w).0 ≢ err x)
    → ErrorAtomic (m >>= f)
last-ErrorAtomic m f atomic no_error w x h = go (m w) refl h
  where
    go :
        (p : Result ProgramError (Unit {0}) × World)
        → m w ≡ p
        → (◌>>=◌ (λ _. p) f w).0 ≡ err x
        → (◌>>=◌ (λ _. p) f w).1 ≡ w
    go (ok tt, w1) q h = absurd (no_error w1 x h)
    go (err y, w1) q h = sym (ap (λ x. x.1) q) ∙ atomic w y (ap (λ x. x.0) q)
    go (panic, w1) q h = cc
