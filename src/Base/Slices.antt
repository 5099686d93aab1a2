-- ===== src/Base/Slices.antt =====
-- Byte slices in Rust: `==` on slices, arrays and keys, ranges, and indexing that may panic.
use Prim.Native.Nat.{ℕ, ◌-◌}
use mathlib.Core.Path.{◌≡◌, refl, sym, ap, ◌∙◌}
use mathlib.Core.Bool.{Bool, true, false, ◌&&◌}
use mathlib.Core.Logic.{◌≢◌}
use mathlib.Core.List.{List, [], ◌∷◌, ◌++◌}
use mathlib.Core.Option.{Option, none, some}
use rebuild_token_vesting.Base.Lists.{length, take, drop, get_elem?}
use rebuild_token_vesting.Base.Outcome.{Result, ok, panic, unwrap, ◌>>=◌}
use native.Mathlib.Omega.{arith}
use rebuild_token_vesting.Base.Tests.{◌==◌, leb, if◌then◌else◌}

unfoldable pub bytes_eq : List ℕ → List ℕ → Bool
bytes_eq [] [] = true
bytes_eq [] (y ∷ ys) = false
bytes_eq (x ∷ xs) [] = false
bytes_eq (x ∷ xs) (y ∷ ys) = x == y && bytes_eq xs ys

pub bytes_eq→eq : (xs ys : List ℕ) → bytes_eq xs ys ≡ true → xs ≡ ys
unfolding bytes_eq
bytes_eq→eq [] [] h = refl
bytes_eq→eq [] (y ∷ ys) h = cc
bytes_eq→eq (x ∷ xs) [] h = cc
bytes_eq→eq (x ∷ xs) (y ∷ ys) h = ground (arith, bytes_eq→eq xs ys)

pub bytes_eq_refl : (xs : List ℕ) → bytes_eq xs xs ≡ true
unfolding bytes_eq
bytes_eq_refl [] = refl
bytes_eq_refl (x ∷ xs) = ground (arith, bytes_eq_refl xs)

pub bytes_eq→ne : (xs ys : List ℕ) → bytes_eq xs ys ≡ false → xs ≢ ys
bytes_eq→ne xs ys h same = no_both (sym (bytes_eq_refl ys) ∙ ap (λ k. bytes_eq k ys) (sym same) ∙ h)
  where
    no_both : true ≡ false → ⊥
    no_both q = cc

pub bytes_eq_ne : (xs ys : List ℕ) → xs ≢ ys → bytes_eq xs ys ≡ false
unfolding bytes_eq
bytes_eq_ne [] [] h = absurd (h refl)
bytes_eq_ne [] (y ∷ ys) h = refl
bytes_eq_ne (x ∷ xs) [] h = refl
bytes_eq_ne (x ∷ xs) (y ∷ ys) h = ground (arith, bytes_eq_ne xs ys)

-- `s.get(a..b)`
unfoldable pub get_range : List ℕ → ℕ → ℕ → Option (List ℕ)
get_range s a b = if leb a b && leb b (length s) then some (take (b - a) (drop a s)) else none

module _ {E : Type 0} where
  -- `s[a..b]`
  unfoldable pub index_range : List ℕ → ℕ → ℕ → Result E (List ℕ)
  unfolding get_range
  index_range s a b = unwrap (get_range s a b)

  -- `s[n..]`
  unfoldable pub index_from : List ℕ → ℕ → Result E (List ℕ)
  index_from s n = if leb n (length s) then ok (drop n s) else panic

  -- `s[..n]`
  unfoldable pub index_to : List ℕ → ℕ → Result E (List ℕ)
  index_to s n = if leb n (length s) then ok (take n s) else panic

  -- `s[i]`
  unfoldable pub index_at : List ℕ → ℕ → Result E ℕ
  index_at s i = unwrap (get_elem? s i)

  -- `f(&mut s[n..])`: what `f` leaves there, behind the untouched front.
  unfoldable pub write_from : List ℕ → ℕ → (List ℕ → Result E (List ℕ)) → Result E (List ℕ)
  write_from s n f = if leb n (length s) then (f (drop n s) >>= λ t. ok (take n s ++ t)) else panic

  -- `f(&mut s[..n])`: what `f` leaves there, before the untouched end.
  unfoldable pub write_to : List ℕ → ℕ → (List ℕ → Result E (List ℕ)) → Result E (List ℕ)
  write_to s n f = if leb n (length s) then (f (take n s) >>= λ t. ok (t ++ drop n s)) else panic
