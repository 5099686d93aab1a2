-- ===== src/Base/Splits.antt =====
-- Indexing and writing in a slice that is a front of known length and what follows it.
use Prim.Native.Nat.{ℕ, ◌+◌, ◌-◌, ◌≤◌, ◌<◌}
use mathlib.Core.Path.{◌≡◌, sym}
use mathlib.Core.Bool.{true}
use mathlib.Core.Option.{none, some}
use mathlib.Core.List.{List, ◌++◌}
use native.Mathlib.Omega.{arith}
use rebuild_token_vesting.Base.Tests.{leb, le→leb, lt→leb}
use rebuild_token_vesting.Base.Lists.{
  length, take, drop, length-append, take-append, drop-append, length-take, take-append-drop,
}
use rebuild_token_vesting.Base.Outcome.{Result, ok, panic, ◌>>=◌}
use rebuild_token_vesting.Base.Slices.{
  get_range, index_range, index_from, index_to, write_from, write_to,
}

pub leb-length_append :
    (n : ℕ) (front rest : List ℕ) → length front ≡ n → leb n (length (front ++ rest)) ≡ true
leb-length_append n front rest e = le→leb _ _ (omega (arith, length-append front rest))

pub get_range-append :
    (n m : ℕ) (front mid rest : List ℕ)
    → length front ≡ n
    → n + length mid ≡ m
    → get_range (front ++ (mid ++ rest)) n m ≡ some mid
unfolding get_range
get_range-append n m front mid rest e k = rw (
  le→leb n m (omega arith),
  le→leb m (length (front ++ (mid ++ rest)))
      (omega (arith, length-append front (mid ++ rest), length-append mid rest)),
  drop-append n front (mid ++ rest) e,
  take-append (m - n) mid rest (omega arith),
)

-- A range that ends past the slice is none.
pub get_range_past : (n m : ℕ) (s : List ℕ) → length s < m → get_range s n m ≡ none
unfolding get_range
get_range_past n m s h = ground (arith, lt→leb m (length s) h)

module _ {E : Type 0} where
  pub index_range-append :
      (n m : ℕ) (front mid rest : List ℕ)
      → length front ≡ n
      → n + length mid ≡ m
      → index_range {E = E} (front ++ (mid ++ rest)) n m ≡ ok mid
  unfolding index_range
  index_range-append n m front mid rest e k = rw (get_range-append n m front mid rest e k)

  pub index_from-append :
      (n : ℕ) (front rest : List ℕ)
      → length front ≡ n
      → index_from {E = E} (front ++ rest) n ≡ ok rest
  unfolding index_from
  index_from-append n front rest e =
      rw (leb-length_append n front rest e, drop-append n front rest e)

  pub index_to-append :
      (n : ℕ) (front rest : List ℕ)
      → length front ≡ n
      → index_to {E = E} (front ++ rest) n ≡ ok front
  unfolding index_to
  index_to-append n front rest e = rw (leb-length_append n front rest e, take-append n front rest e)

  pub write_from-append :
      (n : ℕ) (front rest : List ℕ) (f : List ℕ → Result E (List ℕ))
      → length front ≡ n
      → write_from (front ++ rest) n f ≡ (f rest >>= λ t. ok (front ++ t))
  unfolding write_from
  write_from-append n front rest f e =
      rw (leb-length_append n front rest e, drop-append n front rest e, take-append n front rest e)

  pub write_to-append :
      (n : ℕ) (front rest : List ℕ) (f : List ℕ → Result E (List ℕ))
      → length front ≡ n
      → write_to (front ++ rest) n f ≡ (f front >>= λ t. ok (t ++ rest))
  unfolding write_to
  write_to-append n front rest f e =
      rw (leb-length_append n front rest e, drop-append n front rest e, take-append n front rest e)

  -- Past the end of the slice a write panics.
  pub write_from_past :
      (n : ℕ) (s : List ℕ) (f : List ℕ → Result E (List ℕ))
      → length s < n
      → write_from s n f ≡ panic
  unfolding write_from
  write_from_past n s f h = rw (lt→leb n (length s) h)

-- Every slice that is long enough is such a front and a rest.
pub split_at :
    (n : ℕ) (s : List ℕ)
    → n ≤ length s
    → (front : List ℕ) × (rest : List ℕ) × (s ≡ front ++ rest) × (length front ≡ n)
split_at n s h = (take n s, drop n s, sym (take-append-drop n s), omega (arith, length-take n s))
