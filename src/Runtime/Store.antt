-- ===== src/Runtime/Store.antt =====
-- Reading behind a write, and borrowing data that nobody holds (for rs/src/processor.rs).
use rebuild_token_vesting.Base.{
  ◌≡◌, ◌≢◌, refl, false, none, ok, bytes_eq, bytes_eq_refl, bytes_eq_ne, bytes_eq→eq, Bool-cases,
  inl, inr, ap, sym, some, arith,
}
use mathlib.Core.Path.{fun_ext}
use rebuild_token_vesting.Base.Bytes.{Bytes}
use rebuild_token_vesting.State.Header.{Pubkey}
use rebuild_token_vesting.Runtime.Action.{
  World, Cell, Action, data_of, set_data, is_borrowed, borrow, with_borrow_mut,
}

pub data_of-set_data : (w : World) (k : Pubkey) (bs : Bytes) → data_of (set_data w k bs) k ≡ bs
unfolding set_data
data_of-set_data w k bs = ground (arith, bytes_eq_refl k)

pub accounts-set_data_ne :
    (w : World) (k j : Pubkey) (bs : Bytes) → j ≢ k → (set_data w k bs).accounts j ≡ w.accounts j
unfolding set_data
accounts-set_data_ne w k j bs h = ground (arith, bytes_eq_ne j k h)

pub owner-set_data :
    (w : World) (k j : Pubkey) (bs : Bytes)
    → ((set_data w k bs).accounts j).owner ≡ (w.accounts j).owner
unfolding set_data
owner-set_data w k j bs = ground arith

pub is_borrowed_free : (w : World) (k : Pubkey) → w.borrowed ≡ none → is_borrowed w k ≡ false
unfolding is_borrowed
is_borrowed_free w k h = rw h

pub borrow_free : (w : World) (k : Pubkey) → w.borrowed ≡ none → borrow k w ≡ (ok (data_of w k), w)
unfolding borrow
borrow_free w k h = ground arith

pub with_borrow_mut_free :
    {A : Type 0} (w : World) (k : Pubkey) (body : Action A)
    → w.borrowed ≡ none
    → with_borrow_mut k body w ≡ (
        let (r, w') = body (record w { borrowed = some k }) in
        (r, record w' { borrowed = w.borrowed }))
unfolding with_borrow_mut
with_borrow_mut_free w k body h = rw (is_borrowed_free w k h)

Cell-eq : (a b : Cell) → a.owner ≡ b.owner → a.bytes ≡ b.bytes → a ≡ b
Cell-eq a b o d = λ i. record { owner = o i; bytes = d i }

-- The second write counts.
pub set_data-set_data :
    (w : World) (k : Pubkey) (xs ys : Bytes) → set_data (set_data w k xs) k ys ≡ set_data w k ys
unfolding set_data
set_data-set_data w k xs ys = λ i. record { accounts = fun_ext at_key i; borrowed = w.borrowed }
  where
    at_key :
        (j : Pubkey) → (set_data (set_data w k xs) k ys).accounts j ≡ (set_data w k ys).accounts j
    at_key j = ground arith

-- Writing what is there changes nothing.
pub set_data_same : (w : World) (k : Pubkey) → set_data w k (data_of w k) ≡ w
unfolding set_data
set_data_same w k = λ i. record { accounts = fun_ext at_key i; borrowed = w.borrowed }
  where
    at_key : (j : Pubkey) → (set_data w k (data_of w k)).accounts j ≡ w.accounts j
    at_key j = elim (Bool-cases (bytes_eq j k)) [
      | inl here ↦ rw here (
          Cell-eq (record { owner = (w.accounts j).owner; bytes = data_of w k }) (w.accounts j) refl
            (ap (λ x. data_of w x) (sym (bytes_eq→eq j k here))))
      | inr elsewhere ↦ rw elsewhere
    ]
