-- ===== src/Instruction/Decoding.antt =====
-- What follows from an outcome of `unpack` (rs/src/instruction.rs).
use rebuild_token_vesting.Base.{ℕ, ◌≤◌, ◌≡◌, ◌↔◌, inl, inr, [], ◌∷◌, All, arith, panic, ◌⊎◌}
use rebuild_token_vesting.Base.Bytes.{Bytes, IsByte}
use rebuild_token_vesting.Instruction.{unpack}
use rebuild_token_vesting.Instruction.Arms.{
  init_short, create_short, unlock_or_change_short, empty_short,
}
use rebuild_token_vesting.Instruction.Unpack.{
  Verdict, reads, rejects, panics, IsCut, unpack-Verdict,
}

three_cases : (tag : ℕ) → tag ≤ 3 → (tag ≡ 0) ⊎ ((tag ≡ 1) ⊎ ((tag ≡ 2) ⊎ (tag ≡ 3)))
three_cases tag h = grind arith

IsCut-panic : (input : Bytes) → IsCut input → unpack input ≡ panic
unfolding unpack
IsCut-panic [] h = absurd h
IsCut-panic (tag ∷ rest) (inl (low, short)) = elim (three_cases tag low) [
  | inl e ↦ rw e (init_short rest short)
  | inr (inl e) ↦ rw e (create_short rest short)
  | inr (inr (inl e)) ↦ rw e (unlock_or_change_short 2 rest short)
  | inr (inr (inr e)) ↦ rw e (unlock_or_change_short 3 rest short)
]
IsCut-panic (tag ∷ rest) (inr (four, short)) = rw four (empty_short rest short)

-- On bytes, `unpack` panics exactly on an input that ends inside the seeds, or inside the number of
-- an `Empty`.
pub unpack-eq-panic : (input : Bytes) → All IsByte input → (unpack input ≡ panic) ↔ IsCut input
unpack-eq-panic input a = (λ e. go e (unpack-Verdict input a), IsCut-panic input)
  where
    go : unpack input ≡ panic → Verdict input → IsCut input
    go e (reads j tail v t joined done) = cc
    go e (rejects bad failed) = cc
    go e (panics cut failed) = cut
