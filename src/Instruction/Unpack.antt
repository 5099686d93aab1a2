-- ===== src/Instruction/Unpack.antt =====
-- The outcome of `unpack` (rs/src/instruction.rs) on any bytes.
use rebuild_token_vesting.Base.{
  ℕ, ◌≤◌, ◌<◌, ◌≡◌, refl, sym, ◌∙◌, ap, ◌⊎◌, inl, inr, [], ◌∷◌, ◌++◌, length, All, arith, ok, err,
  panic, le-or-lt, append_assoc,
}
use rebuild_token_vesting.Base.Bytes.{Bytes, IsByte, to_le_bytes}
use rebuild_token_vesting.Error.{custom, from}
use rebuild_token_vesting.Instruction.{
  VestingInstruction, init, create, unlock, change_destination, empty, unpack,
}
use rebuild_token_vesting.Instruction.Wire.{IsInstruction, IsTrailing, wire}
use rebuild_token_vesting.Instruction.Arms.{
  init_short, init_cut, init_whole, create_short, create_cut, create_whole, unlock_or_change_short,
  unlock_or_change_whole, empty_short, empty_whole,
}

-- The input ends inside the seeds, or inside the number of an `Empty`.
abbrev pub IsCut : Bytes → Type 0
IsCut [] = ⊥
IsCut (tag ∷ rest) = (tag ≤ 3) × (length rest < 32) ⊎ (tag ≡ 4) × (length rest < 4)

-- No tag, an unknown tag, or an input that ends behind the seeds of an `Init` or a `Create`.
abbrev pub IsMalformed : Bytes → Type 0
IsMalformed [] = Unit
IsMalformed (tag ∷ rest) =
    (4 < tag)
    ⊎ ((tag ≡ 0) × (32 ≤ length rest) × (length rest < 36)
        ⊎ (tag ≡ 1) × (32 ≤ length rest) × (length rest < 96))

-- The three ways in which `unpack` ends.
pub data Verdict (input : Bytes) : Type 0 where
  reads :
      (i : VestingInstruction) (tail : Bytes)
      → IsInstruction i
      → IsTrailing i tail
      → input ≡ wire i ++ tail
      → unpack input ≡ ok i
      → Verdict input
  rejects : IsMalformed input → unpack input ≡ err (custom 0) → Verdict input
  panics : IsCut input → unpack input ≡ panic → Verdict input

init-Verdict : (rest : Bytes) → All IsByte rest → Verdict (0 ∷ rest)
unfolding unpack wire
init-Verdict rest a = elim (le-or-lt 32 (length rest)) [
  | inr short ↦ panics (omega arith) (init_short rest short)
  | inl seeds ↦ elim (le-or-lt 36 (length rest)) [
    | inr cut ↦ rejects (inr (inl (refl, seeds, cut))) (init_cut rest a seeds cut)
    | inl whole ↦
        let (s, n, tail, k, u, e, done) = init_whole rest a whole in
        reads (init s n) tail (k, u) tt
          (ap (λ t. 0 ∷ t) (e ∙ sym (append_assoc s (to_le_bytes 4 n) tail))) done
  ]
]

create-Verdict : (rest : Bytes) → All IsByte rest → Verdict (1 ∷ rest)
unfolding unpack wire
create-Verdict rest a = elim (le-or-lt 32 (length rest)) [
  | inr short ↦ panics (omega arith) (create_short rest short)
  | inl seeds ↦ elim (le-or-lt 96 (length rest)) [
    | inr cut ↦ rejects (inr (inr (refl, seeds, cut))) (create_cut rest a seeds cut)
    | inl whole ↦
        let (s, m, d, ss, tail, v, short, e, done) = create_whole rest a whole in
        reads (create s m d ss) tail v short (ap (λ t. 1 ∷ t) (e ∙ simp append_assoc)) done
  ]
]

unlock-Verdict : (rest : Bytes) → All IsByte rest → Verdict (2 ∷ rest)
unfolding unpack wire
unlock-Verdict rest a = elim (le-or-lt 32 (length rest)) [
  | inr short ↦ panics (omega arith) (unlock_or_change_short 2 rest short)
  | inl seeds ↦
      let (s, tail, k, e, done) = unlock_or_change_whole 2 rest a seeds in
      reads (unlock s) tail k tt (ap (λ t. 2 ∷ t) e) done
]

change-Verdict : (rest : Bytes) → All IsByte rest → Verdict (3 ∷ rest)
unfolding unpack wire
change-Verdict rest a = elim (le-or-lt 32 (length rest)) [
  | inr short ↦ panics (omega arith) (unlock_or_change_short 3 rest short)
  | inl seeds ↦
      let (s, tail, k, e, done) = unlock_or_change_whole 3 rest a seeds in
      reads (change_destination s) tail k tt (ap (λ t. 3 ∷ t) e) done
]

empty-Verdict : (rest : Bytes) → All IsByte rest → Verdict (4 ∷ rest)
unfolding unpack wire
empty-Verdict rest a = elim (le-or-lt 4 (length rest)) [
  | inr short ↦ panics (omega arith) (empty_short rest short)
  | inl number ↦
      let (n, tail, u, e, done) = empty_whole rest a number in
      reads (empty n) tail u tt (ap (λ t. 4 ∷ t) e) done
]

unknown_tag : (tag : ℕ) (rest : Bytes) → 4 < tag → unpack (tag ∷ rest) ≡ err (custom 0)
unfolding unpack from
unknown_tag tag rest h = ground arith

tag_cases :
    (tag : ℕ) → (4 < tag) ⊎ ((tag ≡ 0) ⊎ ((tag ≡ 1) ⊎ ((tag ≡ 2) ⊎ ((tag ≡ 3) ⊎ (tag ≡ 4)))))
tag_cases tag = grind arith

-- On any bytes `unpack` reads the instruction whose byte form the input begins with, or answers
-- `InvalidInstruction` on a malformed input, or panics on one that is cut inside its first field.
pub unpack-Verdict : (input : Bytes) → All IsByte input → Verdict input
unpack-Verdict [] a = rejects tt (unfold unpack from in refl)
unpack-Verdict (tag ∷ rest) a = elim (tag_cases tag) [
  | inl unknown ↦ rejects (inl unknown) (unknown_tag tag rest unknown)
  | inr (inl e) ↦ rw e (init-Verdict rest a.1)
  | inr (inr (inl e)) ↦ rw e (create-Verdict rest a.1)
  | inr (inr (inr (inl e))) ↦ rw e (unlock-Verdict rest a.1)
  | inr (inr (inr (inr (inl e)))) ↦ rw e (change-Verdict rest a.1)
  | inr (inr (inr (inr (inr e)))) ↦ rw e (empty-Verdict rest a.1)
]
