-- ===== src/Fuzz/Arbitrary.antt =====
-- rs/src/instruction.rs: `VestingInstruction::arbitrary`, the random instructions of the harnesses.
use rebuild_token_vesting.Base.{
  ℕ, ◌^◌, ◌<◌, ◌==◌, ◌≡◌, ◌≢◌, refl, arith, Bool-cases, inl, inr, List, [], ◌∷◌, All, length,
  if◌then◌else◌, Result, ok, >>=-eq-ok, ◌>>=◌,
}
use rebuild_token_vesting.Base.Bytes.{Bytes}
use rebuild_token_vesting.State.Header.{Pubkey, IsPubkey}
use rebuild_token_vesting.Instruction
use rebuild_token_vesting.Instruction.{
  Seeds, VestingInstruction, init, create, unlock, change_destination, empty, pack, unpack,
}
use rebuild_token_vesting.Instruction.Wire.{IsScheduleArg, IsInstruction, IsPackable}
use rebuild_token_vesting.Instruction.RoundTrip.{unpack-pack}

-- The crate `arbitrary`: draws from the remaining random data, and `Pubkey::new`.
pub record Draws : Type 1 where
  pub Unstructured : Type 0
  pub Error : Type 0
  pub bytes_32 : Unstructured → Result Error (Bytes × Unstructured)
  pub choose : Unstructured → List ℕ → Result Error (ℕ × Unstructured)
  pub u32 : Unstructured → Result Error (ℕ × Unstructured)
  pub ten_schedules : Unstructured → Result Error (List Instruction.Schedule × Unstructured)
  pub new_pubkey : Bytes → Pubkey

module _ (d : Draws) where
  -- The arm of the choice 0, and the arm of all others.
  unfoldable pub arbitrary_init :
      Seeds → d.Unstructured → Result d.Error (VestingInstruction × d.Unstructured)
  arbitrary_init seeds u = do
    (number_of_schedules, u) ← d.u32 u
    ok (init seeds number_of_schedules, u)

  unfoldable pub arbitrary_create :
      Seeds → d.Unstructured → Result d.Error (VestingInstruction × d.Unstructured)
  arbitrary_create seeds u = do
    (schedules, u) ← d.ten_schedules u
    (mint_bytes, u) ← d.bytes_32 u
    (dest_bytes, u) ← d.bytes_32 u
    ok (create seeds (d.new_pubkey mint_bytes) (d.new_pubkey dest_bytes) schedules, u)

  unfoldable pub arbitrary : d.Unstructured → Result d.Error (VestingInstruction × d.Unstructured)
  unfolding arbitrary_init arbitrary_create
  arbitrary u = do
    (seeds, u) ← d.bytes_32 u
    (choice, u) ← d.choose u (0 ∷ 1 ∷ 2 ∷ 3 ∷ 4 ∷ [])
    if choice == 0 then arbitrary_init seeds u else arbitrary_create seeds u

-- A value of an array or integer type has its range, and "Create a new Pubkey" keeps the bytes.
pub record DrawsInRange (d : Draws) : Type 0 where
  pub bytes_in_range :
      (u u' : d.Unstructured) (bs : Bytes) → d.bytes_32 u ≡ ok (bs, u') → IsPubkey bs
  pub u32_in_range : (u u' : d.Unstructured) (n : ℕ) → d.u32 u ≡ ok (n, u') → n < 2 ^ 32
  pub schedules_in_range :
      (u u' : d.Unstructured) (ss : List Instruction.Schedule)
      → d.ten_schedules u ≡ ok (ss, u')
      → (length ss ≡ 10) × All IsScheduleArg ss
  pub new_pubkey_bytes : (bs : Bytes) → IsPubkey bs → d.new_pubkey bs ≡ bs

-- With the seeds `drawn`: an `Init` for the choice 0, and a `Create` of ten schedules for any other.
abbrev pub IsDrawn : ℕ → Seeds → VestingInstruction → Type 0
IsDrawn choice drawn (init seeds n) = (choice ≡ 0) × (seeds ≡ drawn)
IsDrawn choice drawn (create seeds mint dest ss) = (choice ≢ 0) × (seeds ≡ drawn) × (length ss ≡ 10)
IsDrawn choice drawn (unlock seeds) = ⊥
IsDrawn choice drawn (change_destination seeds) = ⊥
IsDrawn choice drawn (empty n) = ⊥

IsDrawn-IsPackable :
    (choice : ℕ) (drawn : Seeds) (i : VestingInstruction) → IsDrawn choice drawn i → IsPackable i
IsDrawn-IsPackable choice drawn (init seeds n) h = tt
IsDrawn-IsPackable choice drawn (create seeds mint dest ss) h = tt
IsDrawn-IsPackable choice drawn (unlock seeds) h = absurd h
IsDrawn-IsPackable choice drawn (change_destination seeds) h = absurd h
IsDrawn-IsPackable choice drawn (empty n) h = absurd h

module _ (d : Draws) (range : DrawsInRange d) where
  the_instruction :
      {i j : VestingInstruction} {u v : d.Unstructured}
      → ◌≡◌ {A = Result d.Error (VestingInstruction × d.Unstructured)} (ok (i, u)) (ok (j, v))
      → i ≡ j
  the_instruction q = cc

  -- The property of an instruction that was drawn.
  Fine : ℕ → Seeds → VestingInstruction → Type 0
  Fine choice drawn i = IsDrawn choice drawn i × IsInstruction i

  arbitrary_init-Fine :
      (choice : ℕ) (seeds : Seeds) (u u' : d.Unstructured) (i : VestingInstruction)
      → choice ≡ 0
      → IsPubkey seeds
      → arbitrary_init d seeds u ≡ ok (i, u')
      → Fine choice seeds i
  unfolding arbitrary_init Fine
  arbitrary_init-Fine choice seeds u u' i zero v e =
      let ((n, u1), drawn, e1) = >>=-eq-ok (d.u32 u) _ e in
      let same = the_instruction e1 in
      rw (← same) ((zero, refl), (v, range.u32_in_range u u1 n drawn))

  arbitrary_create-Fine :
      (choice : ℕ) (seeds : Seeds) (u u' : d.Unstructured) (i : VestingInstruction)
      → choice ≢ 0
      → IsPubkey seeds
      → arbitrary_create d seeds u ≡ ok (i, u')
      → Fine choice seeds i
  unfolding arbitrary_create Fine
  arbitrary_create-Fine choice seeds u u' i other v e =
      let ((ss, u1), drawn1, e1) = >>=-eq-ok (d.ten_schedules u) _ e in
      let ((mint, u2), drawn2, e2) = >>=-eq-ok (d.bytes_32 u1) _ e1 in
      let ((dest, u3), drawn3, e3) = >>=-eq-ok (d.bytes_32 u2) _ e2 in
      let (ten, valid) = range.schedules_in_range u u1 ss drawn1 in
      let same = the_instruction e3 in
      rw (← same) (
        (other, refl, ten),
        (
          v,
          key mint (range.bytes_in_range u1 u2 mint drawn2),
          key dest (range.bytes_in_range u2 u3 dest drawn3),
          valid,
        ),
      )
    where
      key : (bs : Bytes) → IsPubkey bs → IsPubkey (d.new_pubkey bs)
      key bs v = let same = range.new_pubkey_bytes bs v in rw same v

  -- If arrays and integers are drawn in their range: `arbitrary` draws seeds and then one of five
  -- choices. It returns an Init with these seeds when the choice is 0, and a Create of ten
  -- schedules with these seeds for any other choice; the fields are in range, and `unpack` reads
  -- the instruction from what `pack` writes.
  pub arbitrary-IsDrawn :
      (u u' : d.Unstructured) (i : VestingInstruction)
      → arbitrary d u ≡ ok (i, u')
      → (seeds : Seeds) × (choice : ℕ) × (u1 : d.Unstructured) × (u2 : d.Unstructured) × (d.bytes_32
            u
          ≡ ok (seeds, u1))
        × (d.choose u1 (0 ∷ 1 ∷ 2 ∷ 3 ∷ 4 ∷ []) ≡ ok (choice, u2))
        × IsDrawn choice seeds i
        × IsInstruction i
        × (unpack (pack i) ≡ ok i)
  unfolding arbitrary Fine
  arbitrary-IsDrawn u u' i e =
      let ((seeds, u1), drawn, e1) = >>=-eq-ok (d.bytes_32 u) _ e in
      let ((choice, u2), chosen, e2) = >>=-eq-ok (d.choose u1 (0 ∷ 1 ∷ 2 ∷ 3 ∷ 4 ∷ [])) _ e1 in
      let v = range.bytes_in_range u u1 seeds drawn in
      let fine : Fine choice seeds i = elim (Bool-cases (choice == 0)) [
        | inl zero ↦
            arbitrary_init-Fine choice seeds u2 u' i (grind (arith, zero)) v (rw zero at e2)
        | inr other ↦
            arbitrary_create-Fine choice seeds u2 u' i (grind (arith, other)) v (rw other at e2)
      ] in
      (
        seeds,
        choice,
        u1,
        u2,
        drawn,
        chosen,
        fine.0,
        fine.1,
        unpack-pack i fine.1 (IsDrawn-IsPackable choice seeds i fine.0),
      )
