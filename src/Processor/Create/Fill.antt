-- ===== src/Processor/Create/Fill.antt =====
-- The writes of `process_create` (rs/src/processor.rs) into the vesting account.
use rebuild_token_vesting.Base.{
  ℕ, ◌+◌, ◌*◌, ◌^◌, ◌≤◌, ◌<◌, ◌≡◌, ap, ◌∙◌, List, [], ◌∷◌, ◌++◌, length, length-append, length-drop,
  map, drop, drop_all, append_assoc, lt→ltb, le→ltb, ok, err, some, none, arith, le-or-lt, inl, inr,
  write_from-append, write_from,
}
use rebuild_token_vesting.Base.Bytes.{Bytes}
use rebuild_token_vesting.Error.{ProgramError, invalid_instruction_data}
use rebuild_token_vesting.State.Schedule
use rebuild_token_vesting.State.Schedule.{VestingSchedule, IsSchedule}
use rebuild_token_vesting.State.Header.{Pubkey}
use rebuild_token_vesting.State.Layout.{encode_schedule, encode_schedules, length-encode_schedule}
use rebuild_token_vesting.State.RoundTrip.{Schedule-pack_lem}
use rebuild_token_vesting.Instruction
use rebuild_token_vesting.Contract.{Contract, locked}
use rebuild_token_vesting.Runtime.Action.{World, data_of, set_data}
use rebuild_token_vesting.Runtime.Store.{data_of-set_data, set_data-set_data, set_data_same}
use rebuild_token_vesting.Processor.Create.{checked_add, state_schedule, fill_loop}

-- The contract that a `Create` describes.
abbrev pub contract_of : Pubkey → Pubkey → List Instruction.Schedule → Contract
contract_of mint dest schedules = record {
  destination = dest;
  mint = mint;
  schedules = map state_schedule schedules;
}

abbrev pub total_of : List Instruction.Schedule → ℕ
total_of ss = locked (map state_schedule ss)

abbrev pub written : List Instruction.Schedule → Bytes
written ss = encode_schedules (map state_schedule ss)

checked_add_fits : (a b : ℕ) → a + b < 2 ^ 64 → checked_add a b ≡ some (a + b)
unfolding checked_add
checked_add_fits a b h = rw (lt→ltb _ _ h)

checked_add_over : (a b : ℕ) → 2 ^ 64 ≤ a + b → checked_add a b ≡ none
unfolding checked_add
checked_add_over a b h = rw (le→ltb _ _ h)

-- One schedule written at `offset`, behind `front`.
step_write :
    (s : Instruction.Schedule) (offset : ℕ) (front rest : Bytes)
    → length front ≡ offset
    → 16 ≤ length rest
    → write_from {E = ProgramError}
        (front ++ rest)
        offset
        (Schedule.pack_into_slice (state_schedule s))
      ≡ ok ((front ++ encode_schedule (state_schedule s)) ++ drop 16 rest)
step_write s offset front rest e h = rw (
  write_from-append offset front rest (Schedule.pack_into_slice (state_schedule s)) e,
  Schedule-pack_lem (state_schedule s) rest h,
  append_assoc front (encode_schedule (state_schedule s)) (drop 16 rest),
)

module _ (k : Pubkey) where
  -- A round of the loop as long as the total is a `u64`, and the round in which it is none.
  round_fits :
      (s : Instruction.Schedule) (ss : List Instruction.Schedule) (offset total : ℕ)
      (front rest : Bytes) (w : World)
      → data_of w k ≡ front ++ rest
      → length front ≡ offset
      → 16 ≤ length rest
      → total + s.amount < 2 ^ 64
      → fill_loop k (s ∷ ss) offset total w
        ≡ fill_loop k ss
            (offset + 16)
            (total + s.amount)
            (set_data w k ((front ++ encode_schedule (state_schedule s)) ++ drop 16 rest))
  unfolding fill_loop
  round_fits s ss offset total front rest w holds e room fits =
      ground (arith, step_write s offset front rest e room, checked_add_fits total s.amount fits)

  round_over :
      (s : Instruction.Schedule) (ss : List Instruction.Schedule) (offset total : ℕ)
      (front rest : Bytes) (w : World)
      → data_of w k ≡ front ++ rest
      → length front ≡ offset
      → 16 ≤ length rest
      → 2 ^ 64 ≤ total + s.amount
      → (fill_loop k (s ∷ ss) offset total w).0 ≡ err invalid_instruction_data
  unfolding fill_loop
  round_over s ss offset total front rest w holds e room over =
      ground (arith, step_write s offset front rest e room, checked_add_over total s.amount over)

  next_front :
      (s : Instruction.Schedule) (offset : ℕ) (front : Bytes)
      → length front ≡ offset
      → length (front ++ encode_schedule (state_schedule s)) ≡ offset + 16
  next_front s offset front e = omega (
    arith,
    length-append front (encode_schedule (state_schedule s)),
    length-encode_schedule (state_schedule s),
  )

  -- The loop on data with room for exactly the schedules, behind `front`.
  pub fill_loop_fits :
      (ss : List Instruction.Schedule) (offset total : ℕ) (front rest : Bytes) (w : World)
      → data_of w k ≡ front ++ rest
      → length front ≡ offset
      → length rest ≡ 16 * length ss
      → total + total_of ss < 2 ^ 64
      → fill_loop k ss offset total w
        ≡ (ok (total + total_of ss), set_data w k (front ++ written ss))
  unfolding encode_schedules locked
  fill_loop_fits [] offset total front rest w holds e room fits =
      let none_left : rest ≡ [] = drop_all 0 rest room in
      let kept : data_of w k ≡ front ++ [] = holds ∙ ap (λ r. front ++ r) none_left in
      let sum : total + 0 ≡ total = omega arith in
      unfold fill_loop in rw (sum, ← kept, set_data_same w k)
  fill_loop_fits (s ∷ ss) offset total front rest w holds e room fits =
      let front' : Bytes = front ++ encode_schedule (state_schedule s) in
      let w1 : World = set_data w k (front' ++ drop 16 rest) in
      let sum : total + s.amount + total_of ss ≡ total + (s.amount + total_of ss) = omega arith in
      round_fits s ss offset total front rest w holds e (omega arith) (omega arith)
      ∙ fill_loop_fits ss (offset + 16) (total + s.amount) front' (drop 16 rest) w1
          (data_of-set_data w k (front' ++ drop 16 rest)) (next_front s offset front e)
          (omega (arith, length-drop 16 rest)) (omega arith)
      ∙ rw (
        set_data-set_data w k (front' ++ drop 16 rest) (front' ++ written ss),
        sum,
        append_assoc front (encode_schedule (state_schedule s)) (written ss),
      )

  pub fill_loop_over :
      (ss : List Instruction.Schedule) (offset total : ℕ) (front rest : Bytes) (w : World)
      → data_of w k ≡ front ++ rest
      → length front ≡ offset
      → length rest ≡ 16 * length ss
      → total < 2 ^ 64
      → 2 ^ 64 ≤ total + total_of ss
      → (fill_loop k ss offset total w).0 ≡ err invalid_instruction_data
  unfolding locked
  fill_loop_over [] offset total front rest w holds e room small over = absurd (omega arith)
  fill_loop_over (s ∷ ss) offset total front rest w holds e room small over =
      elim (le-or-lt (2 ^ 64) (total + s.amount)) [
        | inl now ↦ round_over s ss offset total front rest w holds e (omega arith) now
        | inr later ↦
            let front' : Bytes = front ++ encode_schedule (state_schedule s) in
            let w1 : World = set_data w k (front' ++ drop 16 rest) in
            ap (λ x. x.0) (round_fits s ss offset total front rest w holds e (omega arith) later)
            ∙ fill_loop_over ss (offset + 16) (total + s.amount) front' (drop 16 rest) w1
                (data_of-set_data w k (front' ++ drop 16 rest)) (next_front s offset front e)
                (omega (arith, length-drop 16 rest)) later (omega arith)
      ]
