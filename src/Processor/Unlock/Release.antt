-- ===== src/Processor/Unlock/Release.antt =====
-- The loop of `process_unlock` (rs/src/processor.rs) against the contract's own account of it.
use rebuild_token_vesting.Base.{
  ℕ, ◌+◌, ◌%◌, ◌^◌, ◌≤◌, ◌<◌, ◌≡◌, ◌∙◌, Result, Bool, true, false, List, [], ◌∷◌, ok, panic, arith,
  ltb, lt→ltb, le→ltb, if◌then◌else◌, inl, inr, le-or-lt,
}
use rebuild_token_vesting.Error.{ProgramError}
use rebuild_token_vesting.State.Schedule.{VestingSchedule}
use rebuild_token_vesting.Contract.{due, settled}
use rebuild_token_vesting.Processor.Unlock.{add_u64, release_loop}

add_u64_fits : (checks : Bool) (a b : ℕ) → a + b < 2 ^ 64 → add_u64 checks a b ≡ ok (a + b)
unfolding add_u64
add_u64_fits checks a b h = rw (lt→ltb _ _ h)

add_u64_wraps : (a b : ℕ) → add_u64 false a b ≡ ok ((a + b) % 2 ^ 64)
unfolding add_u64
add_u64_wraps a b = elim (le-or-lt (2 ^ 64) (a + b)) [
  | inl over ↦ rw (le→ltb (a + b) (2 ^ 64) over)
  | inr fits ↦
      let e : (a + b) % 2 ^ 64 ≡ a + b = omega arith in rw (lt→ltb (a + b) (2 ^ 64) fits, e)
]

add_u64_panics : (a b : ℕ) → 2 ^ 64 ≤ a + b → add_u64 true a b ≡ panic
unfolding add_u64
add_u64_panics a b h = rw (le→ltb _ _ h)

-- As long as the total is a `u64`, the loop adds up what is due and sets it to 0.
pub release_loop_fits :
    (checks : Bool) (now : ℕ) (ss : List VestingSchedule) (total : ℕ)
    → total + due now ss < 2 ^ 64
    → release_loop checks now ss total ≡ ok (total + due now ss, settled now ss)
unfolding release_loop due settled
release_loop_fits checks now [] total h = let e : total + 0 ≡ total = omega arith in rw e
release_loop_fits checks now (s ∷ ss) total h = ground (
  arith,
  add_u64_fits checks total s.amount,
  release_loop_fits checks now ss (total + s.amount),
  release_loop_fits checks now ss total,
)

-- In a release build the total that the loop returns is the sum of what is due modulo 2 ^ 64.
release_loop_wraps :
    (now : ℕ) (ss : List VestingSchedule) (total : ℕ)
    → total < 2 ^ 64
    → release_loop false now ss total ≡ ok ((total + due now ss) % 2 ^ 64, settled now ss)
unfolding release_loop due settled
release_loop_wraps now [] total h = let e : (total + 0) % 2 ^ 64 ≡ total = omega arith in rw e
release_loop_wraps now (s ∷ ss) total h = ground (
  arith,
  add_u64_wraps total s.amount,
  release_loop_wraps now ss ((total + s.amount) % 2 ^ 64),
  release_loop_wraps now ss total,
)

-- With overflow checks the loop panics as soon as the sum does not fit.
release_loop_panics :
    (now : ℕ) (ss : List VestingSchedule) (total : ℕ)
    → total < 2 ^ 64
    → 2 ^ 64 ≤ total + due now ss
    → release_loop true now ss total ≡ panic
unfolding release_loop due
release_loop_panics now [] total h over = absurd (omega arith)
release_loop_panics now (s ∷ ss) total h over = elim (le-or-lt (2 ^ 64) (total + s.amount)) [
  | inl here ↦ ground (arith, add_u64_panics total s.amount, release_loop_panics now ss total)
  | inr later ↦ ground (
    arith,
    add_u64_fits true total s.amount,
    release_loop_panics now ss (total + s.amount),
    release_loop_panics now ss total,
  )
]

-- What the release loop computes from 0 in either build, on any schedules: it sets what is due to 0
-- and returns its sum if that is a `u64`; a larger sum wraps around in a release build and panics
-- in a build with overflow checks.
pub release_loop_lem :
    (checks : Bool) (now : ℕ) (ss : List VestingSchedule)
    → release_loop checks now ss 0 ≡ (
        if ltb (due now ss) (2 ^ 64)
        then ok (due now ss, settled now ss)
        else (if checks then panic else ok (due now ss % 2 ^ 64, settled now ss)))
release_loop_lem checks now ss = elim (le-or-lt (2 ^ 64) (due now ss)) [
  | inr fits ↦ rw (lt→ltb _ _ fits) (release_loop_fits checks now ss 0 (omega arith) ∙ sum_zero)
  | inl over ↦ rw (le→ltb (due now ss) (2 ^ 64) over) (too_large checks over)
]
  where
    zero_add : 0 + due now ss ≡ due now ss
    zero_add = omega arith

    sum_zero :
        ◌≡◌ {A = Result ProgramError (ℕ × List VestingSchedule)}
          (ok (0 + due now ss, settled now ss))
          (ok (due now ss, settled now ss))
    sum_zero = rw zero_add

    too_large :
        (checks : Bool)
        → 2 ^ 64 ≤ due now ss
        → release_loop checks now ss 0
          ≡ (if checks then panic else ok (due now ss % 2 ^ 64, settled now ss))
    too_large true h = release_loop_panics now ss 0 (omega arith) (omega arith)
    too_large false h = rw zero_add at (release_loop_wraps now ss 0 (omega arith))
