-- ===== src/Contract/Life.antt =====
-- What may happen to a vesting contract, apart from accounts and bytes: the specification of
-- `process_unlock` and `process_change_destination` in rs/src/processor.rs.
use rebuild_token_vesting.Base.{ℕ, ◌+◌, ◌≤◌, ◌<◌, ◌≡◌, refl, List, [], ◌∷◌, arith}
use rebuild_token_vesting.State.Header.{Pubkey, IsPubkey}
use rebuild_token_vesting.State.Schedule.{VestingSchedule}
use rebuild_token_vesting.Contract.{
  Contract, IsContract, locked, due, settled, release, due-add-locked,
}

-- The contract with another destination.
abbrev pub redirect : Pubkey → Contract → Contract
redirect k c = record c { destination = k }

pub redirect-IsContract :
    (k : Pubkey) (c : Contract) → IsPubkey k → IsContract c → IsContract (redirect k c)
redirect-IsContract k c kk v = record {
  destination_key = kk;
  mint_key = v.mint_key;
  schedules_valid = v.schedules_valid;
  total_u64 = v.total_u64;
}

-- One event not later than `limit`, and the amount that it pays to the destination.
pub data Event (limit : ℕ) (c : Contract) : ℕ → Contract → Type 0 where
  releases :
      (now : ℕ)
      → now ≤ limit
      → 0 < due now c.schedules
      → Event limit c (due now c.schedules) (release now c)
  redirects : (k : Pubkey) → Event limit c 0 (redirect k c)

-- Events in a row, the last one outermost, and what they pay in sum.
pub data Life (limit : ℕ) (c : Contract) : ℕ → Contract → Type 0 where
  created : Life limit c 0 c
  then_event :
      {paid amount : ℕ} {c1 c2 : Contract}
      → Life limit c paid c1
      → Event limit c1 amount c2
      → Life limit c (paid + amount) c2

-- What is due at `limit` is what an earlier release pays and what is due behind it.
due_later :
    (now limit : ℕ) (ss : List VestingSchedule)
    → now ≤ limit
    → due now ss + due limit (settled now ss) ≡ due limit ss
unfolding due settled
due_later now limit [] h = refl
due_later now limit (s ∷ ss) h = ground (arith, due_later now limit ss h)

Event-pays :
    {limit : ℕ} {c : Contract} {amount : ℕ} {c' : Contract}
    → Event limit c amount c'
    → (amount + locked c'.schedules ≡ locked c.schedules)
      × (amount + due limit c'.schedules ≡ due limit c.schedules)
Event-pays {limit} {c = c} (releases now h p) =
    (due-add-locked now c.schedules, due_later now limit c.schedules h)
Event-pays (redirects k) = (omega arith, omega arith)

-- Along every life of a contract, what was paid and what is locked add up to what was locked in the
-- beginning, and no more was paid than was due at the latest time: what is due then and was not
-- paid is still due.
pub Life-pays :
    {limit : ℕ} {c : Contract} {paid : ℕ} {c' : Contract}
    → Life limit c paid c'
    → (paid + locked c'.schedules ≡ locked c.schedules)
      × (paid + due limit c'.schedules ≡ due limit c.schedules)
Life-pays created = (omega arith, omega arith)
Life-pays (then_event l e) =
    let (a, b) = Life-pays l in let (a', b') = Event-pays e in (omega arith, omega arith)
