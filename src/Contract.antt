-- ===== src/Contract.antt =====
-- A vesting contract as its users see it, apart from accounts and bytes: what rs/src/processor.rs
-- and rs/src/state.rs keep in a vesting account.
pub mod Life
use rebuild_token_vesting.Base.{
  ℕ, ◌+◌, ◌*◌, ◌^◌, ◌≤◌, ◌<◌, ◌≡◌, refl, true, List, [], ◌∷◌, ◌++◌, length, length-append, map, All,
  arith, leb, if◌then◌else◌,
}
use rebuild_token_vesting.Base.Bytes.{Bytes}
use rebuild_token_vesting.State.Header.{Pubkey, IsPubkey, VestingScheduleHeader, IsHeader}
use rebuild_token_vesting.State.Schedule.{VestingSchedule, IsSchedule}
use rebuild_token_vesting.State.Layout.{
  encode_header, encode_schedules, length-encode_header, length-encode_schedules,
}

pub record Contract : Type 0 where
  pub destination : Pubkey
  pub mint : Pubkey
  pub schedules : List VestingSchedule

-- What is still to be released.
unfoldable pub locked : List VestingSchedule → ℕ
locked [] = 0
locked (s ∷ ss) = s.amount + locked ss

-- What may be released at the time `now`.
unfoldable pub due : ℕ → List VestingSchedule → ℕ
due now [] = 0
due now (s ∷ ss) = (if leb s.release_time now then s.amount else 0) + due now ss

-- What is left when that has been released.
unfoldable pub settled : ℕ → List VestingSchedule → List VestingSchedule
settled now [] = []
settled now (s ∷ ss) =
    (if leb s.release_time now then record s { amount = 0 } else s) ∷ settled now ss

-- Keys of 32 bytes, `u64` fields, and a total that is a `u64`.
pub record IsContract (c : Contract) : Type 0 where
  pub destination_key : IsPubkey c.destination
  pub mint_key : IsPubkey c.mint
  pub schedules_valid : All IsSchedule c.schedules
  pub total_u64 : locked c.schedules < 2 ^ 64

abbrev pub header : Contract → VestingScheduleHeader
header c = record {
  destination_address = c.destination;
  mint_address = c.mint;
  is_initialized = true;
}

pub header-IsHeader : (c : Contract) → IsContract c → IsHeader (header c)
header-IsHeader c v = record { destination_key = v.destination_key; mint_key = v.mint_key }

-- The data of a vesting account that holds the contract.
unfoldable pub encode : Contract → Bytes
encode c = encode_header (header c) ++ encode_schedules c.schedules

pub length-encode : (c : Contract) → IsContract c → length (encode c) ≡ 65 + 16 * length c.schedules
unfolding encode
length-encode c v = omega (
  arith,
  length-append (encode_header (header c)) (encode_schedules c.schedules),
  length-encode_header (header c) (header-IsHeader c v),
  length-encode_schedules c.schedules,
)

-- Releasing what is due moves it out of what is locked.
pub due-add-locked :
    (now : ℕ) (ss : List VestingSchedule) → due now ss + locked (settled now ss) ≡ locked ss
unfolding due locked settled
due-add-locked now [] = omega arith
due-add-locked now (s ∷ ss) = ground (arith, due-add-locked now ss)

-- Once released, nothing is due until a later time.
pub due-settled :
    (now now' : ℕ) (ss : List VestingSchedule) → now' ≤ now → due now' (settled now ss) ≡ 0
unfolding due settled
due-settled now now' [] h = refl
due-settled now now' (s ∷ ss) h = ground (arith, due-settled now now' ss h)

pub settled-IsSchedule :
    (now : ℕ) (ss : List VestingSchedule) → All IsSchedule ss → All IsSchedule (settled now ss)
unfolding settled
settled-IsSchedule now [] v = tt
settled-IsSchedule now (s ∷ ss) v = ground (arith, settled-IsSchedule now ss v.1)

pub length-settled : (now : ℕ) (ss : List VestingSchedule) → length (settled now ss) ≡ length ss
unfolding settled
length-settled now [] = refl
length-settled now (s ∷ ss) = omega (arith, length-settled now ss)

-- The contract behind a release.
abbrev pub release : ℕ → Contract → Contract
release now c = record c { schedules = settled now c.schedules }

pub release-IsContract : (now : ℕ) (c : Contract) → IsContract c → IsContract (release now c)
release-IsContract now c v = record {
  destination_key = v.destination_key;
  mint_key = v.mint_key;
  schedules_valid = settled-IsSchedule now c.schedules v.schedules_valid;
  total_u64 = omega (arith, due-add-locked now c.schedules, v.total_u64);
}
