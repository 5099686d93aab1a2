-- ===== src/State/Schedule.antt =====
-- rs/src/state.rs: `VestingSchedule` and its `Pack`.
use rebuild_token_vesting.Base.{
  ℕ, ◌^◌, ◌<◌, ◌++◌, length, take, drop, ltb, if◌then◌else◌, Result, ok, err, panic,
}
use rebuild_token_vesting.Base.Bytes.{Bytes, to_le_bytes, from_le_bytes}
use rebuild_token_vesting.Error.{ProgramError, invalid_account_data}

pub record VestingSchedule : Type 0 where
  pub release_time : ℕ
  pub amount : ℕ

-- The fields are `u64`.
abbrev pub IsU64 : ℕ → Type 0
IsU64 n = n < 2 ^ 64

pub record IsSchedule (s : VestingSchedule) : Type 0 where
  pub release_time_u64 : IsU64 s.release_time
  pub amount_u64 : IsU64 s.amount

-- `VestingSchedule::LEN`
abbrev pub len : ℕ
len = 16

-- `array_mut_ref!` panics on a slice that is too short; what lies behind the array stays.
unfoldable pub pack_into_slice : VestingSchedule → Bytes → Result ProgramError Bytes
pack_into_slice s dst =
    if ltb (length dst) len
    then panic
    else ok (to_le_bytes 8 s.release_time ++ (to_le_bytes 8 s.amount ++ drop len dst))

unfoldable pub unpack_from_slice : Bytes → Result ProgramError VestingSchedule
unpack_from_slice src =
    if ltb (length src) 16
    then err invalid_account_data
    else (let array = take len src in
        ok (record {
          release_time = from_le_bytes (take 8 array);
          amount = from_le_bytes (drop 8 array);
        }))
