-- ===== src/State/Layout.antt =====
-- The stored form in plain concatenations, which the packing functions of rs/src/state.rs are
-- compared with.
use rebuild_token_vesting.Base.{
  ◌*◌, ◌≡◌, List, [], ◌∷◌, ◌++◌, length, length-append, All, All-append, arith,
}
use rebuild_token_vesting.Base.Bytes.{
  Bytes, IsByte, to_le_bytes, length-to_le_bytes, to_le_bytes-IsByte,
}
use rebuild_token_vesting.State.Header.{VestingScheduleHeader, IsHeader, bool_as_u8}
use rebuild_token_vesting.State.Schedule.{VestingSchedule}

-- The 65 bytes of a header.
unfoldable pub encode_header : VestingScheduleHeader → Bytes
encode_header h = h.destination_address ++ (h.mint_address ++ (bool_as_u8 h.is_initialized ∷ []))

-- The 16 bytes of a schedule.
unfoldable pub encode_schedule : VestingSchedule → Bytes
encode_schedule s = to_le_bytes 8 s.release_time ++ to_le_bytes 8 s.amount

unfoldable pub encode_schedules : List VestingSchedule → Bytes
encode_schedules [] = []
encode_schedules (s ∷ ss) = encode_schedule s ++ encode_schedules ss

pub length-encode_header : (h : VestingScheduleHeader) → IsHeader h → length (encode_header h) ≡ 65
unfolding encode_header
length-encode_header h v = omega (
  arith,
  v.destination_key.size,
  v.mint_key.size,
  length-append h.mint_address (bool_as_u8 h.is_initialized ∷ []),
  length-append h.destination_address (h.mint_address ++ (bool_as_u8 h.is_initialized ∷ [])),
)

pub length-encode_schedule : (s : VestingSchedule) → length (encode_schedule s) ≡ 16
unfolding encode_schedule
length-encode_schedule s = omega (
  arith,
  length-append (to_le_bytes 8 s.release_time) (to_le_bytes 8 s.amount),
  length-to_le_bytes 8 s.release_time,
  length-to_le_bytes 8 s.amount,
)

pub length-encode_schedules :
    (ss : List VestingSchedule) → length (encode_schedules ss) ≡ 16 * length ss
unfolding encode_schedules
length-encode_schedules [] = omega arith
length-encode_schedules (s ∷ ss) = omega (
  arith,
  length-append (encode_schedule s) (encode_schedules ss),
  length-encode_schedule s,
  length-encode_schedules ss,
)

pub encode_schedules-IsByte : (ss : List VestingSchedule) → All IsByte (encode_schedules ss)
unfolding encode_schedules encode_schedule
encode_schedules-IsByte [] = tt
encode_schedules-IsByte (s ∷ ss) =
    All-append IsByte _ _
      (All-append IsByte _ _ (to_le_bytes-IsByte 8 s.release_time) (to_le_bytes-IsByte 8 s.amount))
      (encode_schedules-IsByte ss)
