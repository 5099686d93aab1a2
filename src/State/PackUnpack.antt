-- ===== src/State/PackUnpack.antt =====
-- Packing and unpacking again, with the functions of rs/src/state.rs alone.
use rebuild_token_vesting.Base.{
  ◌+◌, ◌*◌, ◌≤◌, ◌<◌, ◌≡◌, List, length, drop, length-drop, All, arith, ok, ◌>>=◌, le→leb,
}
use rebuild_token_vesting.Base.Bytes.{Bytes}
use rebuild_token_vesting.State.Header
use rebuild_token_vesting.State.Header.{VestingScheduleHeader, IsHeader}
use rebuild_token_vesting.State.Schedule
use rebuild_token_vesting.State.Schedule.{VestingSchedule, IsSchedule}
use rebuild_token_vesting.State.Schedules.{unpack_schedules, pack_schedules_into_slice}
use rebuild_token_vesting.State.RoundTrip.{
  Schedule-pack_lem, Schedule-unpack_lem, Header-pack_lem, Header-unpack_lem,
  pack_schedules_into_slice_lem, unpack_schedules-encode_schedules,
}

-- A header with keys of 32 bytes comes back from any slice of at least 65 bytes that it was packed
-- into.
pub header_unpack-pack :
    (h : VestingScheduleHeader) (dst : Bytes)
    → IsHeader h
    → 65 ≤ length dst
    → (Header.pack_into_slice h dst >>= Header.unpack_from_slice) ≡ ok h
header_unpack-pack h dst v room =
    rw (Header-pack_lem h dst room) (Header-unpack_lem h (drop 65 dst) v)

-- A schedule with `u64` fields comes back from any slice of at least 16 bytes that it was packed
-- into.
pub schedule_unpack-pack :
    (s : VestingSchedule) (dst : Bytes)
    → IsSchedule s
    → 16 ≤ length dst
    → (Schedule.pack_into_slice s dst >>= Schedule.unpack_from_slice) ≡ ok s
schedule_unpack-pack s dst v room =
    rw (Schedule-pack_lem s dst room) (Schedule-unpack_lem s (drop 16 dst) v)

-- Schedules with `u64` fields come back from any slice that has room for them and for less than one
-- more.
pub schedules_unpack-pack :
    (ss : List VestingSchedule) (target : Bytes)
    → All IsSchedule ss
    → 16 * length ss ≤ length target
    → length target < 16 * length ss + 16
    → (pack_schedules_into_slice ss target >>= unpack_schedules) ≡ ok ss
schedules_unpack-pack ss target v room tight =
    rw (pack_schedules_into_slice_lem ss target, le→leb _ _ room)
      (unpack_schedules-encode_schedules ss (drop (16 * length ss) target) v
        (omega (arith, length-drop (16 * length ss) target)))
