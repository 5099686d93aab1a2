-- ===== src/State/Schedules.antt =====
-- rs/src/state.rs: the loops over an array of schedules.
use rebuild_token_vesting.Base.{
  ℕ, zero, suc, ◌+◌, ◌/◌, List, [], ◌∷◌, length, Result, ok, ◌>>=◌, index_range, write_from,
}
use rebuild_token_vesting.Base.Bytes.{Bytes}
use rebuild_token_vesting.Error.{ProgramError}
use rebuild_token_vesting.State.Schedule
use rebuild_token_vesting.State.Schedule.{VestingSchedule, len}

-- The rounds left, and the loop's `offset`.
unfoldable pub unpack_loop : ℕ → ℕ → Bytes → Result ProgramError (List VestingSchedule)
unpack_loop zero offset input = ok []
unpack_loop (suc rounds) offset input = do
  slice ← index_range input offset (offset + len)
  s ← Schedule.unpack_from_slice slice
  output ← unpack_loop rounds (offset + len) input
  ok (s ∷ output)

unfoldable pub unpack_schedules : Bytes → Result ProgramError (List VestingSchedule)
unfolding unpack_loop
unpack_schedules input = unpack_loop (length input / len) 0 input

unfoldable pub pack_loop : List VestingSchedule → ℕ → Bytes → Result ProgramError Bytes
pack_loop [] offset target = ok target
pack_loop (s ∷ schedules) offset target = do
  target' ← write_from target offset (Schedule.pack_into_slice s)
  pack_loop schedules (offset + len) target'

unfoldable pub pack_schedules_into_slice : List VestingSchedule → Bytes → Result ProgramError Bytes
unfolding pack_loop
pack_schedules_into_slice schedules target = pack_loop schedules 0 target
