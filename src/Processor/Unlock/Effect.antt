-- ===== src/Processor/Unlock/Effect.antt =====
-- The parts of `process_unlock` (rs/src/processor.rs) on an account that holds a contract.
use rebuild_token_vesting.Base.{
  ℕ, ◌^◌, ◌*◌, ◌<◌, ◌≡◌, ◌∙◌, none, List, [], length, ok, arith, le→leb, drop_all, append-nil,
  index_from, index_from-append, write_from-append,
}
use rebuild_token_vesting.Error.{ProgramError}
use rebuild_token_vesting.State.Header.{Pubkey}
use rebuild_token_vesting.State.Schedule.{VestingSchedule}
use rebuild_token_vesting.State.Schedules.{unpack_schedules, pack_schedules_into_slice}
use rebuild_token_vesting.State.Layout.{
  encode_header, encode_schedules, length-encode_header, length-encode_schedules,
}
use rebuild_token_vesting.State.RoundTrip.{
  unpack_schedules-encode_schedules, pack_schedules_into_slice_lem,
}
use rebuild_token_vesting.Contract.{
  Contract, IsContract, header, header-IsHeader, encode, due, settled, due-add-locked,
}
use rebuild_token_vesting.Runtime.Action.{World, AccountInfo, data_of, set_data}
use rebuild_token_vesting.Runtime.Calls.{Runtime, ℤ, as_u64}
use rebuild_token_vesting.Runtime.Store.{borrow_free, with_borrow_mut_free}
use rebuild_token_vesting.Processor.Unlock.{vested, store_schedules}
use rebuild_token_vesting.Processor.Unlock.Release.{release_loop_lem}

-- The account `k` holds the contract `c`.
abbrev pub Holds : World → Pubkey → Contract → Type 0
Holds w k c = data_of w k ≡ encode c

unpack_stored :
    (c : Contract) → IsContract c → unpack_schedules (encode_schedules c.schedules) ≡ ok c.schedules
unpack_stored c v =
    rw append-nil at
      (unpack_schedules-encode_schedules c.schedules [] v.schedules_valid (omega arith))

encode_tail :
    (c : Contract)
    → IsContract c
    → index_from {E = ProgramError} (encode c) 65 ≡ ok (encode_schedules c.schedules)
unfolding encode
encode_tail c v =
    index_from-append 65 (encode_header (header c)) (encode_schedules c.schedules)
      (length-encode_header (header c) (header-IsHeader c v))

due_u64 : (now : ℕ) (c : Contract) → IsContract c → due now c.schedules < 2 ^ 64
due_u64 now c v = omega (arith, due-add-locked now c.schedules, v.total_u64)

pub vested_lem :
    (rt : Runtime) (clock vesting : AccountInfo) (w : World) (c : Contract) (t : ℤ)
    → IsContract c
    → w.borrowed ≡ none
    → Holds w vesting.key c
    → rt.clock_from_account_info clock w ≡ ok t
    → vested rt clock vesting w
      ≡ (ok (due (as_u64 t) c.schedules, settled (as_u64 t) c.schedules), w)
unfolding vested
vested_lem rt clock vesting w c t v free holds read_clock = ground (
  arith,
  borrow_free w vesting.key free,
  encode_tail c v,
  unpack_stored c v,
  release_loop_lem rt.overflow_checks (as_u64 t) c.schedules,
  due_u64 (as_u64 t) c v,
)

-- Schedules of the same number take the place of the old ones.
pack_over :
    (old new : List VestingSchedule)
    → length new ≡ length old
    → pack_schedules_into_slice new (encode_schedules old) ≡ ok (encode_schedules new)
pack_over old new same = rw (
  pack_schedules_into_slice_lem new (encode_schedules old),
  le→leb (16 * length new) (length (encode_schedules old))
      (omega (arith, length-encode_schedules old)),
  drop_all (16 * length new) (encode_schedules old) (omega (arith, length-encode_schedules old)),
  append-nil (encode_schedules new),
)

pub store_schedules_lem :
    (vesting : AccountInfo) (w : World) (c : Contract) (new : List VestingSchedule)
    → IsContract c
    → w.borrowed ≡ none
    → Holds w vesting.key c
    → length new ≡ length c.schedules
    → store_schedules vesting new w
      ≡ (ok tt, set_data w vesting.key (encode (record c { schedules = new })))
unfolding store_schedules encode set_data
store_schedules_lem vesting w c new v free holds same =
    with_borrow_mut_free w vesting.key _ free
    ∙ ground (
      arith,
      write_from-append 65 (encode_header (header c)) (encode_schedules c.schedules)
          (pack_schedules_into_slice new) (length-encode_header (header c) (header-IsHeader c v)),
      pack_over c.schedules new same,
    )
