-- ===== src/Examples/StateTests.antt =====
-- The byte forms of rs/src/state.rs on concrete values.
use rebuild_token_vesting.Base.{
  ◌<◌, ◌≡◌, List, ◌∷◌, ◌++◌, length, drop, All, All-append, arith, ok, ◌>>=◌, ◌^◌, ◌-◌, leb,
  if◌then◌else◌, panic, ◌*◌,
}
use rebuild_token_vesting.Base.Bytes.{Bytes, IsByte}
use rebuild_token_vesting.State.Header.{IsHeader}
use rebuild_token_vesting.State.Schedule.{VestingSchedule, IsSchedule}
use rebuild_token_vesting.State.Schedules.{unpack_schedules, pack_schedules_into_slice}
use rebuild_token_vesting.State.Layout.{encode_header, encode_schedules}
use rebuild_token_vesting.State.RoundTrip.{Header-unpack_lem, pack_schedules_into_slice_lem}
use rebuild_token_vesting.State.PackUnpack.{schedules_unpack-pack}
use rebuild_token_vesting.State.Decoding.{unpack_schedules_total, Header-unpack-eq-ok}
use rebuild_token_vesting.Contract.{header, header-IsHeader}
use rebuild_token_vesting.Examples.Chain.{repeated, key_of}
use rebuild_token_vesting.Examples.Scene.{bobs_contract, bobs_contract-IsContract, repeated-IsByte}

schedules_unpack-pack_example :
    (pack_schedules_into_slice bobs_contract.schedules (repeated 40 9) >>= unpack_schedules)
    ≡ ok bobs_contract.schedules
schedules_unpack-pack_example =
    schedules_unpack-pack bobs_contract.schedules (repeated 40 9)
      bobs_contract-IsContract.schedules_valid (omega arith) (omega arith)

abbrev last_schedule : VestingSchedule
last_schedule = record { release_time = 2 ^ 64 - 1; amount = 7 }

unpack_schedules_total_example :
    (ss : List VestingSchedule) × (tail : Bytes) × (unpack_schedules (repeated 20 7) ≡ ok ss)
    × (repeated 20 7 ≡ encode_schedules ss ++ tail)
    × (length tail < 16)
    × All IsSchedule ss
unpack_schedules_total_example =
    unpack_schedules_total (repeated 20 7) (repeated-IsByte 20 7 (omega arith))

header_bytes : All IsByte (encode_header (header bobs_contract) ++ repeated 2 0)
unfolding encode_header
header_bytes =
    All-append IsByte (key_of 6) (key_of 11 ++ (1 ∷ repeated 2 0))
      (repeated-IsByte 32 6 (omega arith))
      (All-append IsByte (key_of 11) (1 ∷ repeated 2 0) (repeated-IsByte 32 11 (omega arith))
        (omega arith, repeated-IsByte 2 0 (omega arith)))

Header-unpack-eq-ok_example :
    IsHeader (header bobs_contract)
    × (encode_header (header bobs_contract) ++ repeated 2 0
        ≡ encode_header (header bobs_contract)
          ++ drop 65 (encode_header (header bobs_contract) ++ repeated 2 0))
Header-unpack-eq-ok_example =
    Header-unpack-eq-ok (encode_header (header bobs_contract) ++ repeated 2 0)
      (header bobs_contract) header_bytes
      (Header-unpack_lem (header bobs_contract) (repeated 2 0)
        (header-IsHeader bobs_contract bobs_contract-IsContract))

pack_schedules_into_slice_lem_example :
    pack_schedules_into_slice bobs_contract.schedules (repeated 40 0) ≡ (
      if leb (16 * length bobs_contract.schedules) (length (repeated 40 0))
      then ok (
          encode_schedules bobs_contract.schedules
          ++ drop (16 * length bobs_contract.schedules) (repeated 40 0))
      else panic)
pack_schedules_into_slice_lem_example =
    pack_schedules_into_slice_lem bobs_contract.schedules (repeated 40 0)
