-- ===== src/State/Decoding.antt =====
-- What the unpacking functions of rs/src/state.rs do on any bytes.
use rebuild_token_vesting.Base.{
  ℕ, zero, suc, ◌/◌, ◌≤◌, ◌<◌, ◌≡◌, refl, sym, ◌∙◌, ap, Bool, true, false, List, [], ◌∷◌, ◌++◌,
  length, take, drop, All, All-take, All-drop, arith, ok, append_assoc, length-drop, length-take,
  take-append-drop, drop_last, drop-drop, le-or-lt, inl, inr, le→ltb, ◌≢◌, >>=-eq-ok,
}
use rebuild_token_vesting.Base.Bytes.{
  Bytes, IsByte, to_le_bytes, from_le_bytes, to_le_bytes-from_le_bytes, from_le_bytes_bound,
}
use rebuild_token_vesting.State.Schedule.{VestingSchedule, IsSchedule, IsU64}
use rebuild_token_vesting.State.Header
use rebuild_token_vesting.State.Header.{VestingScheduleHeader, IsHeader, IsPubkey, bool_as_u8}
use rebuild_token_vesting.State.Schedules.{unpack_schedules}
use rebuild_token_vesting.State.Layout.{encode_header, encode_schedule, encode_schedules}
use rebuild_token_vesting.State.RoundTrip.{unpack_schedules-encode_schedules}

-- The number in the 8 bytes `bs`.
pub word_read :
    (bs : Bytes)
    → length bs ≡ 8
    → All IsByte bs
    → IsU64 (from_le_bytes bs) × (to_le_bytes 8 (from_le_bytes bs) ≡ bs)
word_read bs e a = (rw e at (from_le_bytes_bound bs a), to_le_bytes-from_le_bytes 8 bs e a)

abbrev schedule_of : Bytes → VestingSchedule
schedule_of bs = record {
  release_time = from_le_bytes (take 8 bs);
  amount = from_le_bytes (drop 8 bs);
}

-- Any 16 bytes are those of one schedule.
chunk :
    (bs : Bytes)
    → length bs ≡ 16
    → All IsByte bs
    → IsSchedule (schedule_of bs) × (encode_schedule (schedule_of bs) ≡ bs)
unfolding encode_schedule
chunk bs e a =
    let (small_time, time) =
      word_read (take 8 bs) (omega (arith, length-take 8 bs)) (All-take IsByte 8 bs a) in
    let (small_amount, amount) =
      word_read (drop 8 bs) (omega (arith, length-drop 8 bs)) (All-drop IsByte 8 bs a) in
    (
      record { release_time_u64 = small_time; amount_u64 = small_amount },
      rw (time, amount) (take-append-drop 8 bs),
    )

-- Any bytes are an array of schedules and less than a schedule more.
pub decode_schedules :
    (n : ℕ) (bs : Bytes)
    → All IsByte bs
    → length bs / 16 ≡ n
    → (ss : List VestingSchedule) × (tail : Bytes) × (bs ≡ encode_schedules ss ++ tail)
      × (length tail < 16)
      × All IsSchedule ss
unfolding encode_schedules
decode_schedules zero bs a e = ([], bs, refl, omega arith, tt)
decode_schedules (suc n) bs a e =
    let (v, head) =
      chunk (take 16 bs) (omega (arith, length-take 16 bs)) (All-take IsByte 16 bs a) in
    let (ss, tail, split, short, vs) =
      decode_schedules n (drop 16 bs) (All-drop IsByte 16 bs a)
        (omega (arith, length-drop 16 bs)) in
    (
      schedule_of (take 16 bs) ∷ ss,
      tail,
      sym (take-append-drop 16 bs) ∙ rw (head, append_assoc, ← split) refl,
      short,
      (v, vs),
    )

-- `unpack_schedules` never fails and never panics: on any bytes it returns schedules of `u64`
-- fields whose bytes are the input up to less than one schedule.
pub unpack_schedules_total :
    (input : Bytes)
    → All IsByte input
    → (ss : List VestingSchedule) × (tail : Bytes) × (unpack_schedules input ≡ ok ss)
      × (input ≡ encode_schedules ss ++ tail)
      × (length tail < 16)
      × All IsSchedule ss
unpack_schedules_total input a =
    let (ss, tail, split, short, vs) = decode_schedules (length input / 16) input a refl in
    (
      ss,
      tail,
      ap unpack_schedules split ∙ unpack_schedules-encode_schedules ss tail vs short,
      split,
      short,
      vs,
    )

unpack_flag-eq-ok : (b : ℕ) (flag : Bool) → Header.unpack_flag b ≡ ok flag → b ≡ bool_as_u8 flag
unfolding Header.unpack_flag
unpack_flag-eq-ok b true h = ground arith
unpack_flag-eq-ok b false h = ground arith

abbrev header_of : Bytes → Bool → VestingScheduleHeader
header_of array flag = record {
  destination_address = take 32 array;
  mint_address = take 32 (drop 32 array);
  is_initialized = flag;
}

Header-unpack_short :
    (src : Bytes) (h : VestingScheduleHeader)
    → length src < 65
    → Header.unpack_from_slice src ≢ ok h
unfolding Header.unpack_from_slice
Header-unpack_short src h short e = ground arith

-- 65 bytes with a valid last byte are those of one header.
header_bytes :
    (array : Bytes) (flag : Bool)
    → length array ≡ 65
    → All IsByte array
    → drop 64 array ≡ bool_as_u8 flag ∷ []
    → IsHeader (header_of array flag) × (encode_header (header_of array flag) ≡ array)
unfolding encode_header
header_bytes array flag e a last = (
  record {
    destination_key = record {
      size = omega (arith, length-take 32 array);
      bytes = All-take IsByte 32 array a;
    };
    mint_key = record {
      size = omega (arith, length-take 32 (drop 32 array), length-drop 32 array);
      bytes = All-take IsByte 32 (drop 32 array) (All-drop IsByte 32 array a);
    };
  },
  rw (← last, ← drop-drop 32 32 array, take-append-drop 32 (drop 32 array))
      (take-append-drop 32 array),
)

-- The steps of `unpack_from_slice` on a slice that is long enough.
header_read :
    (src : Bytes) (h : VestingScheduleHeader)
    → 65 ≤ length src
    → Header.unpack_from_slice src ≡ ok h
    → (flag : Bool) × (drop 64 (take 65 src) ≡ bool_as_u8 flag ∷ [])
      × (h ≡ header_of (take 65 src) flag)
unfolding Header.unpack_from_slice
header_read src h long e =
    let (b, at_last, last) = drop_last 64 (take 65 src) (omega (arith, length-take 65 src)) in
    let e' = rw (le→ltb (length src) 65 long, at_last) at e in
    let (flag, tested, made) = >>=-eq-ok (Header.unpack_flag b) _ e' in
    (flag, rw (← unpack_flag-eq-ok b flag tested) last, cc)

-- A successful `unpack_from_slice` of a header from bytes has read the 65 bytes that this header
-- packs to, and its keys have 32 bytes.
pub Header-unpack-eq-ok :
    (src : Bytes) (h : VestingScheduleHeader)
    → All IsByte src
    → Header.unpack_from_slice src ≡ ok h
    → IsHeader h × (src ≡ encode_header h ++ drop 65 src)
Header-unpack-eq-ok src h a e = elim (le-or-lt 65 (length src)) [
  | inl long ↦
      let (flag, last, made) = header_read src h long e in
      let (v, same) =
        header_bytes (take 65 src) flag (omega (arith, length-take 65 src))
          (All-take IsByte 65 src a) last in
      rw made (v, rw same (sym (take-append-drop 65 src)))
  | inr short ↦ absurd (Header-unpack_short src h short e)
]
