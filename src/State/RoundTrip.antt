-- ===== src/State/RoundTrip.antt =====
-- What is packed is unpacked again (rs/src/state.rs).
use rebuild_token_vesting.Base.{
  ℕ, suc, ◌+◌, ◌*◌, ◌/◌, ◌≤◌, ◌<◌, ◌≡◌, refl, ◌∙◌, Bool, true, false, some, get_elem?,
  get_elem?-append, List, [], ◌∷◌, ◌++◌, length, take, drop, All, arith, Result, ok, panic, leb,
  le→ltb, lt→ltb, le→leb, append_assoc, length-append, length-drop, take-append, drop-append,
  drop-drop, index_range-append, write_from, write_from-append, le-or-lt, inl, inr, lt→leb,
  if◌then◌else◌, append-nil,
}
use rebuild_token_vesting.Base.Bytes.{
  Bytes, to_le_bytes, from_le_bytes, length-to_le_bytes, from_le_bytes-to_le_bytes,
}
use rebuild_token_vesting.Error.{ProgramError}
use rebuild_token_vesting.State.Schedule
use rebuild_token_vesting.State.Schedule.{VestingSchedule, IsSchedule, len}
use rebuild_token_vesting.State.Header
use rebuild_token_vesting.State.Header.{VestingScheduleHeader, IsHeader, bool_as_u8}
use rebuild_token_vesting.State.Schedules.{
  unpack_loop, unpack_schedules, pack_loop, pack_schedules_into_slice,
}
use rebuild_token_vesting.State.Layout.{
  encode_header, encode_schedule, encode_schedules, length-encode_header, length-encode_schedule,
  length-encode_schedules,
}

pub Schedule-pack_lem :
    (s : VestingSchedule) (dst : Bytes)
    → 16 ≤ length dst
    → Schedule.pack_into_slice s dst ≡ ok (encode_schedule s ++ drop 16 dst)
unfolding Schedule.pack_into_slice encode_schedule
Schedule-pack_lem s dst h = rw (le→ltb _ _ h, append_assoc)

pub Schedule-pack_short :
    (s : VestingSchedule) (dst : Bytes) → length dst < 16 → Schedule.pack_into_slice s dst ≡ panic
unfolding Schedule.pack_into_slice
Schedule-pack_short s dst h = rw (lt→ltb _ _ h)

pub Header-pack_lem :
    (h : VestingScheduleHeader) (dst : Bytes)
    → 65 ≤ length dst
    → Header.pack_into_slice h dst ≡ ok (encode_header h ++ drop 65 dst)
unfolding Header.pack_into_slice encode_header
Header-pack_lem h dst e = rw (le→ltb _ _ e) (simp append_assoc)

release_time_read :
    (s : VestingSchedule)
    → IsSchedule s
    → from_le_bytes (take 8 (encode_schedule s)) ≡ s.release_time
unfolding encode_schedule
release_time_read s v =
    rw (take-append 8 _ (to_le_bytes 8 s.amount) (length-to_le_bytes 8 s.release_time))
      (from_le_bytes-to_le_bytes 8 _ v.release_time_u64)

amount_read :
    (s : VestingSchedule) → IsSchedule s → from_le_bytes (drop 8 (encode_schedule s)) ≡ s.amount
unfolding encode_schedule
amount_read s v =
    rw (drop-append 8 _ (to_le_bytes 8 s.amount) (length-to_le_bytes 8 s.release_time))
      (from_le_bytes-to_le_bytes 8 _ v.amount_u64)

pub Schedule-unpack_lem :
    (s : VestingSchedule) (rest : Bytes)
    → IsSchedule s
    → Schedule.unpack_from_slice (encode_schedule s ++ rest) ≡ ok s
unfolding Schedule.unpack_from_slice
Schedule-unpack_lem s rest v =
    rw
      (
        le→ltb (length (encode_schedule s ++ rest)) 16
            (omega (arith, length-encode_schedule s, length-append (encode_schedule s) rest)),
        take-append 16 (encode_schedule s) rest (length-encode_schedule s),
      )
      (rw (release_time_read s v, amount_read s v))

pub Schedule-unpack_exact :
    (s : VestingSchedule) → IsSchedule s → Schedule.unpack_from_slice (encode_schedule s) ≡ ok s
Schedule-unpack_exact s v = rw append-nil at (Schedule-unpack_lem s [] v)

module _ (h : VestingScheduleHeader) (v : IsHeader h) where
  destination_read : take 32 (encode_header h) ≡ h.destination_address
  unfolding encode_header
  destination_read = take-append 32 _ _ v.destination_key.size

  mint_read : take 32 (drop 32 (encode_header h)) ≡ h.mint_address
  unfolding encode_header
  mint_read =
      rw (drop-append 32 h.destination_address _ v.destination_key.size)
        (take-append 32 _ _ v.mint_key.size)

  flag_read : get_elem? (encode_header h) 64 ≡ some (bool_as_u8 h.is_initialized)
  unfolding encode_header
  flag_read = rw (← append_assoc) (
      get_elem?-append 64 (h.destination_address ++ h.mint_address) _ [] (
        omega (
          arith,
          v.destination_key.size,
          v.mint_key.size,
          length-append h.destination_address h.mint_address,
        )))

unpack_flag-bool_as_u8 : (b : Bool) → Header.unpack_flag (bool_as_u8 b) ≡ ok b
unfolding Header.unpack_flag
unpack_flag-bool_as_u8 true = refl
unpack_flag-bool_as_u8 false = refl

pub Header-unpack_lem :
    (h : VestingScheduleHeader) (rest : Bytes)
    → IsHeader h
    → Header.unpack_from_slice (encode_header h ++ rest) ≡ ok h
unfolding Header.unpack_from_slice
Header-unpack_lem h rest v =
    rw
      (
        le→ltb (length (encode_header h ++ rest)) 65
            (omega (arith, length-encode_header h v, length-append (encode_header h) rest)),
        take-append 65 (encode_header h) rest (length-encode_header h v),
        destination_read h v,
        mint_read h v,
      )
      (rw (flag_read h v) (rw (unpack_flag-bool_as_u8 h.is_initialized)))

-- The loop over `offset`, against the concatenation.
pack_loop_lem :
    (ss : List VestingSchedule) (offset : ℕ) (front rest : Bytes)
    → length front ≡ offset
    → 16 * length ss ≤ length rest
    → pack_loop ss offset (front ++ rest)
      ≡ ok (front ++ (encode_schedules ss ++ drop (16 * length ss) rest))
unfolding pack_loop encode_schedules
pack_loop_lem [] offset front rest e h = refl
pack_loop_lem (s ∷ ss) offset front rest e h = rw step (
    rw (← append_assoc front (encode_schedule s) (drop 16 rest)) (
      pack_loop_lem ss (offset + len) (front ++ encode_schedule s) (drop 16 rest)
        (omega (arith, length-append front (encode_schedule s), length-encode_schedule s))
        (omega (arith, length-drop 16 rest))
      ∙ joined))
  where
    step :
        write_from (front ++ rest) offset (Schedule.pack_into_slice s)
        ≡ ok (front ++ (encode_schedule s ++ drop 16 rest))
    step =
        rw (write_from-append offset front rest (Schedule.pack_into_slice s) e)
          (rw (Schedule-pack_lem s rest (omega arith)))

    joined :
        ◌≡◌ {A = Result ProgramError Bytes}
          (ok (
            (front ++ encode_schedule s)
            ++ (encode_schedules ss ++ drop (16 * length ss) (drop 16 rest))))
          (ok (
            front
            ++ ((encode_schedule s ++ encode_schedules ss) ++ drop (16 * suc (length ss)) rest)))
    joined =
        let n : 16 + 16 * length ss ≡ 16 * suc (length ss) = omega arith in
        rw (drop-drop 16 (16 * length ss) rest, n) (simp append_assoc)

pack_loop_short :
    (ss : List VestingSchedule) (offset : ℕ) (front rest : Bytes)
    → length front ≡ offset
    → length rest < 16 * length ss
    → pack_loop ss offset (front ++ rest) ≡ panic
unfolding pack_loop
pack_loop_short [] offset front rest e h = absurd (omega arith)
pack_loop_short (s ∷ ss) offset front rest e h = elim (le-or-lt 16 (length rest)) [
  | inl long ↦
      rw
        (
          write_from-append offset front rest (Schedule.pack_into_slice s) e,
          Schedule-pack_lem s rest long,
          ← append_assoc front (encode_schedule s) (drop 16 rest),
        )
        (pack_loop_short ss (offset + len) (front ++ encode_schedule s) (drop 16 rest)
          (omega (arith, length-append front (encode_schedule s), length-encode_schedule s))
          (omega (arith, length-drop 16 rest)))
  | inr short ↦ rw (
    write_from-append offset front rest (Schedule.pack_into_slice s) e,
    Schedule-pack_short s rest short,
  )
]

-- `pack_schedules_into_slice` on a target with room for the schedules writes their bytes at its
-- start and keeps what lies behind them; on any shorter target it panics.
pub pack_schedules_into_slice_lem :
    (ss : List VestingSchedule) (target : Bytes)
    → pack_schedules_into_slice ss target ≡ (
        if leb (16 * length ss) (length target)
        then ok (encode_schedules ss ++ drop (16 * length ss) target)
        else panic)
unfolding pack_schedules_into_slice
pack_schedules_into_slice_lem ss target = elim (le-or-lt (16 * length ss) (length target)) [
  | inl room ↦ rw (le→leb _ _ room) (pack_loop_lem ss 0 [] target refl room)
  | inr short ↦ rw (lt→leb _ _ short) (pack_loop_short ss 0 [] target refl short)
]

-- The loop over `offset` reads back a concatenation.
unpack_loop_lem :
    (ss : List VestingSchedule) (offset : ℕ) (front rest : Bytes)
    → All IsSchedule ss
    → length front ≡ offset
    → unpack_loop (length ss) offset (front ++ (encode_schedules ss ++ rest)) ≡ ok ss
unfolding unpack_loop encode_schedules
unpack_loop_lem [] offset front rest v e = refl
unpack_loop_lem (s ∷ ss) offset front rest v e =
    rw
      (
        append_assoc (encode_schedule s) (encode_schedules ss) rest,
        index_range-append offset (offset + 16) front (encode_schedule s)
            (encode_schedules ss ++ rest) e (omega (arith, length-encode_schedule s)),
        Schedule-unpack_exact s v.0,
        ← append_assoc front (encode_schedule s) (encode_schedules ss ++ rest),
      )
      (rw (
        unpack_loop_lem ss (offset + len) (front ++ encode_schedule s) rest v.1
          (omega (arith, length-append front (encode_schedule s), length-encode_schedule s))))

-- What `encode_schedules` describes is read back whole, with less than a schedule behind it.
pub unpack_schedules-encode_schedules :
    (ss : List VestingSchedule) (rest : Bytes)
    → All IsSchedule ss
    → length rest < 16
    → unpack_schedules (encode_schedules ss ++ rest) ≡ ok ss
unfolding unpack_schedules
unpack_schedules-encode_schedules ss rest v h = rw rounds (unpack_loop_lem ss 0 [] rest v refl)
  where
    rounds : length (encode_schedules ss ++ rest) / 16 ≡ length ss
    rounds = omega (arith, length-encode_schedules ss, length-append (encode_schedules ss) rest)
