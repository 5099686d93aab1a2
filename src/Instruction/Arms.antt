-- ===== src/Instruction/Arms.antt =====
-- What each arm of `unpack` (rs/src/instruction.rs) does on any bytes behind the tag.
use rebuild_token_vesting.Base.{
  ℕ, ◌+◌, ◌/◌, ◌^◌, ◌≤◌, ◌<◌, ◌≡◌, refl, sym, ◌∙◌, ap, inl, inr, List, [], ◌∷◌, ◌++◌, length, All,
  arith, ok, err, panic, none, some, append_assoc, map, take, drop, All-take, All-drop,
  take-append-drop, length-take, length-drop, get_range_past, le-or-lt, ◌==◌, if◌then◌else◌,
}
use rebuild_token_vesting.Base.Bytes.{
  Bytes, IsByte, to_le_bytes, from_le_bytes, to_le_bytes-from_le_bytes, from_le_bytes_bound,
}
use rebuild_token_vesting.Error.{invalid_instruction, custom, from}
use rebuild_token_vesting.State.Header.{IsPubkey}
use rebuild_token_vesting.State.Schedule.{VestingSchedule, IsSchedule}
use rebuild_token_vesting.State.Layout.{encode_schedule, encode_schedules}
use rebuild_token_vesting.State.Decoding.{decode_schedules}
use rebuild_token_vesting.Instruction.{
  Seeds, Schedule, init, create, unlock, change_destination, empty, unpack_seeds, unpack_u32,
  unpack_addr, unpack_init, unpack_create, unpack_unlock_or_change, unpack_empty, pack_schedules,
}
use rebuild_token_vesting.Instruction.Wire.{IsScheduleArg}
use rebuild_token_vesting.Instruction.RoundTrip.{
  unpack_seeds-append, unpack_addr-append, unpack_u32-append, unpack-wire_init, unpack-wire_create,
}

-- The first `n` of some bytes, and the rest.
record Split (n : ℕ) (s : Bytes) : Type 0 where
  front : Bytes
  rest : Bytes
  joined : s ≡ front ++ rest
  front_length : length front ≡ n
  rest_length : n + length rest ≡ length s
  front_bytes : All IsByte front
  rest_bytes : All IsByte rest

split : (n : ℕ) (s : Bytes) → All IsByte s → n ≤ length s → Split n s
split n s a h = record {
  front = take n s;
  rest = drop n s;
  joined = sym (take-append-drop n s);
  front_length = omega (arith, length-take n s);
  rest_length = omega (arith, length-drop n s);
  front_bytes = All-take IsByte n s a;
  rest_bytes = All-drop IsByte n s a;
}

abbrev key : {s : Bytes} (p : Split 32 s) → IsPubkey p.front
key p = record { size = p.front_length; bytes = p.front_bytes }

-- The four bytes of a `u32`.
small : (s : Bytes) (p : Split 4 s) → from_le_bytes p.front < 2 ^ 32
small s p = rw p.front_length at (from_le_bytes_bound p.front p.front_bytes)

written : (s : Bytes) (p : Split 4 s) → to_le_bytes 4 (from_le_bytes p.front) ≡ p.front
written s p = to_le_bytes-from_le_bytes 4 p.front p.front_length p.front_bytes

pub unpack_seeds_short : (rest : Bytes) → length rest < 32 → unpack_seeds rest 0 ≡ none
unfolding unpack_seeds
unpack_seeds_short rest h = get_range_past 0 32 rest h

unpack_seeds_long : (rest : Bytes) (p : Split 32 rest) → unpack_seeds rest 0 ≡ some p.front
unpack_seeds_long rest p =
    ap (λ s. unpack_seeds s 0) p.joined ∙ unpack_seeds-append p.front p.rest p.front_length

pub init_short : (rest : Bytes) → length rest < 32 → unpack_init rest ≡ panic
unfolding unpack_init
init_short rest h = rw (unpack_seeds_short rest h)

pub init_cut :
    (rest : Bytes)
    → All IsByte rest
    → 32 ≤ length rest
    → length rest < 36
    → unpack_init rest ≡ err (custom 0)
unfolding unpack_init unpack_u32 from
init_cut rest a h short =
    rw (unpack_seeds_long rest (split 32 rest a h), get_range_past 32 36 rest short)

pub init_whole :
    (rest : Bytes)
    → All IsByte rest
    → 36 ≤ length rest
    → (seeds : Seeds) × (n : ℕ) × (tail : Bytes) × IsPubkey seeds
      × (n < 2 ^ 32)
      × (rest ≡ seeds ++ (to_le_bytes 4 n ++ tail))
      × (unpack_init rest ≡ ok (init seeds n))
init_whole rest a h =
    let p : Split 32 rest = split 32 rest a (omega arith) in
    let q : Split 4 p.rest = split 4 p.rest p.rest_bytes (omega (arith, p.rest_length)) in
    let e : rest ≡ p.front ++ (to_le_bytes 4 (from_le_bytes q.front) ++ q.rest) =
      p.joined ∙ rw (written p.rest q) (ap (λ s. p.front ++ s) q.joined) in
    (
      p.front,
      from_le_bytes q.front,
      q.rest,
      key p,
      small p.rest q,
      e,
      ap unpack_init e
          ∙ unpack-wire_init p.front (from_le_bytes q.front) q.rest (key p) (small p.rest q),
    )

pub create_short : (rest : Bytes) → length rest < 32 → unpack_create rest ≡ panic
unfolding unpack_create
create_short rest h = rw (unpack_seeds_short rest h)

unpack_addr_short :
    (n : ℕ) (rest : Bytes) → length rest < n + 32 → unpack_addr rest n ≡ err invalid_instruction
unfolding unpack_addr
unpack_addr_short n rest h = rw (get_range_past n (n + 32) rest h)

unpack_addr_long :
    (rest : Bytes) (p : Split 32 rest) (q : Split 32 p.rest) → unpack_addr rest 32 ≡ ok q.front
unpack_addr_long rest p q =
    ap (λ s. unpack_addr s 32) (p.joined ∙ ap (λ s. p.front ++ s) q.joined)
    ∙ unpack_addr-append 32 p.front q.front q.rest p.front_length q.front_length

pub create_cut :
    (rest : Bytes)
    → All IsByte rest
    → 32 ≤ length rest
    → length rest < 96
    → unpack_create rest ≡ err (custom 0)
unfolding unpack_create from
create_cut rest a h short = elim (le-or-lt 64 (length rest)) [
  | inl mint ↦
      let p : Split 32 rest = split 32 rest a h in
      let q : Split 32 p.rest = split 32 p.rest p.rest_bytes (omega (arith, p.rest_length)) in
      rw (unpack_seeds_long rest p, unpack_addr_long rest p q, unpack_addr_short 64 rest short)
  | inr no_mint ↦ rw (unpack_seeds_long rest (split 32 rest a h), unpack_addr_short 32 rest no_mint)
]

-- A stored schedule as an argument of `Create`; both have the same 16 bytes.
abbrev arg_of : VestingSchedule → Schedule
arg_of s = record { release_time = s.release_time; amount = s.amount }

pack_schedules-arg_of :
    (ss : List VestingSchedule) → pack_schedules (map arg_of ss) ≡ encode_schedules ss
unfolding pack_schedules encode_schedules encode_schedule
pack_schedules-arg_of [] = refl
pack_schedules-arg_of (s ∷ ss) = rw (pack_schedules-arg_of ss) (
    sym
      (append_assoc (to_le_bytes 8 s.release_time) (to_le_bytes 8 s.amount) (encode_schedules ss)))

arg_of-IsScheduleArg :
    (ss : List VestingSchedule) → All IsSchedule ss → All IsScheduleArg (map arg_of ss)
arg_of-IsScheduleArg [] v = tt
arg_of-IsScheduleArg (s ∷ ss) v = (
  record { release_time_u64 = v.0.release_time_u64; amount_u64 = v.0.amount_u64 },
  arg_of-IsScheduleArg ss v.1,
)

-- Any bytes are the schedules of a `Create`, and less than one more.
decode_args :
    (bs : Bytes)
    → All IsByte bs
    → (ss : List Schedule) × (tail : Bytes) × (bs ≡ pack_schedules ss ++ tail)
      × (length tail < 16)
      × All IsScheduleArg ss
decode_args bs a =
    let (ss, tail, e, short, vs) = decode_schedules (length bs / 16) bs a refl in
    (map arg_of ss, tail, rw (pack_schedules-arg_of ss) e, short, arg_of-IsScheduleArg ss vs)

pub create_whole :
    (rest : Bytes)
    → All IsByte rest
    → 96 ≤ length rest
    → (seeds mint dest : Bytes) × (ss : List Schedule) × (tail : Bytes) × (IsPubkey seeds
        × IsPubkey mint
        × IsPubkey dest
        × All IsScheduleArg ss)
      × (length tail < 16)
      × (rest ≡ seeds ++ (mint ++ (dest ++ (pack_schedules ss ++ tail))))
      × (unpack_create rest ≡ ok (create seeds mint dest ss))
create_whole rest a h =
    let p : Split 32 rest = split 32 rest a (omega arith) in
    let q : Split 32 p.rest = split 32 p.rest p.rest_bytes (omega (arith, p.rest_length)) in
    let r : Split 32 q.rest =
      split 32 q.rest q.rest_bytes (omega (arith, p.rest_length, q.rest_length)) in
    let (ss, tail, e, short, vs) = decode_args r.rest r.rest_bytes in
    let whole : rest ≡ p.front ++ (q.front ++ (r.front ++ (pack_schedules ss ++ tail))) =
      p.joined
      ∙ ap (λ s. p.front ++ s)
          (q.joined ∙ ap (λ s. q.front ++ s) (r.joined ∙ ap (λ s. r.front ++ s) e)) in
    (
      p.front,
      q.front,
      r.front,
      ss,
      tail,
      (key p, key q, key r, vs),
      short,
      whole,
      ap unpack_create whole
          ∙ unpack-wire_create p.front q.front r.front ss tail (key p) (key q) (key r) vs short,
    )

pub unlock_or_change_short :
    (tag : ℕ) (rest : Bytes) → length rest < 32 → unpack_unlock_or_change tag rest ≡ panic
unfolding unpack_unlock_or_change
unlock_or_change_short tag rest h = rw (unpack_seeds_short rest h)

pub unlock_or_change_whole :
    (tag : ℕ) (rest : Bytes)
    → All IsByte rest
    → 32 ≤ length rest
    → (seeds : Seeds) × (tail : Bytes) × IsPubkey seeds
      × (rest ≡ seeds ++ tail)
      × (unpack_unlock_or_change tag rest
          ≡ ok (if tag == 2 then unlock seeds else change_destination seeds))
unfolding unpack_unlock_or_change
unlock_or_change_whole tag rest a h =
    let p : Split 32 rest = split 32 rest a h in
    (p.front, p.rest, key p, p.joined, rw (unpack_seeds_long rest p))

pub empty_short : (rest : Bytes) → length rest < 4 → unpack_empty rest ≡ panic
unfolding unpack_empty unpack_u32
empty_short rest h = rw (get_range_past 0 4 rest h)

pub empty_whole :
    (rest : Bytes)
    → All IsByte rest
    → 4 ≤ length rest
    → (n : ℕ) × (tail : Bytes) × (n < 2 ^ 32)
      × (rest ≡ to_le_bytes 4 n ++ tail)
      × (unpack_empty rest ≡ ok (empty n))
unfolding unpack_empty
empty_whole rest a h =
    let p : Split 4 rest = split 4 rest a h in
    let n : ℕ = from_le_bytes p.front in
    let e : rest ≡ to_le_bytes 4 n ++ p.rest = rw (written rest p) p.joined in
    (
      n,
      p.rest,
      small rest p,
      e,
      ap unpack_empty e ∙ rw (unpack_u32-append 0 n [] p.rest refl (small rest p)),
    )
