-- ===== src/Examples/InstructionTests.antt =====
-- The byte forms of rs/src/instruction.rs on concrete values.
use rebuild_token_vesting.Base.{◌≡◌, ◌↔◌, ◌∷◌, ◌++◌, All, arith, ok, panic}
use rebuild_token_vesting.Base.Bytes.{IsByte}
use rebuild_token_vesting.Instruction.{VestingInstruction, create, unlock, unpack, pack}
use rebuild_token_vesting.Instruction.Wire.{wire}
use rebuild_token_vesting.Instruction.RoundTrip.{unpack-wire, unpack-pack}
use rebuild_token_vesting.Instruction.Unpack.{Verdict, IsCut, unpack-Verdict}
use rebuild_token_vesting.Instruction.Decoding.{unpack-eq-panic}
use rebuild_token_vesting.Examples.Chain.{repeated, key_of}
use rebuild_token_vesting.Examples.Scene.{
  schedule_args, args-IsScheduleArg, key_of-IsPubkey, repeated-IsByte,
}

abbrev creation_sent : VestingInstruction
creation_sent = create (key_of 2) (key_of 11) (key_of 6) schedule_args

unpack-pack_example : unpack (pack creation_sent) ≡ ok creation_sent
unpack-pack_example =
    unpack-pack creation_sent
      (
        key_of-IsPubkey 2 (omega arith),
        key_of-IsPubkey 11 (omega arith),
        key_of-IsPubkey 6 (omega arith),
        args-IsScheduleArg,
      )
      tt

short_unlock : All IsByte (2 ∷ repeated 31 5)
short_unlock = (omega arith, repeated-IsByte 31 5 (omega arith))

unpack-Verdict_example : Verdict (2 ∷ repeated 31 5)
unpack-Verdict_example = unpack-Verdict (2 ∷ repeated 31 5) short_unlock

unpack-eq-panic_example : (unpack (2 ∷ repeated 31 5) ≡ panic) ↔ IsCut (2 ∷ repeated 31 5)
unpack-eq-panic_example = unpack-eq-panic (2 ∷ repeated 31 5) short_unlock

unlock_read : unpack (2 ∷ (key_of 2 ++ repeated 2 5)) ≡ ok (unlock (key_of 2))
unfolding wire
unlock_read = unpack-wire (unlock (key_of 2)) (repeated 2 5) (key_of-IsPubkey 2 (omega arith)) tt
