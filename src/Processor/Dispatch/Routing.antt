-- ===== src/Processor/Dispatch/Routing.antt =====
-- Which handler `process_instruction` (rs/src/processor.rs) runs on the bytes of an instruction.
use rebuild_token_vesting.Base.{ℕ, ◌≡◌, refl, ◌∙◌, List, ◌++◌, All, Result, ok, err, panic, arith}
use rebuild_token_vesting.Base.Bytes.{Bytes, IsByte}
use rebuild_token_vesting.Error.{ProgramError, custom}
use rebuild_token_vesting.State.Header.{Pubkey}
use rebuild_token_vesting.Instruction.{
  Seeds, Schedule, VestingInstruction, init, create, unlock, change_destination, empty, pack,
}
use rebuild_token_vesting.Instruction.Wire.{IsInstruction, IsTrailing, IsPackable, wire}
use rebuild_token_vesting.Instruction.RoundTrip.{unpack-pack, unpack-wire}
use rebuild_token_vesting.Instruction.Unpack.{
  IsMalformed, IsCut, Verdict, reads, rejects, panics, unpack-Verdict,
}
use rebuild_token_vesting.Runtime.Action.{World, AccountInfo}
use rebuild_token_vesting.Runtime.Calls.{Runtime}
use rebuild_token_vesting.Processor.Init.{process_init}
use rebuild_token_vesting.Processor.Create.{process_create}
use rebuild_token_vesting.Processor.Unlock.{process_unlock}
use rebuild_token_vesting.Processor.ChangeDestination.{process_change_destination}
use rebuild_token_vesting.Processor.Dispatch.{run_instruction, process_instruction, entrypoint}

module _ (rt : Runtime) (program_id : Pubkey) (accounts : List AccountInfo) (w : World) where
  -- The entry point answers what the handler answers.
  entrypoint-eq :
      (input : Bytes)
      → entrypoint rt program_id accounts input w
        ≡ process_instruction rt program_id accounts input w
  unfolding entrypoint
  entrypoint-eq input = go (process_instruction rt program_id accounts input w) refl
    where
      go :
          (p : Result ProgramError (Unit {0}) × World)
          → process_instruction rt program_id accounts input w ≡ p
          → entrypoint rt program_id accounts input w ≡ p
      go (ok tt, w1) h = ground (arith, h)
      go (err x, w1) h = ground (arith, h)
      go (panic, w1) h = ground (arith, h)

  -- The input is the byte form of the instruction, whose fields are in range, with bytes behind it
  -- that are not read.
  abbrev pub Reads : Bytes → VestingInstruction → Type 0
  Reads input i = (tail : Bytes) × IsInstruction i × IsTrailing i tail × (input ≡ wire i ++ tail)

  -- What the entry point does with the input: the handler that each instruction reaches, with the
  -- program, the accounts and the fields that were read.
  pub data Routed (input : Bytes) : Type 0 where
    runs_init :
        (seeds : Seeds) (number_of_schedules : ℕ)
        → Reads input (init seeds number_of_schedules)
        → entrypoint rt program_id accounts input w
          ≡ process_init rt program_id accounts seeds number_of_schedules w
        → Routed input
    runs_create :
        (seeds : Seeds) (token_mint_addr token_dest_addr : Pubkey) (schedules : List Schedule)
        → Reads input (create seeds token_mint_addr token_dest_addr schedules)
        → entrypoint rt program_id accounts input w
          ≡ process_create rt program_id accounts seeds token_mint_addr token_dest_addr schedules w
        → Routed input
    runs_unlock :
        (seeds : Seeds)
        → Reads input (unlock seeds)
        → entrypoint rt program_id accounts input w ≡ process_unlock rt program_id accounts seeds w
        → Routed input
    runs_change_destination :
        (seeds : Seeds)
        → Reads input (change_destination seeds)
        → entrypoint rt program_id accounts input w
          ≡ process_change_destination rt program_id accounts seeds w
        → Routed input
    does_nothing :
        (number : ℕ)
        → Reads input (empty number)
        → entrypoint rt program_id accounts input w ≡ (ok tt, w)
        → Routed input
    refuses :
        IsMalformed input
        → entrypoint rt program_id accounts input w ≡ (err (custom 0), w)
        → Routed input
    stops : IsCut input → entrypoint rt program_id accounts input w ≡ (panic, w) → Routed input

  -- The match on the decoded instruction, case by case.
  run_instruction-Routed :
      (input : Bytes) (i : VestingInstruction)
      → Reads input i
      → entrypoint rt program_id accounts input w ≡ run_instruction rt program_id accounts i w
      → Routed input
  unfolding run_instruction
  run_instruction-Routed input (init seeds n) r e = runs_init seeds n r e
  run_instruction-Routed input (create seeds mint dest ss) r e = runs_create seeds mint dest ss r e
  run_instruction-Routed input (unlock seeds) r e = runs_unlock seeds r e
  run_instruction-Routed input (change_destination seeds) r e = runs_change_destination seeds r e
  run_instruction-Routed input (empty number) r e = does_nothing number r e

  -- On any bytes the entry point does one of these. On an input that begins with the byte form of
  -- an Init, Create, Unlock or ChangeDestination with fields in range it answers what
  -- `process_init`, `process_create`, `process_unlock` or `process_change_destination` answers on
  -- the same accounts with those fields. On one that begins with the byte form of an Empty it
  -- succeeds and changes nothing. It answers `InvalidInstruction` on a malformed input, and panics
  -- on one that is cut inside its first field; in these two cases no account changes.
  pub entrypoint_routes : (input : Bytes) → All IsByte input → Routed input
  unfolding process_instruction
  entrypoint_routes input a = go (unpack-Verdict input a)
    where
      go : Verdict input → Routed input
      go (reads i tail v t e done) =
          run_instruction-Routed input i (tail, v, t, e)
            (entrypoint-eq input ∙ ground (arith, done))
      go (rejects bad done) = refuses bad (entrypoint-eq input ∙ ground (arith, done))
      go (panics cut done) = stops cut (entrypoint-eq input ∙ ground (arith, done))

  -- The bytes that `pack` makes of an instruction with fields in range, other than `Empty`, reach
  -- the handler of that instruction, with its fields.
  pub entrypoint-pack :
      (i : VestingInstruction)
      → IsInstruction i
      → IsPackable i
      → entrypoint rt program_id accounts (pack i) w ≡ run_instruction rt program_id accounts i w
  unfolding process_instruction
  entrypoint-pack i v p = entrypoint-eq (pack i) ∙ ground (arith, unpack-pack i v p)

  -- So do the bytes of any instruction with fields in range, whatever follows that is not read.
  pub entrypoint-wire :
      (i : VestingInstruction) (tail : Bytes)
      → IsInstruction i
      → IsTrailing i tail
      → entrypoint rt program_id accounts (wire i ++ tail) w
        ≡ run_instruction rt program_id accounts i w
  unfolding process_instruction
  entrypoint-wire i tail v t =
      entrypoint-eq (wire i ++ tail) ∙ ground (arith, unpack-wire i tail v t)
