-- ===== src/Processor/Dispatch.antt =====
-- rs/src/processor.rs: `Processor::process_instruction`, and the program's entry point in
-- rs/src/entrypoint.rs.
pub mod Clients
pub mod Routing
use rebuild_token_vesting.Base.{List, ok, err, panic}
use rebuild_token_vesting.Base.Bytes.{Bytes}
use rebuild_token_vesting.State.Header.{Pubkey}
use rebuild_token_vesting.Instruction.{
  VestingInstruction, init, create, unlock, change_destination, empty, unpack,
}
use rebuild_token_vesting.Runtime.Action.{Action, AccountInfo, ◌>>=◌, pure, lift}
use rebuild_token_vesting.Runtime.Calls.{Runtime}
use rebuild_token_vesting.Processor.Init.{process_init}
use rebuild_token_vesting.Processor.Create.{process_create}
use rebuild_token_vesting.Processor.Unlock.{process_unlock}
use rebuild_token_vesting.Processor.ChangeDestination.{process_change_destination}

module _ (rt : Runtime) (program_id : Pubkey) where
  -- The match on the decoded instruction.
  unfoldable pub run_instruction : List AccountInfo → VestingInstruction → Action (Unit {0})
  run_instruction accounts (empty number) = pure tt
  run_instruction accounts (init seeds number_of_schedules) =
      process_init rt program_id accounts seeds number_of_schedules
  run_instruction accounts (create seeds token_mint_addr token_dest_addr schedules) =
      process_create rt program_id accounts seeds token_mint_addr token_dest_addr schedules
  run_instruction accounts (unlock seeds) = process_unlock rt program_id accounts seeds
  run_instruction accounts (change_destination seeds) =
      process_change_destination rt program_id accounts seeds

  unfoldable pub process_instruction : List AccountInfo → Bytes → Action (Unit {0})
  unfolding run_instruction
  process_instruction accounts instruction_data = do
    instruction ← lift (unpack instruction_data)
    run_instruction accounts instruction

  -- The entry point logs an error and returns it.
  unfoldable pub entrypoint : List AccountInfo → Bytes → Action (Unit {0})
  unfolding process_instruction
  entrypoint accounts instruction_data w =
      let (result, w') = process_instruction accounts instruction_data w in
      elim result [ ok u ↦ (ok tt, w') | err e ↦ (err e, w') | panic ↦ (panic, w') ]
