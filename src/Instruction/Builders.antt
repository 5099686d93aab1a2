-- ===== src/Instruction/Builders.antt =====
-- rs/src/instruction.rs: the functions by which a client builds the program's instructions.
use rebuild_token_vesting.Base.{ℕ, Bool, true, false, List, [], ◌∷◌, Result, ok}
use rebuild_token_vesting.Error.{ProgramError}
use rebuild_token_vesting.State.Header.{Pubkey}
use rebuild_token_vesting.Instruction
use rebuild_token_vesting.Instruction.{Seeds, pack}
use rebuild_token_vesting.Runtime.Calls
use rebuild_token_vesting.Runtime.Calls.{AccountMeta}

-- `AccountMeta::new` and `AccountMeta::new_readonly` of `solana_program`.
pub record Metas : Type 0 where
  pub new : Pubkey → Bool → AccountMeta
  pub new_readonly : Pubkey → Bool → AccountMeta

module _ (metas : Metas) where
  unfoldable pub init :
      Pubkey → Pubkey → Pubkey → Pubkey → Pubkey → Seeds → ℕ → Result ProgramError Calls.Instruction
  init system_program_id rent_program_id vesting_program_id payer_key vesting_account seeds
        number_of_schedules =
      let data' = pack (Instruction.init seeds number_of_schedules) in
      let accounts : List AccountMeta =
        metas.new_readonly system_program_id false
        ∷ metas.new_readonly rent_program_id false
        ∷ metas.new payer_key true
        ∷ metas.new vesting_account false
        ∷ [] in
      ok (record { program_id = vesting_program_id; accounts = accounts; input = data' })

  unfoldable pub create :
      Pubkey
      → Pubkey
      → Pubkey
      → Pubkey
      → Pubkey
      → Pubkey
      → Pubkey
      → Pubkey
      → List Instruction.Schedule
      → Seeds
      → Result ProgramError Calls.Instruction
  create vesting_program_id token_program_id vesting_account_key vesting_token_account_key
        source_token_account_owner_key source_token_account_key destination_token_account_key
        mint_address schedules seeds =
      let data' =
        pack (Instruction.create seeds mint_address destination_token_account_key schedules) in
      let accounts : List AccountMeta =
        metas.new_readonly token_program_id false
        ∷ metas.new vesting_account_key false
        ∷ metas.new vesting_token_account_key false
        ∷ metas.new_readonly source_token_account_owner_key true
        ∷ metas.new source_token_account_key false
        ∷ [] in
      ok (record { program_id = vesting_program_id; accounts = accounts; input = data' })

  unfoldable pub unlock :
      Pubkey
      → Pubkey
      → Pubkey
      → Pubkey
      → Pubkey
      → Pubkey
      → Seeds
      → Result ProgramError Calls.Instruction
  unlock vesting_program_id token_program_id clock_sysvar_id vesting_account_key
        vesting_token_account_key destination_token_account_key seeds =
      let data' = pack (Instruction.unlock seeds) in
      let accounts : List AccountMeta =
        metas.new_readonly token_program_id false
        ∷ metas.new_readonly clock_sysvar_id false
        ∷ metas.new vesting_account_key false
        ∷ metas.new vesting_token_account_key false
        ∷ metas.new destination_token_account_key false
        ∷ [] in
      ok (record { program_id = vesting_program_id; accounts = accounts; input = data' })

  unfoldable pub change_destination :
      Pubkey → Pubkey → Pubkey → Pubkey → Pubkey → Seeds → Result ProgramError Calls.Instruction
  change_destination vesting_program_id vesting_account_key current_destination_token_account_owner
        current_destination_token_account target_destination_token_account seeds =
      let data' = pack (Instruction.change_destination seeds) in
      let accounts : List AccountMeta =
        metas.new vesting_account_key false
        ∷ metas.new_readonly current_destination_token_account false
        ∷ metas.new_readonly current_destination_token_account_owner true
        ∷ metas.new_readonly target_destination_token_account false
        ∷ [] in
      ok (record { program_id = vesting_program_id; accounts = accounts; input = data' })
