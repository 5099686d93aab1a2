-- ===== src/Fuzz/Harness.antt =====
-- rs/hfuzz/src/vesting_fuzz.rs: the instructions that `run_fuzz_ix` makes of a random input.
use rebuild_token_vesting.Base.{
  ℕ, ◌+◌, Bool, none, List, [], ◌∷◌, ◌++◌, length, take, drop, leb, ltb, if◌then◌else◌, Result, ok,
  panic, ◌>>=◌, unwrap_result,
}
use rebuild_token_vesting.Base.Bytes.{Bytes, to_le_bytes}
use rebuild_token_vesting.Error.{ProgramError}
use rebuild_token_vesting.State.Header.{Pubkey}
use rebuild_token_vesting.Instruction
use rebuild_token_vesting.Instruction.{
  Seeds, VestingInstruction, init, create, unlock, change_destination, empty,
}
use rebuild_token_vesting.Instruction.Builders
use rebuild_token_vesting.Runtime.Calls
use rebuild_token_vesting.Fuzz.Outside.{Outside}
use rebuild_token_vesting.Fuzz.Keys.{AccountId}

pub record FuzzInstruction : Type 0 where
  pub instruction : VestingInstruction
  pub amount : ℕ
  pub seeds : Seeds
  pub vesting_account_key : AccountId
  pub vesting_token_account_key : AccountId
  pub source_token_account_owner_key : AccountId
  pub source_token_account_key : AccountId
  pub source_token_amount : ℕ
  pub destination_token_owner_key : AccountId
  pub destination_token_key : AccountId
  pub new_destination_token_key : AccountId
  pub mint_key : AccountId
  pub schedules : List Instruction.Schedule
  pub payer_key : AccountId
  pub vesting_program_account : AccountId
  pub number_of_schedules : ℕ
  pub correct_inputs : Bool

-- `a[i] = b` on an array.
unfoldable pub assign_at : Bytes → ℕ → ℕ → Result ProgramError Bytes
assign_at a i b = if ltb i (length a) then ok (take i a ++ (b ∷ drop (i + 1) a)) else panic

-- `s[..n]`
unfoldable pub slice_to : {A : Type 0} → List A → ℕ → Result ProgramError (List A)
slice_to s n = if leb n (length s) then ok (take n s) else panic

-- `n.min(len.try_into().unwrap_or(u8::MAX))`
unfoldable pub used_schedules : ℕ → ℕ → ℕ
used_schedules n len =
    let len_u8 : ℕ = if ltb len 256 then len else 255 in if leb n len_u8 then n else len_u8

module _ (o : Outside) where
  pub record TokenVestingEnv : Type 0 where
    pub system_program_id : Pubkey
    pub token_program_id : Pubkey
    pub clock_program_id : Pubkey
    pub rent_program_id : Pubkey
    pub vesting_program_id : Pubkey
    pub mint_authority_keypair : o.Keypair

  unfoldable pub clone_keypair : o.Keypair → Result ProgramError o.Keypair
  clone_keypair keypair = unwrap_result (o.from_bytes (o.to_bytes keypair))

  unfoldable pub prepare_dummy_empty_ix : Pubkey → Calls.Instruction
  prepare_dummy_empty_ix program_id = o.new_with_bytes program_id (4 ∷ to_le_bytes 4 32) []

  unfoldable pub mint_init_instruction :
      o.Keypair → o.Keypair → o.Keypair → Result ProgramError (List Calls.Instruction)
  mint_init_instruction payer mint mint_authority = do
    init_mint ←
        unwrap_result
          (o.initialize_mint o.spl_token_id (o.pubkey mint) (o.pubkey mint_authority) none 0)
    ok (
        o.create_account (o.pubkey payer) (o.pubkey mint) (o.minimum_balance 82) 82 o.spl_token_id
        ∷ init_mint
        ∷ [])

  unfoldable pub create_fuzzinstruction :
      TokenVestingEnv
      → FuzzInstruction
      → o.Keypair
      → Pubkey
      → o.Keypair
      → Pubkey
      → Pubkey
      → Pubkey
      → Pubkey
      → Seeds
      → o.Keypair
      → ℕ
      → Result ProgramError (List Calls.Instruction)
  unfolding mint_init_instruction used_schedules slice_to
  create_fuzzinstruction env ix payer correct_source_token_account_key
        source_token_account_owner_key destination_token_key destination_token_owner_key
        correct_vesting_account_key correct_vesting_token_key correct_seeds mint_key source_amount =
      do
        mint_instructions ← mint_init_instruction payer mint_key env.mint_authority_keypair
        setup_instruction ← unwrap_result (
            o.mint_to o.spl_token_id (o.pubkey mint_key) correct_source_token_account_key
              (o.pubkey env.mint_authority_keypair) [] source_amount)
        schedules ←
            slice_to ix.schedules (used_schedules ix.number_of_schedules (length ix.schedules))
        create_instruction ← unwrap_result (
            Builders.create o.metas env.vesting_program_id env.token_program_id
              correct_vesting_account_key correct_vesting_token_key
              (o.pubkey source_token_account_owner_key) correct_source_token_account_key
              destination_token_key (o.pubkey mint_key) schedules correct_seeds)
        ok (
            mint_instructions
            ++ (o.create_associated_token_account (o.pubkey payer)
                  (o.pubkey source_token_account_owner_key) (o.pubkey mint_key)
                ∷ o.create_associated_token_account (o.pubkey payer) correct_vesting_account_key
                    (o.pubkey mint_key)
                ∷ o.create_associated_token_account (o.pubkey payer) destination_token_owner_key
                    (o.pubkey mint_key)
                ∷ setup_instruction
                ∷ create_instruction
                ∷ []))

  -- The arms of `run_fuzz_ix` for correct inputs, once the keys are derived.
  unfoldable pub run_correct :
      TokenVestingEnv
      → FuzzInstruction
      → o.Keypair
      → o.Keypair
      → o.Keypair
      → o.Keypair
      → Pubkey
      → Pubkey
      → Pubkey
      → Pubkey
      → Seeds
      → VestingInstruction
      → Result ProgramError (List Calls.Instruction × List o.Keypair)
  unfolding create_fuzzinstruction clone_keypair prepare_dummy_empty_ix
  run_correct env ix correct_payer mint_key source_owner destination_owner destination_token_key
        vesting_key vesting_token_key source_token_key correct_seeds (init seeds n) =
      do
        init_ix ← unwrap_result (
            Builders.init o.metas env.system_program_id env.rent_program_id env.vesting_program_id
              (o.pubkey correct_payer) vesting_key correct_seeds ix.number_of_schedules)
        ok (init_ix ∷ [], [])
  run_correct env ix correct_payer mint_key source_owner destination_owner destination_token_key
        vesting_key vesting_token_key source_token_key correct_seeds (create seeds mint dest ss) =
      do
        init_ix ← unwrap_result (
            Builders.init o.metas env.system_program_id env.rent_program_id env.vesting_program_id
              (o.pubkey correct_payer) vesting_key correct_seeds ix.number_of_schedules)
        create_instructions ←
            create_fuzzinstruction env ix correct_payer source_token_key source_owner
              destination_token_key (o.pubkey destination_owner) vesting_key vesting_token_key
              correct_seeds mint_key ix.source_token_amount
        mint ← clone_keypair mint_key
        authority ← clone_keypair env.mint_authority_keypair
        owner ← clone_keypair source_owner
        ok (init_ix ∷ create_instructions, mint ∷ authority ∷ owner ∷ [])
  run_correct env ix correct_payer mint_key source_owner destination_owner destination_token_key
        vesting_key vesting_token_key source_token_key correct_seeds (empty n) =
      ok (prepare_dummy_empty_ix env.vesting_program_id ∷ [], [])
  run_correct env ix correct_payer mint_key source_owner destination_owner destination_token_key
        vesting_key vesting_token_key source_token_key correct_seeds (unlock seeds) =
      ok ([], [])
  run_correct env ix correct_payer mint_key source_owner destination_owner destination_token_key
        vesting_key vesting_token_key source_token_key correct_seeds (change_destination seeds) =
      ok ([], [])

  -- The arms for wrong inputs.
  unfoldable pub run_wrong :
      TokenVestingEnv
      → FuzzInstruction
      → Pubkey
      → o.Keypair
      → VestingInstruction
      → Result ProgramError (List Calls.Instruction × List o.Keypair)
  run_wrong env ix vesting_account_key payer_key (init seeds n) = do
    init_ix ← unwrap_result (
        Builders.init o.metas env.system_program_id env.rent_program_id env.vesting_program_id
          (o.pubkey payer_key) vesting_account_key ix.seeds ix.number_of_schedules)
    ok (init_ix ∷ [], [])
  run_wrong env ix vesting_account_key payer_key (create seeds mint dest ss) = ok ([], [])
  run_wrong env ix vesting_account_key payer_key (unlock seeds) = ok ([], [])
  run_wrong env ix vesting_account_key payer_key (change_destination seeds) = ok ([], [])
  run_wrong env ix vesting_account_key payer_key (empty n) = ok ([], [])

  unfoldable pub run_fuzz_ix :
      TokenVestingEnv
      → FuzzInstruction
      → o.Keypair
      → o.Keypair
      → Pubkey
      → Pubkey
      → o.Keypair
      → o.Keypair
      → Pubkey
      → Pubkey
      → o.Keypair
      → Result ProgramError (List Calls.Instruction × List o.Keypair)
  unfolding run_correct run_wrong assign_at
  run_fuzz_ix env ix correct_payer mint_key vesting_account_key _vesting_token_account_key
        source_owner destination_owner destination_token_key _new_destination_token_key payer_key =
      if ix.correct_inputs
      then (do
        prefix ← slice_to ix.seeds 31
        (correct_vesting_key, bump) ← o.find_program_address (prefix ∷ []) env.vesting_program_id
        correct_seeds ← assign_at ix.seeds 31 bump
        run_correct env ix correct_payer mint_key source_owner destination_owner
            destination_token_key correct_vesting_key
            (o.get_associated_token_address correct_vesting_key (o.pubkey mint_key))
            (o.get_associated_token_address (o.pubkey source_owner) (o.pubkey mint_key))
            correct_seeds ix.instruction)
      else run_wrong env ix vesting_account_key payer_key ix.instruction
