-- ===== src/Fuzz/Run.antt =====
-- rs/hfuzz/src/vesting_fuzz.rs: `run_fuzz_instructions`, the keys it draws for a row of random inputs,
-- the one transaction it makes of them, and the errors it lets pass.
use rebuild_token_vesting.Base.{
  ℕ, ◌==◌, some, List, [], ◌∷◌, ◌++◌, Bool, true, false, if◌then◌else◌, Result, ok, err, panic,
  ◌>>=◌, unwrap,
}
use rebuild_token_vesting.Error.{ProgramError}
use rebuild_token_vesting.State.Header.{Pubkey}
use rebuild_token_vesting.Runtime.Calls
use rebuild_token_vesting.Fuzz.Outside.{
  Outside, InstructionError, invalid_argument, invalid_instruction_data, invalid_account_data,
  insufficient_funds, account_already_initialized, invalid_seeds, custom, other, instruction_error,
  signature_failure, invalid_account_for_fee, insufficient_funds_for_fee, other_error,
  TransportError, transaction_error, other_transport,
}
use rebuild_token_vesting.Fuzz.Keys.{KeyMap, get, or_insert_with}
use rebuild_token_vesting.Fuzz.Harness.{FuzzInstruction, TokenVestingEnv, run_fuzz_ix}

module _ (o : Outside) where
  -- The maps, and the number of keys drawn so far.
  pub record KeyMaps : Type 0 where
    pub vesting_account_keys : KeyMap Pubkey
    pub vesting_token_account_keys : KeyMap Pubkey
    pub source_token_account_owner_keys : KeyMap o.Keypair
    pub destination_token_owner_keys : KeyMap o.Keypair
    pub destination_token_keys : KeyMap Pubkey
    pub new_destination_token_keys : KeyMap Pubkey
    pub mint_keys : KeyMap o.Keypair
    pub payer_keys : KeyMap o.Keypair
    pub drawn : ℕ

  abbrev pub no_keys : KeyMaps
  no_keys = record {
    vesting_account_keys = [];
    vesting_token_account_keys = [];
    source_token_account_owner_keys = [];
    destination_token_owner_keys = [];
    destination_token_keys = [];
    new_destination_token_keys = [];
    mint_keys = [];
    payer_keys = [];
    drawn = 0;
  }

  -- The eight `entry` calls of a round.
  unfoldable pub add_keys : FuzzInstruction → KeyMaps → KeyMaps
  unfolding or_insert_with
  add_keys ix maps =
      let (vesting_account_keys, n1) =
        or_insert_with o.new_unique ix.vesting_account_key maps.vesting_account_keys maps.drawn in
      let (vesting_token_account_keys, n2) =
        or_insert_with o.new_unique ix.vesting_token_account_key maps.vesting_token_account_keys
          n1 in
      let (source_token_account_owner_keys, n3) =
        or_insert_with o.new_keypair ix.source_token_account_owner_key
          maps.source_token_account_owner_keys n2 in
      let (destination_token_owner_keys, n4) =
        or_insert_with o.new_keypair ix.destination_token_owner_key
          maps.destination_token_owner_keys n3 in
      let (destination_token_keys, n5) =
        or_insert_with o.new_unique ix.destination_token_key maps.destination_token_keys n4 in
      let (new_destination_token_keys, n6) =
        or_insert_with o.new_unique ix.new_destination_token_key maps.new_destination_token_keys
          n5 in
      let (mint_keys, n7) = or_insert_with o.new_keypair ix.mint_key maps.mint_keys n6 in
      let (payer_keys, n8) = or_insert_with o.new_keypair ix.payer_key maps.payer_keys n7 in
      record {
        vesting_account_keys = vesting_account_keys;
        vesting_token_account_keys = vesting_token_account_keys;
        source_token_account_owner_keys = source_token_account_owner_keys;
        destination_token_owner_keys = destination_token_owner_keys;
        destination_token_keys = destination_token_keys;
        new_destination_token_keys = new_destination_token_keys;
        mint_keys = mint_keys;
        payer_keys = payer_keys;
        drawn = n8;
      }

  -- The call of `run_fuzz_ix` with the keys that the maps have.
  unfoldable pub run_with_keys :
      TokenVestingEnv o
      → o.Keypair
      → FuzzInstruction
      → KeyMaps
      → Result ProgramError (List Calls.Instruction × List o.Keypair)
  unfolding get
  run_with_keys env correct_payer ix maps = do
    mint_key ← unwrap (get ix.mint_key maps.mint_keys)
    vesting_account_key ← unwrap (get ix.vesting_account_key maps.vesting_account_keys)
    vesting_token_account_key ←
        unwrap (get ix.vesting_token_account_key maps.vesting_token_account_keys)
    source_owner ←
        unwrap (get ix.source_token_account_owner_key maps.source_token_account_owner_keys)
    destination_owner ←
        unwrap (get ix.destination_token_owner_key maps.destination_token_owner_keys)
    destination_token_key ← unwrap (get ix.destination_token_key maps.destination_token_keys)
    new_destination_token_key ←
        unwrap (get ix.new_destination_token_key maps.new_destination_token_keys)
    payer_key ← unwrap (get ix.payer_key maps.payer_keys)
    run_fuzz_ix o env ix correct_payer mint_key vesting_account_key vesting_token_account_key
        source_owner destination_owner destination_token_key new_destination_token_key payer_key

  -- The loop: `global_output_ixs` and `global_signer_keys` behind the remaining inputs.
  unfoldable pub collect :
      TokenVestingEnv o
      → o.Keypair
      → List FuzzInstruction
      → KeyMaps
      → List Calls.Instruction
      → List o.Keypair
      → Result ProgramError (List Calls.Instruction × List o.Keypair)
  unfolding add_keys run_with_keys
  collect env correct_payer [] maps output_ixs signer_keys = ok (output_ixs, signer_keys)
  collect env correct_payer (ix ∷ rest) maps output_ixs signer_keys = do
    (output_ix, signers) ← run_with_keys env correct_payer ix (add_keys ix maps)
    collect env correct_payer rest (add_keys ix maps) (output_ixs ++ output_ix)
        (signer_keys ++ signers)

-- The errors of an instruction that pass.
unfoldable pub tolerates_instruction : InstructionError → Bool
tolerates_instruction invalid_argument = true
tolerates_instruction invalid_instruction_data = true
tolerates_instruction invalid_account_data = true
tolerates_instruction insufficient_funds = true
tolerates_instruction account_already_initialized = true
tolerates_instruction invalid_seeds = true
tolerates_instruction (custom n) = n == 0
tolerates_instruction (other n) = false

unfoldable pub tolerates : TransportError → Bool
unfolding tolerates_instruction
tolerates (transaction_error (instruction_error i ie)) = tolerates_instruction ie
tolerates (transaction_error signature_failure) = true
tolerates (transaction_error invalid_account_for_fee) = true
tolerates (transaction_error insufficient_funds_for_fee) = true
tolerates (transaction_error (other_error n)) = false
tolerates (other_transport n) = false

-- `unwrap_or_else` on the bank's answer.
unfoldable pub check_result : Result TransportError (Unit {0}) → Result ProgramError (Unit {0})
unfolding tolerates
check_result (ok u) = ok tt
check_result (err e) = if tolerates e then ok tt else panic
check_result panic = panic

module _ (o : Outside) where
  unfoldable pub run_fuzz_instructions :
      TokenVestingEnv o → o.Keypair → o.Hash → List FuzzInstruction → Result ProgramError (Unit {0})
  unfolding collect check_result
  run_fuzz_instructions env correct_payer recent_blockhash fuzz_instructions = do
    (output_ixs, signer_keys) ← collect o env correct_payer fuzz_instructions (no_keys o) [] []
    tx ←
        o.partial_sign (o.new_with_payer output_ixs (some (o.pubkey correct_payer)))
          (correct_payer ∷ signer_keys) recent_blockhash
    check_result (o.process_transaction tx)
