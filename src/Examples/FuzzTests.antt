-- ===== src/Examples/FuzzTests.antt =====
-- rs/hfuzz/src/vesting_fuzz.rs and the random instructions of rs/src/instruction.rs on the small bank.
use rebuild_token_vesting.Base.Bytes.{Bytes}
use rebuild_token_vesting.Base.{
  ℕ, ◌+◌, ◌*◌, ◌≤◌, ◌≡◌, ◌↔◌, refl, sym, ap, ◌∙◌, length, Bool, true, false, List, [], ◌∷◌, ◌++◌,
  All, All-append, here, Result, ok, err, bytes_eq, arith,
}
use rebuild_token_vesting.Error.{ProgramError}
use rebuild_token_vesting.State.Header.{Pubkey}
use rebuild_token_vesting.Instruction
use rebuild_token_vesting.Instruction.{
  Seeds, VestingInstruction, init, create, unlock, change_destination, empty, pack, unpack,
}
use rebuild_token_vesting.Instruction.Builders
use rebuild_token_vesting.Instruction.Wire.{IsScheduleArg, IsInstruction}
use rebuild_token_vesting.Runtime.Calls
use rebuild_token_vesting.Processor.Init.{state_size}
use rebuild_token_vesting.Processor.Dispatch.Clients.{listed, submit, submit-create}
use rebuild_token_vesting.Fuzz.Outside.{transaction_error, signature_failure}
use rebuild_token_vesting.Fuzz.Harness.{FuzzInstruction, TokenVestingEnv, run_fuzz_ix}
use rebuild_token_vesting.Fuzz.Run.{no_keys, collect, run_fuzz_instructions}
use rebuild_token_vesting.Fuzz.Promises.{correct_init_iff}
use rebuild_token_vesting.Fuzz.Mismatch.{correct_create_needs}
use rebuild_token_vesting.Fuzz.Signatures.{all_keys}
use rebuild_token_vesting.Fuzz.Unsigned.{FreshKeys, wrong_init_skips}
use rebuild_token_vesting.Fuzz.Outcome.{Passes, run_fuzz_instructions_iff}
use rebuild_token_vesting.Fuzz.Arbitrary.{
  Draws, DrawsInRange, arbitrary, IsDrawn, arbitrary-IsDrawn,
}
use rebuild_token_vesting.Examples.Chain.{chain, chain-NextAccount, key_of, token_program}
use rebuild_token_vesting.Examples.Scene.{
  program, schedule_args, blank, args-IsScheduleArg, key_of-IsPubkey, other_keys,
}
use rebuild_token_vesting.Examples.EntryTests.{metas, metas-MetaFields}
use rebuild_token_vesting.Examples.CreateTests.{created_world, creation_listed}
use rebuild_token_vesting.Examples.FuzzScene.{
  bank, note, find, bank-KeypairBytes, bank-TokenInstructions, bank-FindsDerived,
  bank-ChecksSignatures,
}

abbrev env : TokenVestingEnv bank
env = record {
  system_program_id = key_of 13;
  token_program_id = token_program;
  clock_program_id = key_of 10;
  rent_program_id = key_of 14;
  vesting_program_id = program;
  mint_authority_keypair = key_of 40;
}

abbrev input_of : VestingInstruction → Bool → FuzzInstruction
input_of i correct = record {
  instruction = i;
  amount = 0;
  seeds = key_of 2;
  vesting_account_key = 1;
  vesting_token_account_key = 1;
  source_token_account_owner_key = 1;
  source_token_account_key = 1;
  source_token_amount = 200;
  destination_token_owner_key = 1;
  destination_token_key = 1;
  new_destination_token_key = 1;
  mint_key = 1;
  schedules = schedule_args;
  payer_key = 1;
  vesting_program_account = 1;
  number_of_schedules = 2;
  correct_inputs = correct;
}

correct_init_iff_example :
    (init_ix : Calls.Instruction) × (run_fuzz_ix bank env
        (input_of (init (key_of 0) 9) true)
        (key_of 4)
        (key_of 11)
        (key_of 20)
        (key_of 21)
        (key_of 4)
        (key_of 7)
        (key_of 6)
        (key_of 8)
        (key_of 30)
      ≡ ok (init_ix ∷ [], []))
    × ((submit chain (ok init_ix) blank ≡ (ok tt, blank)) ↔ (
        chain.invoke_signed
          (chain.create_account (key_of 4) (key_of 2) (state_size 2 * 10) (state_size 2) program)
          (listed (key_of 13) false false
            ∷ listed (key_of 4) true true
            ∷ listed (key_of 2) false true
            ∷ [])
          ((key_of 2 ∷ []) ∷ [])
          blank
        ≡ (ok tt, blank)))
unfolding find
correct_init_iff_example =
    correct_init_iff bank chain chain-NextAccount metas-MetaFields bank-FindsDerived env
      (input_of (init (key_of 0) 9) true) (key_of 4) (key_of 11) (key_of 20) (key_of 21) (key_of 4)
      (key_of 7) (key_of 6) (key_of 8) (key_of 30) (key_of 2) 2 refl
      (key_of-IsPubkey 2 (omega arith)) (omega arith) refl (key_of 0) 9 blank blank (λ n. n * 10)
      refl refl

bank-Fresh : FreshKeys bank env (key_of 4) 8
bank-Fresh = record {
  drawn = λ i j hi hj other. other_keys (50 + i) (50 + j) (λ e. other (omega arith));
  authority = λ i h. other_keys 40 (50 + i) (λ e. omega arith);
  payer = λ i h. other_keys 4 (50 + i) (λ e. omega arith);
}

abbrev wrong_inputs : List FuzzInstruction
wrong_inputs = input_of (init (key_of 0) 9) false ∷ []

abbrev wrong_ix : Calls.Instruction
wrong_ix = record {
  program_id = program;
  accounts =
      record { pubkey = key_of 13; is_signer = false; is_writable = false }
      ∷ record { pubkey = key_of 14; is_signer = false; is_writable = false }
      ∷ record { pubkey = key_of 57; is_signer = true; is_writable = true }
      ∷ record { pubkey = key_of 100; is_signer = false; is_writable = true }
      ∷ [];
  input = pack (init (key_of 2) 2);
}

wrong_init_skips_example :
    (bank.process_transaction (wrong_ix ∷ [], key_of 4 ∷ [])
      ≡ err (transaction_error signature_failure))
    × (run_fuzz_instructions bank env (key_of 4) tt wrong_inputs ≡ ok tt)
unfolding collect pack Builders.init all_keys run_fuzz_ix
wrong_init_skips_example =
    wrong_init_skips bank metas-MetaFields bank-KeypairBytes env (key_of 4) 8 bank-Fresh
      bank-ChecksSignatures wrong_inputs (wrong_ix ∷ []) [] tt (wrong_ix ∷ [], key_of 4 ∷ [])
      (omega arith) (here (refl, key_of 0, 9, refl)) refl refl

run_fuzz_instructions_iff_example :
    (ixs : List Calls.Instruction) × (sks : List Pubkey) × (tx : List Calls.Instruction
      × List Pubkey)
    × (collect bank env (key_of 4) wrong_inputs (no_keys bank) [] [] ≡ ok (ixs, sks))
    × (◌≡◌ {A = Result ProgramError (List Calls.Instruction × List Pubkey)}
        (ok (ixs, key_of 4 ∷ sks))
        (ok tx))
    × ((run_fuzz_instructions bank env (key_of 4) tt wrong_inputs ≡ ok tt)
        ↔ Passes (bank.process_transaction tx))
unfolding find
run_fuzz_instructions_iff_example =
    run_fuzz_instructions_iff bank bank-KeypairBytes bank-TokenInstructions env (key_of 4) tt
      wrong_inputs ((refl, ((key_of 2, 2), refl)), tt) (λ ixs sks e. ((ixs, key_of 4 ∷ sks), refl))

abbrev four : List Instruction.Schedule
four = schedule_args ++ schedule_args

abbrev ten : List Instruction.Schedule
ten = four ++ (four ++ schedule_args)

-- Draws that always give the same.
abbrev draws : Draws
draws = record {
  Unstructured = ℕ;
  Error = Unit {0};
  bytes_32 = λ u. ok (key_of 2, u);
  choose = λ u choices. ok (u, u);
  u32 = λ u. ok (7, u);
  ten_schedules = λ u. ok (ten, u);
  new_pubkey = λ bs. bs;
}

module _ {A : Type 0} where
  drawn_value :
      {a b : A} {u v : ℕ} → ◌≡◌ {A = Result (Unit {0}) (A × ℕ)} (ok (a, u)) (ok (b, v)) → a ≡ b
  drawn_value q = cc

draws-InRange : DrawsInRange draws
draws-InRange = record {
  bytes_in_range =
      λ u u' bs e. let same = drawn_value e in rw (← same) (key_of-IsPubkey 2 (omega arith));
  u32_in_range = λ u u' n e. let same = drawn_value e in rw (← same) (omega arith);
  schedules_in_range = λ u u' ss e. let same = drawn_value e in rw (← same) (refl, ten_valid);
  new_pubkey_bytes = λ bs v. refl;
}
  where
    ten_valid : All IsScheduleArg ten
    ten_valid =
        All-append IsScheduleArg four (four ++ schedule_args) four_valid
          (All-append IsScheduleArg four schedule_args four_valid args-IsScheduleArg)
      where
        four_valid : All IsScheduleArg four
        four_valid =
            All-append IsScheduleArg schedule_args schedule_args args-IsScheduleArg
              args-IsScheduleArg

arbitrary-IsDrawn_example :
    (seeds : Bytes) × (choice : ℕ) × (u1 : ℕ) × (u2 : ℕ) × (draws.bytes_32 3 ≡ ok (seeds, u1))
    × (draws.choose u1 (0 ∷ 1 ∷ 2 ∷ 3 ∷ 4 ∷ []) ≡ ok (choice, u2))
    × IsDrawn choice seeds (create (key_of 2) (key_of 2) (key_of 2) ten)
    × IsInstruction (create (key_of 2) (key_of 2) (key_of 2) ten)
    × (unpack (pack (create (key_of 2) (key_of 2) (key_of 2) ten))
        ≡ ok (create (key_of 2) (key_of 2) (key_of 2) ten))
unfolding arbitrary
arbitrary-IsDrawn_example =
    arbitrary-IsDrawn draws draws-InRange 3 3 (create (key_of 2) (key_of 2) (key_of 2) ten) refl

-- The `Create` that the harness makes of two schedules, on the account that its `Init` made.
abbrev created_ix : Calls.Instruction
created_ix = record {
  program_id = program;
  accounts =
      record { pubkey = token_program; is_signer = false; is_writable = false }
      ∷ record { pubkey = key_of 2; is_signer = false; is_writable = true }
      ∷ record { pubkey = key_of 3; is_signer = false; is_writable = true }
      ∷ record { pubkey = key_of 4; is_signer = true; is_writable = false }
      ∷ record { pubkey = key_of 5; is_signer = false; is_writable = true }
      ∷ [];
  input = pack (create (key_of 2) (key_of 11) (key_of 6) schedule_args);
}

created_ix-built :
    Builders.create metas program token_program
      (key_of 2)
      (key_of 3)
      (key_of 4)
      (key_of 5)
      (key_of 6)
      (key_of 11)
      schedule_args
      (key_of 2)
    ≡ ok created_ix
unfolding Builders.create
created_ix-built = refl

created : submit chain (ok created_ix) blank ≡ (ok tt, created_world)
created =
    ap (λ b. submit chain b blank) (sym created_ix-built)
    ∙ submit-create chain metas metas-MetaFields blank program token_program (key_of 2) (key_of 3)
        (key_of 4) (key_of 5) (key_of 6) (key_of 11) schedule_args (key_of 2)
        (
          key_of-IsPubkey 2 (omega arith),
          key_of-IsPubkey 11 (omega arith),
          key_of-IsPubkey 6 (omega arith),
          args-IsScheduleArg,
        )
    ∙ creation_listed false false

-- The rest of the instructions: the account's `Init`, the mint and the token accounts.
abbrev before_create : List Calls.Instruction
before_create =
    record {
      program_id = program;
      accounts =
          record { pubkey = key_of 13; is_signer = false; is_writable = false }
          ∷ record { pubkey = key_of 14; is_signer = false; is_writable = false }
          ∷ record { pubkey = key_of 4; is_signer = true; is_writable = true }
          ∷ record { pubkey = key_of 2; is_signer = false; is_writable = true }
          ∷ [];
      input = pack (init (key_of 2) 2);
    }
    ∷ bank.create_account (key_of 4) (key_of 11) 820 82 token_program
    ∷ note 9 (key_of 11)
    ∷ note 15 (key_of 4)
    ∷ note 15 (key_of 2)
    ∷ note 15 (key_of 7)
    ∷ note 9 (key_of 5)
    ∷ []

correct_create_needs_example : 2 ≤ length schedule_args
unfolding find run_fuzz_ix pack Builders.init Builders.create bytes_eq state_size
correct_create_needs_example =
    correct_create_needs bank chain chain-NextAccount metas-MetaFields bank-FindsDerived env
      (input_of (create (key_of 0) (key_of 0) (key_of 0) []) true) (key_of 4) (key_of 11)
      (key_of 20) (key_of 21) (key_of 4) (key_of 7) (key_of 6) (key_of 8) (key_of 30) (key_of 2) 2
      refl (key_of-IsPubkey 2 (omega arith)) args-IsScheduleArg (key_of-IsPubkey 11 (omega arith))
      (key_of-IsPubkey 6 (omega arith)) refl (key_of 0) (key_of 0) (key_of 0) [] refl before_create
      created_ix (key_of 11 ∷ key_of 40 ∷ key_of 4 ∷ []) blank created_world refl refl created
