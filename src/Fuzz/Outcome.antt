-- ===== src/Fuzz/Outcome.antt =====
-- How `run_fuzz_instructions` (rs/hfuzz/src/vesting_fuzz.rs) ends.
use rebuild_token_vesting.Base.{
  ℕ, ◌≡◌, ◌↔◌, refl, sym, ap, ◌∙◌, true, false, Bool, inl, inr, ◌⊎◌, some, List, [], ◌∷◌, All,
  Result, ok, err, panic, if◌then◌else◌,
}
use rebuild_token_vesting.Base.Bytes.{Bytes, IsByte}
use rebuild_token_vesting.Error
use rebuild_token_vesting.Error.{ProgramError}
use rebuild_token_vesting.Instruction.{VestingInstruction, unpack}
use rebuild_token_vesting.Instruction.Unpack.{Verdict, reads, rejects, panics, unpack-Verdict}
use rebuild_token_vesting.Runtime.Calls
use rebuild_token_vesting.Fuzz.Outside
use rebuild_token_vesting.Fuzz.Outside.{
  Outside, KeypairBytes, TokenInstructions, InstructionError, TransportError, transaction_error,
  instruction_error, invalid_argument, invalid_instruction_data, invalid_account_data,
  insufficient_funds, account_already_initialized, invalid_seeds, other, signature_failure,
  invalid_account_for_fee, insufficient_funds_for_fee, other_error, other_transport,
}
use rebuild_token_vesting.Fuzz.Harness.{FuzzInstruction, TokenVestingEnv}
use rebuild_token_vesting.Fuzz.Run.{
  no_keys, collect, tolerates_instruction, tolerates, check_result, run_fuzz_instructions,
}
use rebuild_token_vesting.Fuzz.Tolerated.{Expected, tolerates-Expected}
use rebuild_token_vesting.Fuzz.Progress.{Findable, collect-Returns}

-- The bank took the transaction, or refused it with an error that the harness expects.
abbrev pub Passes : Result TransportError (Unit {0}) → Type 0
Passes r = (r ≡ ok tt) ⊎ ((e : TransportError) × (r ≡ err e) × Expected e)

check_result_iff : (r : Result TransportError (Unit {0})) → (check_result r ≡ ok tt) ↔ Passes r
unfolding check_result
check_result_iff (ok u) = (λ e. inl refl, λ p. refl)
check_result_iff (err x) =
    (λ e. inr (x, refl, (tolerates-Expected x).0 (tolerated (tolerates x) refl e)), λ p. passes p)
  where
    tolerated :
        (b : Bool)
        → tolerates x ≡ b
        → ◌≡◌ {A = Result ProgramError (Unit {0})} (if tolerates x then ok tt else panic) (ok tt)
        → tolerates x ≡ true
    tolerated true is e = is
    tolerated false is e = absurd (stopped (rw is at e))
      where
        stopped : ◌≡◌ {A = Result ProgramError (Unit {0})} panic (ok tt) → ⊥
        stopped q = cc

    same :
        {y z : TransportError} → ◌≡◌ {A = Result TransportError (Unit {0})} (err y) (err z) → y ≡ z
    same q = cc

    taken : {y : TransportError} → ◌≡◌ {A = Result TransportError (Unit {0})} (err y) (ok tt) → ⊥
    taken q = cc

    passes :
        Passes (err x)
        → ◌≡◌ {A = Result ProgramError (Unit {0})} (if tolerates x then ok tt else panic) (ok tt)
    passes (inl q) = absurd (taken q)
    passes (inr (y, q, t)) =
        let now : tolerates x ≡ true = ap tolerates (same q) ∙ (tolerates-Expected y).1 t in rw now
check_result_iff panic = (λ e. absurd (stopped e), λ p. absurd (none_passes p))
  where
    stopped : ◌≡◌ {A = Result ProgramError (Unit {0})} panic (ok tt) → ⊥
    stopped q = cc

    none_passes : Passes panic → ⊥
    none_passes (inl q) = cc
    none_passes (inr (y, q, t)) = cc

module _ (o : Outside) (keypairs : KeypairBytes o) (token : TokenInstructions o)
    (env : TokenVestingEnv o) (correct_payer : o.Keypair) (hash : o.Hash) where
  -- For inputs with seeds of 32 bytes that an address is found for, if keypairs can be copied, the
  -- token program's instructions can be made and the collected signers can sign: the harness comes
  -- to its transaction without a panic, and then ends without one exactly when the bank takes the
  -- transaction or refuses it with an error that is expected: a missing signature, a payer that is
  -- no account or cannot pay, or, of any of its instructions, an invalid argument, seeds,
  -- instruction data or account data, insufficient funds, an account that is already initialized,
  -- or the program's error 0.
  pub run_fuzz_instructions_iff :
      (ins : List FuzzInstruction)
      → All (Findable o env) ins
      → (signs : (ixs : List Calls.Instruction) (sks : List o.Keypair)
          → collect o env correct_payer ins (no_keys o) [] [] ≡ ok (ixs, sks)
          → (tx : o.Transaction) × (o.partial_sign
                (o.new_with_payer ixs (some (o.pubkey correct_payer)))
                (correct_payer ∷ sks)
                hash
              ≡ ok tx))
      → (ixs : List Calls.Instruction) × (sks : List o.Keypair) × (tx : o.Transaction) × (collect o
            env correct_payer ins
            (no_keys o)
            []
            []
          ≡ ok (ixs, sks))
        × (o.partial_sign
              (o.new_with_payer ixs (some (o.pubkey correct_payer)))
              (correct_payer ∷ sks)
              hash
            ≡ ok tx)
        × ((run_fuzz_instructions o env correct_payer hash ins ≡ ok tt)
            ↔ Passes (o.process_transaction tx))
  unfolding run_fuzz_instructions
  run_fuzz_instructions_iff ins sizes signs =
      let ((ixs, sks), collected) =
        collect-Returns o keypairs token env correct_payer ins (no_keys o) [] [] sizes in
      let (tx, signed) = signs ixs sks collected in
      (
        ixs,
        sks,
        tx,
        collected,
        signed,
        rw (collected, signed) (check_result_iff (o.process_transaction tx)),
      )

-- The runtime reports a program's error under the same name.
pub record Reports (report : ProgramError → InstructionError) : Type 0 where
  pub custom : (n : ℕ) → report (Error.custom n) ≡ Outside.custom n
  pub invalid_argument : report Error.invalid_argument ≡ Outside.invalid_argument
  pub invalid_instruction_data :
      report Error.invalid_instruction_data ≡ Outside.invalid_instruction_data
  pub invalid_account_data : report Error.invalid_account_data ≡ Outside.invalid_account_data
  pub insufficient_funds : report Error.insufficient_funds ≡ Outside.insufficient_funds

-- If the runtime reports a program's error under its name: the harness lets the error pass with
-- which `unpack` answers an input of bytes.
pub decoding_tolerated :
    (report : ProgramError → InstructionError)
    → Reports report
    → (input : Bytes) (i : ℕ) (x : ProgramError) → All IsByte input
    → unpack input ≡ err x
    → check_result (err (transaction_error (instruction_error i (report x)))) ≡ ok tt
unfolding check_result tolerates tolerates_instruction
decoding_tolerated report reports input i x bytes refused = go (unpack-Verdict input bytes)
  where
    read_err :
        {j : VestingInstruction}
        → ◌≡◌ {A = Result ProgramError VestingInstruction} (ok j) (err x)
        → ⊥
    read_err q = cc

    stopped_err : ◌≡◌ {A = Result ProgramError VestingInstruction} panic (err x) → ⊥
    stopped_err q = cc

    same_err :
        {y : ProgramError}
        → ◌≡◌ {A = Result ProgramError VestingInstruction} (err y) (err x)
        → y ≡ x
    same_err q = cc

    go :
        Verdict input
        → check_result (err (transaction_error (instruction_error i (report x)))) ≡ ok tt
    go (reads j tail v t e done) = absurd (read_err (sym done ∙ refused))
    go (rejects bad done) =
        let same : Error.custom 0 ≡ x = same_err (sym done ∙ refused) in
        rw (← same, reports.custom 0)
    go (panics cut done) = absurd (stopped_err (sym done ∙ refused))
