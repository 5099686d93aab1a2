-- ===== src/Fuzz/Tolerated.antt =====
-- The bank's errors that `run_fuzz_instructions` of rs/hfuzz/src/vesting_fuzz.rs lets pass.
use rebuild_token_vesting.Base.{ℕ, ◌≡◌, ◌↔◌, refl, true, arith}
use rebuild_token_vesting.Fuzz.Outside
use rebuild_token_vesting.Fuzz.Outside.{
  InstructionError, TransportError, transaction_error, instruction_error, invalid_argument,
  invalid_instruction_data, invalid_account_data, insufficient_funds, account_already_initialized,
  invalid_seeds, other, signature_failure, invalid_account_for_fee, insufficient_funds_for_fee,
  other_error, other_transport,
}
use rebuild_token_vesting.Fuzz.Run.{tolerates_instruction, tolerates}

-- The errors that a program or the system program may answer with: those of a refused instruction,
-- whichever of the transaction it is.
pub data Refusal : InstructionError → Type 0 where
  argument : Refusal invalid_argument
  instruction_data : Refusal invalid_instruction_data
  account_data : Refusal invalid_account_data
  funds : Refusal insufficient_funds
  initialized : Refusal account_already_initialized
  derivation : Refusal invalid_seeds
  invalid_instruction : Refusal (Outside.custom 0)

-- The errors of a transaction that the harness expects.
pub data Expected : TransportError → Type 0 where
  at_instruction :
      (i : ℕ) (e : InstructionError)
      → Refusal e
      → Expected (transaction_error (instruction_error i e))
  unsigned : Expected (transaction_error signature_failure)
  no_payer : Expected (transaction_error invalid_account_for_fee)
  poor_payer : Expected (transaction_error insufficient_funds_for_fee)

Refusal-tolerated : {e : InstructionError} → Refusal e → tolerates_instruction e ≡ true
unfolding tolerates_instruction
Refusal-tolerated argument = refl
Refusal-tolerated instruction_data = refl
Refusal-tolerated account_data = refl
Refusal-tolerated funds = refl
Refusal-tolerated initialized = refl
Refusal-tolerated derivation = refl
Refusal-tolerated invalid_instruction = refl

tolerated-Refusal : (e : InstructionError) → tolerates_instruction e ≡ true → Refusal e
unfolding tolerates_instruction
tolerated-Refusal invalid_argument h = argument
tolerated-Refusal invalid_instruction_data h = instruction_data
tolerated-Refusal invalid_account_data h = account_data
tolerated-Refusal insufficient_funds h = funds
tolerated-Refusal account_already_initialized h = initialized
tolerated-Refusal invalid_seeds h = derivation
tolerated-Refusal (Outside.custom n) h =
    let zero : n ≡ 0 = grind (arith, h) in rw zero invalid_instruction
tolerated-Refusal (other n) h = cc

pub tolerates-Expected : (e : TransportError) → (tolerates e ≡ true) ↔ Expected e
unfolding tolerates
tolerates-Expected e = (there e, back)
  where
    there : (e : TransportError) → tolerates e ≡ true → Expected e
    there (transaction_error (instruction_error i e)) h = at_instruction i e (tolerated-Refusal e h)
    there (transaction_error signature_failure) h = unsigned
    there (transaction_error invalid_account_for_fee) h = no_payer
    there (transaction_error insufficient_funds_for_fee) h = poor_payer
    there (transaction_error (other_error n)) h = cc
    there (other_transport n) h = cc

    back : {e : TransportError} → Expected e → tolerates e ≡ true
    back (at_instruction i e r) = Refusal-tolerated r
    back unsigned = refl
    back no_payer = refl
    back poor_payer = refl
