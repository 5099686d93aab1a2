-- ===== src/Fuzz/Outside.antt =====
-- The functions that rs/hfuzz/src/vesting_fuzz.rs calls and the repository does not contain: of
-- `solana_sdk`, `spl_token`, `spl_associated_token_account` and the simulated bank.
use rebuild_token_vesting.Base.{ℕ, ◌<◌, ◌≡◌, Option, List, [], ◌∷◌, ◌++◌, length, Result, ok}
use rebuild_token_vesting.Base.Bytes.{Bytes}
use rebuild_token_vesting.Error.{ProgramError}
use rebuild_token_vesting.State.Header.{Pubkey}
use rebuild_token_vesting.Instruction.Builders.{Metas}
use rebuild_token_vesting.Runtime.Calls.{AccountMeta, Instruction, Runtime}

-- The errors that the harness tells apart; `other` stands for all it does not name.
pub data InstructionError : Type 0 where
  invalid_argument invalid_instruction_data invalid_account_data : InstructionError
  insufficient_funds account_already_initialized invalid_seeds : InstructionError
  custom : ℕ → InstructionError
  other : ℕ → InstructionError

pub data TransactionError : Type 0 where
  instruction_error : ℕ → InstructionError → TransactionError
  signature_failure invalid_account_for_fee insufficient_funds_for_fee : TransactionError
  other_error : ℕ → TransactionError

pub data TransportError : Type 0 where
  transaction_error : TransactionError → TransportError
  other_transport : ℕ → TransportError

pub record Outside : Type 1 where
  pub Keypair : Type 0
  pub pubkey : Keypair → Pubkey
  pub to_bytes : Keypair → Bytes
  pub from_bytes : Bytes → Result ProgramError Keypair
  -- What the n-th call of `Pubkey::new_unique` or `Keypair::new` returns.
  pub new_unique : ℕ → Pubkey
  pub new_keypair : ℕ → Keypair
  -- `Pubkey::find_program_address`; it panics when there is no address.
  pub find_program_address : List Bytes → Pubkey → Result ProgramError (Pubkey × ℕ)
  pub get_associated_token_address : Pubkey → Pubkey → Pubkey
  pub create_associated_token_account : Pubkey → Pubkey → Pubkey → Instruction
  -- `Instruction::new_with_bytes`: program, data, accounts.
  pub new_with_bytes : Pubkey → Bytes → List AccountMeta → Instruction
  -- `Rent::default().minimum_balance`
  pub minimum_balance : ℕ → ℕ
  -- `system_instruction::create_account`: payer, new account, lamports, space, owner.
  pub create_account : Pubkey → Pubkey → ℕ → ℕ → Pubkey → Instruction
  pub spl_token_id : Pubkey
  -- `spl_token::instruction::initialize_mint`: program, mint, authority, freeze authority, decimals.
  pub initialize_mint :
      Pubkey → Pubkey → Pubkey → Option Pubkey → ℕ → Result ProgramError Instruction
  -- `spl_token::instruction::mint_to`: program, mint, account, authority, signers, amount.
  pub mint_to :
      Pubkey → Pubkey → Pubkey → Pubkey → List Pubkey → ℕ → Result ProgramError Instruction
  pub metas : Metas
  pub Hash : Type 0
  pub Transaction : Type 0
  -- `Transaction::new_with_payer`, `partial_sign` and `BanksClient::process_transaction`.
  pub new_with_payer : List Instruction → Option Pubkey → Transaction
  pub partial_sign : Transaction → List Keypair → Hash → Result ProgramError Transaction
  pub process_transaction : Transaction → Result TransportError (Unit {0})

-- "Recovers a Keypair from a byte array".
abbrev pub KeypairBytes : Outside → Type 0
KeypairBytes o = (k : o.Keypair) → o.from_bytes (o.to_bytes k) ≡ ok k

-- The address that was found for a seed of 31 bytes, as the harness makes it, is the one of the 32
-- bytes of the seed with the bump behind it: seeds are concatenated, and 32 bytes is the longest
-- seed that `create_program_address` takes.
abbrev pub FindsDerived : Outside → Runtime → Type 0
FindsDerived o rt =
    (seed : Bytes) (program k : Pubkey) (bump : ℕ)
    → length seed ≡ 31
    → o.find_program_address (seed ∷ []) program ≡ ok (k, bump)
    → (bump < 256) × (rt.create_program_address ((seed ++ (bump ∷ [])) ∷ []) program ≡ ok k)

-- The token program's instructions are made for its own id.
pub record TokenInstructions (o : Outside) : Type 0 where
  pub mint_initialized :
      (mint authority : Pubkey) (freeze : Option Pubkey) (decimals : ℕ)
      → (ix : Instruction) × (o.initialize_mint o.spl_token_id mint authority freeze decimals
          ≡ ok ix)
  pub minted :
      (mint account authority : Pubkey) (amount : ℕ)
      → (ix : Instruction) × (o.mint_to o.spl_token_id mint account authority [] amount ≡ ok ix)
