-- ===== src/Flow.antt =====
-- The libFuzzer target rs/fuzz/fuzz_targets/fuzz_target_1.rs: a scripted flow of `Init`, `Create` and
-- `Unlock` on a simulated bank.
pub mod Sending
pub mod Amounts
use rebuild_token_vesting.Base.{
  ℕ, ◌-◌, ◌==◌, Bool, true, false, Option, none, some, List, [], ◌∷◌, ◌++◌, Result, ok, err, panic,
  unwrap, unwrap_result, if◌then◌else◌,
}
use rebuild_token_vesting.Base.Bytes.{Bytes, to_le_bytes}
use rebuild_token_vesting.Error.{ProgramError}
use rebuild_token_vesting.State.Header.{Pubkey}
use rebuild_token_vesting.Instruction
use rebuild_token_vesting.Instruction.{Seeds}
use rebuild_token_vesting.Instruction.Builders
use rebuild_token_vesting.Runtime.Action.{World, Action, ◌>>=◌, ◌>>◌, lift, read}
use rebuild_token_vesting.Runtime.Calls
use rebuild_token_vesting.Runtime.Calls.{Runtime, AccountMeta, TokenAccount, Rent}
use rebuild_token_vesting.Fuzz.Outside.{Outside}

-- What the flow calls besides: the bank, and ids of programs and sysvars.
pub record TestBank (o : Outside) : Type 0 where
  -- A transaction of these instructions, with this payer and these signers, sent and awaited.
  pub process_transaction : List Calls.Instruction → Pubkey → List o.Keypair → Action (Unit {0})
  pub get_rent : World → Result ProgramError Rent
  -- The data of an account.
  pub get_account : Pubkey → World → Option Bytes
  pub system_program_id : Pubkey
  pub rent_id : Pubkey
  pub clock_id : Pubkey
  pub associated_token_id : Pubkey
  -- `Mint::LEN`, and `unpack_from_slice` of a token account.
  pub mint_len : ℕ
  pub token_unpack_from_slice : Bytes → Result ProgramError TokenAccount

-- `SEED[..32]`
abbrev pub seed : Seeds
seed =
    49 ∷ 49 ∷ 49 ∷ 49 ∷ 49 ∷ 49 ∷ 49 ∷ 49 ∷ 121 ∷ 97 ∷ 121 ∷ 97 ∷ 121 ∷ 97 ∷ 121 ∷ 97 ∷ 121 ∷ 121
    ∷ 97 ∷ 121 ∷ 97 ∷ 121 ∷ 97 ∷ 121 ∷ 97 ∷ 121 ∷ 121 ∷ 97 ∷ 121 ∷ 97 ∷ 121 ∷ 97 ∷ []

-- `.unwrap()` on what was awaited.
abbrev unwrapped : {A : Type 0} → Action A → Action A
unwrapped m w = let (r, w') = m w in (unwrap_result r, w')

-- `assert_eq!`
unfoldable pub assert_eq : ℕ → ℕ → Result ProgramError (Unit {0})
assert_eq a b = if a == b then ok tt else panic

module _ (o : Outside) (rt : Runtime) (bank : TestBank o) (program_id : Pubkey)
    (payer mint_keypair dest_keypair : o.Keypair) where
  -- The hand-made `Init`.
  unfoldable pub flow_init_ix : Pubkey → Calls.Instruction
  flow_init_ix vesting_account_key = o.new_with_bytes program_id (0 ∷ (seed ++ to_le_bytes 4 1)) (
      o.metas.new_readonly bank.system_program_id false
      ∷ o.metas.new_readonly bank.rent_id false
      ∷ o.metas.new_readonly (o.pubkey payer) true
      ∷ o.metas.new vesting_account_key false
      ∷ [])

  -- The hand-made instruction for the vesting token account.
  unfoldable pub flow_token_ix : Pubkey → Pubkey → Calls.Instruction
  flow_token_ix vesting_account_key vesting_token_account_key =
      o.new_with_bytes bank.associated_token_id [] (
        o.metas.new (o.pubkey payer) true
        ∷ o.metas.new vesting_token_account_key false
        ∷ o.metas.new_readonly vesting_account_key false
        ∷ o.metas.new_readonly (o.pubkey mint_keypair) false
        ∷ o.metas.new_readonly bank.system_program_id false
        ∷ o.metas.new_readonly o.spl_token_id false
        ∷ o.metas.new_readonly bank.rent_id false
        ∷ [])

  abbrev pub send_all : List Calls.Instruction → List o.Keypair → Action (Unit {0})
  send_all ixs signers = unwrapped (bank.process_transaction ixs (o.pubkey payer) signers)

  abbrev pub source_token_acc_key : Pubkey
  source_token_acc_key = o.get_associated_token_address (o.pubkey payer) (o.pubkey mint_keypair)

  abbrev pub dest_token_acc_key : Pubkey
  dest_token_acc_key =
      o.get_associated_token_address (o.pubkey dest_keypair) (o.pubkey mint_keypair)

  -- The test of `Empty` alone.
  unfoldable pub test_empty_ix : Action (Unit {0})
  test_empty_ix = send_all (o.new_with_bytes program_id (4 ∷ to_le_bytes 4 32) [] ∷ []) (payer ∷ [])

  -- The steps 1 to 3: the vesting account, the mint, the vesting token account and the funds.
  unfoldable pub flow_setup : Pubkey → Action (Unit {0})
  unfolding flow_init_ix flow_token_ix
  flow_setup vesting_account_key = do
    send_all (flow_init_ix vesting_account_key ∷ []) (payer ∷ [])
    rent ← unwrapped (read bank.get_rent)
    init_mint ← lift (
        unwrap_result (
          o.initialize_mint o.spl_token_id (o.pubkey mint_keypair) (o.pubkey payer)
            (some (o.pubkey payer)) 0))
    send_all
        (o.create_account (o.pubkey payer) (o.pubkey mint_keypair) (rent bank.mint_len)
            bank.mint_len o.spl_token_id
          ∷ init_mint
          ∷ [])
        (payer ∷ mint_keypair ∷ [])
    send_all
        (flow_token_ix vesting_account_key
            (o.get_associated_token_address vesting_account_key (o.pubkey mint_keypair))
          ∷ [])
        (payer ∷ [])
    mint_to ← lift (
        unwrap_result (
          o.mint_to o.spl_token_id (o.pubkey mint_keypair) source_token_acc_key (o.pubkey payer)
            (o.pubkey payer ∷ []) 1000))
    send_all
        (o.create_associated_token_account (o.pubkey payer) (o.pubkey payer) (o.pubkey mint_keypair)
          ∷ mint_to
          ∷ [])
        (payer ∷ [])

  -- The last step: the amounts behind the flow.
  unfoldable pub flow_check : Action (Unit {0})
  unfolding assert_eq
  flow_check = do
    dest_bytes ← read (λ w. unwrap (bank.get_account dest_token_acc_key w))
    dest ← lift (unwrap_result (rt.token_unpack dest_bytes))
    lift (assert_eq dest.amount 111)
    source_bytes ← read (λ w. unwrap (bank.get_account source_token_acc_key w))
    source ← lift (unwrap_result (bank.token_unpack_from_slice source_bytes))
    lift (assert_eq source.amount (1000 - 111))

  -- The steps 4 and 5: the contract of one schedule, and its unlock.
  unfoldable pub flow_contract : Pubkey → Action (Unit {0})
  unfolding flow_check
  flow_contract vesting_account_key = do
    create_ix ← lift (
        unwrap_result (
          Builders.create o.metas program_id o.spl_token_id vesting_account_key
            (o.get_associated_token_address vesting_account_key (o.pubkey mint_keypair))
            (o.pubkey payer) source_token_acc_key dest_token_acc_key (o.pubkey mint_keypair)
            (record { release_time = 1; amount = 111 } ∷ []) seed))
    send_all
        (o.create_associated_token_account (o.pubkey payer) (o.pubkey dest_keypair)
            (o.pubkey mint_keypair)
          ∷ create_ix
          ∷ [])
        (payer ∷ [])
    unlock_ix ← lift (
        unwrap_result (
          Builders.unlock o.metas program_id o.spl_token_id bank.clock_id vesting_account_key
            (o.get_associated_token_address vesting_account_key (o.pubkey mint_keypair))
            dest_token_acc_key seed))
    send_all (unlock_ix ∷ []) (payer ∷ [])
    flow_check

  unfoldable pub test_init_create_unlock_flow : Action (Unit {0})
  unfolding flow_setup flow_contract
  test_init_create_unlock_flow = do
    vesting_account_key ← lift (unwrap_result (rt.create_program_address (seed ∷ []) program_id))
    flow_setup vesting_account_key
    flow_contract vesting_account_key
