-- ===== src/Processor/Create/Checks.antt =====
-- What the checks of `process_create` (rs/src/processor.rs) establish.
use rebuild_token_vesting.Base.{
  ℕ, ◌≡◌, ◌≢◌, refl, true, false, Option, none, some, [], ◌∷◌, bytes_eq, ok, index_at, ==-ne, ◌==◌,
}
use rebuild_token_vesting.Base.Bytes.{Bytes}
use rebuild_token_vesting.Error.{ProgramError, invalid_argument, invalid_account_data}
use rebuild_token_vesting.State.Header.{Pubkey}
use rebuild_token_vesting.Instruction.{Seeds}
use rebuild_token_vesting.Runtime.Action.{World, AccountInfo, data_of, is_borrowed, borrow}
use rebuild_token_vesting.Runtime.Steps.{
  step-eq-ok, borrow-eq-ok, require-eq-ok, fail_if-eq-ok, fail_if_last,
}
use rebuild_token_vesting.Runtime.Calls.{Runtime, TokenAccount}
use rebuild_token_vesting.Processor.Create.{check_vesting_account, check_token_account, is_some}

is_some-false : {A : Type 0} (o : Option A) → is_some o ≡ false → o ≡ none
unfolding is_some
is_some-false none h = refl
is_some-false (some a) h = cc

module _ (rt : Runtime) (program_id : Pubkey) (vesting owner : AccountInfo) (seeds : Seeds)
    (w : World) where
  -- The account is the program's, derived from the seeds, not initialised, and the source's owner
  -- has signed.
  pub record VestingChecked : Type 0 where
    pub vesting_account_key : Pubkey
    pub derived : rt.create_program_address (seeds ∷ []) program_id ≡ ok vesting_account_key
    pub key_matches : bytes_eq vesting_account_key vesting.key ≡ true
    pub owner_signed : owner.is_signer ≡ true
    pub owned : bytes_eq (w.accounts vesting.key).owner program_id ≡ true
    pub bytes : Bytes
    pub borrowed : rt.try_borrow_data vesting w ≡ ok bytes
    pub flag : ℕ
    pub flag_read : index_at {E = ProgramError} bytes 64 ≡ ok flag
    pub not_initialized : flag ≢ 1

  pub check_vesting_account-eq-ok :
      (w1 : World)
      → check_vesting_account rt program_id vesting owner seeds w ≡ (ok tt, w1)
      → (w1 ≡ w) × VestingChecked
  unfolding check_vesting_account
  check_vesting_account-eq-ok w1 e =
      let (k, derived, e1) = step-eq-ok (rt.create_program_address (seeds ∷ []) program_id) _ w e in
      let (key_matches, e2) = require-eq-ok (bytes_eq k vesting.key) _ _ w e1 in
      let (signed, e3) = require-eq-ok owner.is_signer _ _ w e2 in
      let (owned, e4) =
        require-eq-ok (bytes_eq (w.accounts vesting.key).owner program_id) _ _ w e3 in
      let (bs, borrowed, e5) = step-eq-ok (rt.try_borrow_data vesting w) _ w e4 in
      let (flag, flag_read, e6) = step-eq-ok (index_at bs 64) _ w e5 in
      let (clear, same_w) = fail_if_last (flag == 1) invalid_argument w e6 in
      (
        same_w,
        record {
          vesting_account_key = k;
          derived = derived;
          key_matches = key_matches;
          owner_signed = signed;
          owned = owned;
          bytes = bs;
          borrowed = borrowed;
          flag = flag;
          flag_read = flag_read;
          not_initialized = ==-ne flag 1 clear;
        },
      )

module _ (rt : Runtime) (vesting token : AccountInfo) (w : World) where
  -- The token account is the vesting account's, and nobody else can spend from it or close it.
  pub record TokenChecked : Type 0 where
    pub token_account : TokenAccount
    pub token_unpacked : rt.token_unpack (data_of w token.key) ≡ ok token_account
    pub token_owner : bytes_eq token_account.owner vesting.key ≡ true
    pub no_delegate : token_account.delegate ≡ none
    pub no_close_authority : token_account.close_authority ≡ none

  pub check_token_account-eq-ok :
      (w1 : World) → check_token_account rt vesting token w ≡ (ok tt, w1) → (w1 ≡ w) × TokenChecked
  unfolding check_token_account borrow
  check_token_account-eq-ok w1 e =
      let (free, e1) = borrow-eq-ok (is_borrowed w token.key) (data_of w token.key) _ w e in
      let (t, token_unpacked, e2) = step-eq-ok (rt.token_unpack (data_of w token.key)) _ w e1 in
      let (token_owner, e3) = require-eq-ok (bytes_eq t.owner vesting.key) _ _ w e2 in
      let (no_delegate, e4) = fail_if-eq-ok (is_some t.delegate) invalid_account_data _ w e3 in
      let (no_close, same_w) = fail_if_last (is_some t.close_authority) invalid_account_data w e4 in
      (
        same_w,
        record {
          token_account = t;
          token_unpacked = token_unpacked;
          token_owner = token_owner;
          no_delegate = is_some-false t.delegate no_delegate;
          no_close_authority = is_some-false t.close_authority no_close;
        },
      )
