-- ===== src/Processor/ChangeDestination/Checks.antt =====
-- What the checks of `process_change_destination` (rs/src/processor.rs) establish.
use rebuild_token_vesting.Base.{◌≡◌, true, [], ◌∷◌, bytes_eq, length, ltb, ok, index_to}
use rebuild_token_vesting.Base.Bytes.{Bytes}
use rebuild_token_vesting.Error.{ProgramError, invalid_account_data}
use rebuild_token_vesting.State.Header
use rebuild_token_vesting.State.Header.{Pubkey, VestingScheduleHeader}
use rebuild_token_vesting.Instruction.{Seeds}
use rebuild_token_vesting.Runtime.Action.{World, AccountInfo, data_of, is_borrowed, borrow}
use rebuild_token_vesting.Runtime.Steps.{
  step-eq-ok, borrow-eq-ok, require-eq-ok, fail_if-eq-ok, pure-eq-ok,
}
use rebuild_token_vesting.Runtime.Calls.{Runtime, TokenAccount}
use rebuild_token_vesting.Processor.ChangeDestination.{check_change}

module _ (rt : Runtime) (program_id : Pubkey) (vesting destination owner : AccountInfo)
    (seeds : Seeds) (w : World) where
  pub record ChangeChecked (state : VestingScheduleHeader) : Type 0 where
    pub vesting_account_key : Pubkey
    pub derived : rt.create_program_address (seeds ∷ []) program_id ≡ ok vesting_account_key
    pub key_matches : bytes_eq vesting_account_key vesting.key ≡ true
    pub header_bytes : Bytes
    pub prefix : index_to {E = ProgramError} (data_of w vesting.key) 65 ≡ ok header_bytes
    pub unpacked :
        rt.unpack 65 Header.unpack_from_slice Header.is_initialized header_bytes ≡ ok state
    pub destination_matches : bytes_eq state.destination_address destination.key ≡ true
    pub owner_signed : owner.is_signer ≡ true
    pub token_account : TokenAccount
    pub token_unpacked : rt.token_unpack (data_of w destination.key) ≡ ok token_account
    pub token_owner : bytes_eq token_account.owner owner.key ≡ true

  pub check_change-eq-ok :
      (state : VestingScheduleHeader) (w1 : World)
      → check_change rt program_id vesting destination owner seeds w ≡ (ok state, w1)
      → (w1 ≡ w) × ChangeChecked state
  unfolding check_change borrow
  check_change-eq-ok state w1 e =
      let bytes : Bytes = data_of w vesting.key in
      let (free, e1) = borrow-eq-ok (is_borrowed w vesting.key) bytes _ w e in
      let (long, e2) = fail_if-eq-ok (ltb (length bytes) 65) invalid_account_data _ w e1 in
      let (k, derived, e3) =
        step-eq-ok (rt.create_program_address (seeds ∷ []) program_id) _ w e2 in
      let (key_matches, e4) = require-eq-ok (bytes_eq k vesting.key) _ _ w e3 in
      let (free', e5) = borrow-eq-ok (is_borrowed w vesting.key) bytes _ w e4 in
      let (bs, prefix, e6) = step-eq-ok (index_to bytes 65) _ w e5 in
      let (h, unpacked, e7) =
        step-eq-ok (rt.unpack 65 Header.unpack_from_slice Header.is_initialized bs) _ w e6 in
      let (dest, e8) = require-eq-ok (bytes_eq h.destination_address destination.key) _ _ w e7 in
      let (signed, e9) = require-eq-ok owner.is_signer _ _ w e8 in
      let (free'', e10) =
        borrow-eq-ok (is_borrowed w destination.key) (data_of w destination.key) _ w e9 in
      let (t, token_unpacked, e11) =
        step-eq-ok (rt.token_unpack (data_of w destination.key)) _ w e10 in
      let (token_owner, e12) = require-eq-ok (bytes_eq t.owner owner.key) _ _ w e11 in
      let (same, same_w) = pure-eq-ok h w e12 in
      (
        same_w,
        rw (← same) (record {
          vesting_account_key = k;
          derived = derived;
          key_matches = key_matches;
          header_bytes = bs;
          prefix = prefix;
          unpacked = unpacked;
          destination_matches = dest;
          owner_signed = signed;
          token_account = t;
          token_unpacked = token_unpacked;
          token_owner = token_owner;
        }),
      )
