-- ===== src/Processor/Unlock/Checks.antt =====
-- What a successful run of the checks of `process_unlock` (rs/src/processor.rs) has established.
use rebuild_token_vesting.Base.{◌≡◌, true, [], ◌∷◌, bytes_eq, ok, index_to}
use rebuild_token_vesting.Base.Bytes.{Bytes}
use rebuild_token_vesting.Error.{ProgramError}
use rebuild_token_vesting.State.Header
use rebuild_token_vesting.State.Header.{Pubkey, VestingScheduleHeader}
use rebuild_token_vesting.Instruction.{Seeds}
use rebuild_token_vesting.Runtime.Action.{World, AccountInfo, data_of, is_borrowed, borrow}
use rebuild_token_vesting.Runtime.Steps.{step-eq-ok, borrow-eq-ok, require-eq-ok, pure-eq-ok}
use rebuild_token_vesting.Runtime.Calls.{Runtime, TokenAccount}
use rebuild_token_vesting.Processor.Unlock.{check_unlock}

module _ (rt : Runtime) (program_id : Pubkey) (spl vesting token destination : AccountInfo)
    (seeds : Seeds) (w : World) where
  pub record UnlockChecked (key : Pubkey) : Type 0 where
    pub derived : rt.create_program_address (seeds ∷ []) program_id ≡ ok key
    pub key_matches : bytes_eq key vesting.key ≡ true
    pub spl_matches : bytes_eq spl.key rt.spl_token_id ≡ true
    pub header_bytes : Bytes
    pub header : VestingScheduleHeader
    pub prefix : index_to {E = ProgramError} (data_of w vesting.key) 65 ≡ ok header_bytes
    pub unpacked :
        rt.unpack 65 Header.unpack_from_slice Header.is_initialized header_bytes ≡ ok header
    pub destination_matches : bytes_eq header.destination_address destination.key ≡ true
    pub token_account : TokenAccount
    pub token_unpacked : rt.token_unpack (data_of w token.key) ≡ ok token_account
    pub token_owner : bytes_eq token_account.owner key ≡ true

  pub check_unlock-eq-ok :
      (key : Pubkey) (w1 : World)
      → check_unlock rt program_id spl vesting token destination seeds w ≡ (ok key, w1)
      → (w1 ≡ w) × UnlockChecked key
  unfolding check_unlock borrow
  check_unlock-eq-ok key w1 e =
      let (k, derived, e1) = step-eq-ok (rt.create_program_address (seeds ∷ []) program_id) _ w e in
      let (key_matches, e2) = require-eq-ok (bytes_eq k vesting.key) _ _ w e1 in
      let (spl_matches, e3) = require-eq-ok (bytes_eq spl.key rt.spl_token_id) _ _ w e2 in
      let (free, e4) = borrow-eq-ok (is_borrowed w vesting.key) (data_of w vesting.key) _ w e3 in
      let (bs, prefix, e5) = step-eq-ok (index_to (data_of w vesting.key) 65) _ w e4 in
      let (h, unpacked, e6) =
        step-eq-ok (rt.unpack 65 Header.unpack_from_slice Header.is_initialized bs) _ w e5 in
      let (dest, e7) = require-eq-ok (bytes_eq h.destination_address destination.key) _ _ w e6 in
      let (token_free, e8) = borrow-eq-ok (is_borrowed w token.key) (data_of w token.key) _ w e7 in
      let (t, token_unpacked, e9) = step-eq-ok (rt.token_unpack (data_of w token.key)) _ w e8 in
      let (token_owner, e10) = require-eq-ok (bytes_eq t.owner k) _ _ w e9 in
      let (same, same_w) = pure-eq-ok k w e10 in
      (
        same_w,
        rw (← same) (record {
          derived = derived;
          key_matches = key_matches;
          spl_matches = spl_matches;
          header_bytes = bs;
          header = h;
          prefix = prefix;
          unpacked = unpacked;
          destination_matches = dest;
          token_account = t;
          token_unpacked = token_unpacked;
          token_owner = token_owner;
        }),
      )
