-- ===== src/Processor/ChangeDestination.antt =====
-- rs/src/processor.rs: `process_change_destination`.
pub mod Atomic
pub mod Checks
pub mod Effect
use rebuild_token_vesting.Base.{
  ℕ, not, List, [], ◌∷◌, length, bytes_eq, ltb, ok, index_to, write_to,
}
use rebuild_token_vesting.Error.{invalid_argument, invalid_account_data}
use rebuild_token_vesting.State.Header
use rebuild_token_vesting.State.Header.{Pubkey, VestingScheduleHeader}
use rebuild_token_vesting.Instruction.{Seeds}
use rebuild_token_vesting.Runtime.Action.{
  Action, AccountInfo, ◌>>=◌, ◌>>◌, pure, lift, read, fail_if, data_of, borrow, write,
  with_borrow_mut,
}
use rebuild_token_vesting.Runtime.Calls.{Runtime}

-- The new header is packed into the first bytes of the account, borrowed for that.
unfoldable pub store_header : AccountInfo → VestingScheduleHeader → Action (Unit {0})
store_header vesting_account new_state = with_borrow_mut vesting_account.key (do
  bytes ← read (λ w. ok (data_of w vesting_account.key))
  bytes' ← lift (write_to bytes Header.len (Header.pack_into_slice new_state))
  write vesting_account.key bytes')

module _ (rt : Runtime) (program_id : Pubkey) where
  -- The checks; the result is the header, `state`.
  unfoldable pub check_change :
      AccountInfo → AccountInfo → AccountInfo → Seeds → Action VestingScheduleHeader
  check_change vesting_account destination_token_account destination_token_account_owner seeds = do
    bytes ← borrow vesting_account.key
    fail_if (ltb (length bytes) Header.len) invalid_account_data
    vesting_account_key ← lift (rt.create_program_address (seeds ∷ []) program_id)
    fail_if (not (bytes_eq vesting_account_key vesting_account.key)) invalid_argument
    packed_state ← borrow vesting_account.key
    header_bytes ← lift (index_to packed_state Header.len)
    state ← lift (rt.unpack Header.len Header.unpack_from_slice Header.is_initialized header_bytes)
    fail_if (not (bytes_eq state.destination_address destination_token_account.key))
        invalid_argument
    fail_if (not destination_token_account_owner.is_signer) invalid_argument
    token_bytes ← borrow destination_token_account.key
    token_account ← lift (rt.token_unpack token_bytes)
    fail_if (not (bytes_eq token_account.owner destination_token_account_owner.key))
        invalid_argument
    pure state

  unfoldable pub change_with :
      AccountInfo → AccountInfo → AccountInfo → AccountInfo → Seeds → Action (Unit {0})
  unfolding check_change store_header
  change_with vesting_account destination_token_account destination_token_account_owner
        new_destination_token_account seeds =
      do
        state ←
            check_change vesting_account destination_token_account destination_token_account_owner
              seeds
        store_header vesting_account
            (record state { destination_address = new_destination_token_account.key })

  unfoldable pub process_change_destination : List AccountInfo → Seeds → Action (Unit {0})
  unfolding change_with
  process_change_destination accounts seeds = do
    (vesting_account, iter) ← lift (rt.next_account_info accounts)
    (destination_token_account, iter) ← lift (rt.next_account_info iter)
    (destination_token_account_owner, iter) ← lift (rt.next_account_info iter)
    (new_destination_token_account, iter) ← lift (rt.next_account_info iter)
    change_with vesting_account destination_token_account destination_token_account_owner
        new_destination_token_account seeds
