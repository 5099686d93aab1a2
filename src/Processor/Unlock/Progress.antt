-- ===== src/Processor/Unlock/Progress.antt =====
-- When `process_unlock` (rs/src/processor.rs) succeeds, and what it answers when nothing is due.
use rebuild_token_vesting.Base.{
  ◌<◌, ◌≡◌, ◌≢◌, ap, ◌∙◌, none, List, [], ◌∷◌, ok, err, arith, refl, bytes_eq_refl,
}
use rebuild_token_vesting.Error.{invalid_argument}
use rebuild_token_vesting.State.Header
use rebuild_token_vesting.State.Header.{Pubkey}
use rebuild_token_vesting.State.Layout.{encode_header, length-encode_header}
use rebuild_token_vesting.Contract.{
  Contract, IsContract, header, header-IsHeader, encode, due, settled, release, length-settled,
}
use rebuild_token_vesting.Instruction.{Seeds}
use rebuild_token_vesting.Runtime.Action.{World, AccountInfo, data_of, set_data}
use rebuild_token_vesting.Runtime.Calls
use rebuild_token_vesting.Runtime.Calls.{Runtime, ℤ, as_u64, TokenAccount}
use rebuild_token_vesting.Runtime.Documented.{PackUnpack, TransferKeeps, NextAccount}
use rebuild_token_vesting.Runtime.Store.{borrow_free}
use rebuild_token_vesting.Processor.Unlock.{
  check_unlock, send, store_schedules, unlock_with, process_unlock,
}
use rebuild_token_vesting.Processor.Unlock.Effect.{Holds, vested_lem, store_schedules_lem}
use rebuild_token_vesting.Processor.Unlock.Success.{encode_front, header_read}
use rebuild_token_vesting.Processor.Unlock.Once.{process_unlock_accounts}

-- The accounts are those that the contract `c` and the seeds name.
pub record Matches (rt : Runtime) (program_id : Pubkey)
    (spl vesting token destination : AccountInfo) (seeds : Seeds) (w : World) (c : Contract)
    : Type 0 where
  pub valid : IsContract c
  pub free : w.borrowed ≡ none
  pub holds : Holds w vesting.key c
  pub derived : rt.create_program_address (seeds ∷ []) program_id ≡ ok vesting.key
  pub spl_program : spl.key ≡ rt.spl_token_id
  pub to_destination : c.destination ≡ destination.key
  pub token_account : TokenAccount
  pub token_unpacked : rt.token_unpack (data_of w token.key) ≡ ok token_account
  pub token_owner : token_account.owner ≡ vesting.key

module _ (rt : Runtime) (next : NextAccount rt) (pack : PackUnpack rt) (program_id : Pubkey)
    (spl clock vesting token destination : AccountInfo) (more : List AccountInfo) (seeds : Seeds)
    (w : World) (c : Contract)
    (m : Matches rt program_id spl vesting token destination seeds w c) where
  header_unpacked :
      rt.unpack 65 Header.unpack_from_slice Header.is_initialized (encode_header (header c))
      ≡ ok (header c)
  header_unpacked =
      pack.initialized 65 Header.unpack_from_slice Header.is_initialized (encode_header (header c))
        (header c) (length-encode_header (header c) (header-IsHeader c m.valid))
        (header_read c m.valid) refl

  check_unlock_passes :
      check_unlock rt program_id spl vesting token destination seeds w ≡ (ok vesting.key, w)
  unfolding check_unlock
  check_unlock_passes = ground (
    arith,
    m.derived,
    m.holds,
    m.spl_program,
    m.to_destination,
    m.token_unpacked,
    m.token_owner,
    bytes_eq_refl vesting.key,
    bytes_eq_refl rt.spl_token_id,
    bytes_eq_refl destination.key,
    borrow_free w vesting.key m.free,
    borrow_free w token.key m.free,
    encode_front c m.valid,
    header_unpacked,
  )

  reaches_send :
      (t : ℤ)
      → rt.clock_from_account_info clock w ≡ ok t
      → unlock_with rt program_id spl clock vesting token destination seeds w
        ≡ send rt spl vesting token destination vesting.key seeds
            (due (as_u64 t) c.schedules)
            (settled (as_u64 t) c.schedules)
            w
  unfolding unlock_with
  reaches_send t read =
      ground
        (arith, check_unlock_passes, vested_lem rt clock vesting w c t m.valid m.free m.holds read)

  -- On the accounts that the contract names, with no data borrowed: before anything is due at the
  -- time that the clock shows, an unlock is refused with `InvalidArgument`, and no account changes.
  pub process_unlock_too_early :
      (t : ℤ)
      → rt.clock_from_account_info clock w ≡ ok t
      → due (as_u64 t) c.schedules ≡ 0
      → process_unlock rt program_id (spl ∷ clock ∷ vesting ∷ token ∷ destination ∷ more) seeds w
        ≡ (err invalid_argument, w)
  process_unlock_too_early t read zero_due =
      process_unlock_accounts rt program_id spl clock vesting token destination more seeds w next
      ∙ reaches_send t read
      ∙ (unfold send in ground arith)

  -- On the accounts that the contract names, with no data borrowed, a vesting account that is not
  -- the token program's, and a clock that can be read: once something is due and if the token
  -- program makes the transfer of what is due, the unlock succeeds and the contract is stored with
  -- what was due set to 0.
  pub process_unlock_succeeds :
      (keeps : TransferKeeps rt) (t : ℤ) (ix : Calls.Instruction) (sent : World)
      → (w.accounts vesting.key).owner ≢ rt.spl_token_id
      → rt.clock_from_account_info clock w ≡ ok t
      → 0 < due (as_u64 t) c.schedules
      → rt.transfer spl.key token.key destination.key vesting.key [] (due (as_u64 t) c.schedules)
        ≡ ok ix
      → rt.invoke_signed ix (spl ∷ token ∷ destination ∷ vesting ∷ []) ((seeds ∷ []) ∷ []) w
        ≡ (ok tt, sent)
      → process_unlock rt program_id (spl ∷ clock ∷ vesting ∷ token ∷ destination ∷ more) seeds w
        ≡ (ok tt, set_data sent vesting.key (encode (release (as_u64 t) c)))
  process_unlock_succeeds keeps t ix sent foreign read some_due made transferred =
      process_unlock_accounts rt program_id spl clock vesting token destination more seeds w next
      ∙ reaches_send t read
      ∙ (unfold send in ground (arith, stored))
    where
      still : Holds sent vesting.key c
      still =
          ap (λ x. x.bytes)
            (keeps.accounts_kept _ _ _ _ _ ix _ _ w sent (rw m.spl_program at made) transferred
              vesting.key foreign)
          ∙ m.holds

      stored :
          store_schedules vesting (settled (as_u64 t) c.schedules) sent
          ≡ (ok tt, set_data sent vesting.key (encode (release (as_u64 t) c)))
      stored =
          store_schedules_lem vesting sent c (settled (as_u64 t) c.schedules) m.valid
            (keeps.borrows_kept ix _ _ w sent transferred ∙ m.free) still
            (length-settled (as_u64 t) c.schedules)
