-- ===== src/Processor/ChangeDestination/Effect.antt =====
-- Who may change the destination of a contract by `process_change_destination`
-- (rs/src/processor.rs), and what that changes.
use rebuild_token_vesting.Base.{
  ◌≡◌, ◌↔◌, refl, sym, ap, ◌∙◌, true, false, none, List, [], ◌∷◌, ◌++◌, length, ltb, drop_all,
  le→ltb, ok, arith, bytes_eq→eq, bytes_eq_refl, append-nil, write_to-append,
}
use rebuild_token_vesting.State.Header
use rebuild_token_vesting.State.Header.{Pubkey, VestingScheduleHeader}
use rebuild_token_vesting.State.Layout.{encode_header, encode_schedules, length-encode_header}
use rebuild_token_vesting.State.RoundTrip.{Header-pack_lem}
use rebuild_token_vesting.Contract.{
  Contract, IsContract, header, header-IsHeader, encode, length-encode,
}
use rebuild_token_vesting.Contract.Life.{redirect}
use rebuild_token_vesting.Instruction.{Seeds}
use rebuild_token_vesting.Runtime.Action.{World, AccountInfo, data_of, set_data}
use rebuild_token_vesting.Runtime.Calls.{Runtime, TokenAccount}
use rebuild_token_vesting.Runtime.Documented.{PackUnpack, NextAccount}
use rebuild_token_vesting.Runtime.Steps.{action-eq-ok, pure-eq-ok}
use rebuild_token_vesting.Runtime.Store.{borrow_free, with_borrow_mut_free}
use rebuild_token_vesting.Processor.ChangeDestination.{
  check_change, store_header, change_with, process_change_destination,
}
use rebuild_token_vesting.Processor.ChangeDestination.Checks.{ChangeChecked, check_change-eq-ok}
use rebuild_token_vesting.Processor.Unlock.Effect.{Holds}
use rebuild_token_vesting.Processor.Unlock.Success.{encode_front, header_read, header-IsContract}

-- The bytes of a header over those of another.
header_over :
    (new old : VestingScheduleHeader)
    → length (encode_header old) ≡ 65
    → Header.pack_into_slice new (encode_header old) ≡ ok (encode_header new)
header_over new old e = rw (
  Header-pack_lem new (encode_header old) (omega arith),
  drop_all 65 (encode_header old) e,
  append-nil (encode_header new),
)

store_header_lem :
    (vesting : AccountInfo) (w : World) (c : Contract) (new : VestingScheduleHeader)
    → IsContract c
    → w.borrowed ≡ none
    → Holds w vesting.key c
    → store_header vesting new w
      ≡ (ok tt, set_data w vesting.key (encode_header new ++ encode_schedules c.schedules))
unfolding store_header encode set_data
store_header_lem vesting w c new v free holds =
    with_borrow_mut_free w vesting.key _ free
    ∙ ground (
      arith,
      write_to-append 65 (encode_header (header c)) (encode_schedules c.schedules)
          (Header.pack_into_slice new) (length-encode_header (header c) (header-IsHeader c v)),
      header_over new (header c) (length-encode_header (header c) (header-IsHeader c v)),
    )

-- The owner of the contract's present destination account has signed, and the vesting account is
-- the one that the seeds name.
pub record Authorised (rt : Runtime) (program_id : Pubkey) (vesting destination owner : AccountInfo)
    (seeds : Seeds) (w : World) (c : Contract) : Type 0 where
  pub derived : rt.create_program_address (seeds ∷ []) program_id ≡ ok vesting.key
  pub present_destination : c.destination ≡ destination.key
  pub signed : owner.is_signer ≡ true
  pub token_account : TokenAccount
  pub token_unpacked : rt.token_unpack (data_of w destination.key) ≡ ok token_account
  pub owned : token_account.owner ≡ owner.key

module _ (rt : Runtime) (pack : PackUnpack rt) (program_id : Pubkey)
    (vesting destination owner new : AccountInfo) (seeds : Seeds) (w : World) (c : Contract)
    (v : IsContract c) (free : w.borrowed ≡ none) (holds : Holds w vesting.key c) where
  change_accounts :
      (next : NextAccount rt) (more : List AccountInfo)
      → process_change_destination rt program_id
          (vesting ∷ destination ∷ owner ∷ new ∷ more)
          seeds
          w
        ≡ change_with rt program_id vesting destination owner new seeds w
  unfolding process_change_destination
  change_accounts next more = ground (
    arith,
    next.at_entry vesting (destination ∷ owner ∷ new ∷ more),
    next.at_entry destination (owner ∷ new ∷ more),
    next.at_entry owner (new ∷ more),
    next.at_entry new more,
  )

  header_unpacked :
      rt.unpack 65 Header.unpack_from_slice Header.is_initialized (encode_header (header c))
      ≡ ok (header c)
  header_unpacked =
      pack.initialized 65 Header.unpack_from_slice Header.is_initialized (encode_header (header c))
        (header c) (length-encode_header (header c) (header-IsHeader c v)) (header_read c v) refl

  long_enough : ltb (length (encode c)) 65 ≡ false
  long_enough = le→ltb (length (encode c)) 65 (omega (arith, length-encode c v))

  Authorised-passes :
      Authorised rt program_id vesting destination owner seeds w c
      → check_change rt program_id vesting destination owner seeds w ≡ (ok (header c), w)
  unfolding check_change
  Authorised-passes m = ground (
    arith,
    holds,
    bytes_eq_refl vesting.key,
    bytes_eq_refl destination.key,
    bytes_eq_refl owner.key,
    borrow_free w vesting.key free,
    borrow_free w destination.key free,
    encode_front c v,
    long_enough,
    header_unpacked,
  )

  passes-Authorised :
      (state : VestingScheduleHeader)
      → ChangeChecked rt program_id vesting destination owner seeds w state
      → Authorised rt program_id vesting destination owner seeds w c × (state ≡ header c)
  passes-Authorised state checks =
      let key_eq : checks.vesting_account_key ≡ vesting.key = bytes_eq→eq _ _ checks.key_matches in
      let front = rw holds at checks.prefix in
      let same : state ≡ header c =
        header-IsContract rt c checks.header_bytes state pack v front checks.unpacked in
      (
        record {
          derived = rw (← key_eq) checks.derived;
          present_destination =
              ap (λ h. h.destination_address) (sym same)
              ∙ bytes_eq→eq _ _ checks.destination_matches;
          signed = checks.owner_signed;
          token_account = checks.token_account;
          token_unpacked = checks.token_unpacked;
          owned = bytes_eq→eq _ _ checks.token_owner;
        },
        same,
      )

  redirected : World
  redirected = set_data w vesting.key (encode (redirect new.key c))

  stored :
      store_header vesting (record (header c) { destination_address = new.key }) w
      ≡ (ok tt, redirected)
  unfolding encode redirected
  stored =
      store_header_lem vesting w c (record (header c) { destination_address = new.key }) v free
        holds

  allowed :
      Authorised rt program_id vesting destination owner seeds w c
      → change_with rt program_id vesting destination owner new seeds w ≡ (ok tt, redirected)
  unfolding change_with
  allowed m = ground (arith, Authorised-passes m, stored)

  -- The checks returned `state` and left the accounts alone.
  stored_by :
      (w' w1 : World) (state : VestingScheduleHeader)
      → state ≡ header c
      → w1 ≡ w
      → store_header vesting (record state { destination_address = new.key }) w1 ≡ (ok tt, w')
      → w' ≡ redirected
  stored_by w' w1 state same same_w e =
      let e' = rw (same, same_w) at e in (pure-eq-ok tt redirected (sym stored ∙ e')).1

  succeeded :
      (w' : World)
      → change_with rt program_id vesting destination owner new seeds w ≡ (ok tt, w')
      → Authorised rt program_id vesting destination owner seeds w c × (w' ≡ redirected)
  unfolding change_with
  succeeded w' e =
      let (state, w1, checked, e1) =
        action-eq-ok (check_change rt program_id vesting destination owner seeds)
          (λ s. store_header vesting (record s { destination_address = new.key })) w e in
      let (same_w, checks) =
        check_change-eq-ok rt program_id vesting destination owner seeds w state w1 checked in
      let (m, same) = passes-Authorised state checks in (m, stored_by w' w1 state same same_w e1)

  -- On an account that holds a contract, with no data borrowed, a change of the destination
  -- succeeds exactly when the seeds name the vesting account, the second account is the contract's
  -- destination and the owner of that token account has signed; it then replaces the destination
  -- and nothing else.
  pub process_change_destination_iff :
      (next : NextAccount rt) (more : List AccountInfo) (w' : World)
      → (process_change_destination rt program_id
            (vesting ∷ destination ∷ owner ∷ new ∷ more)
            seeds
            w
          ≡ (ok tt, w'))
        ↔ (Authorised rt program_id vesting destination owner seeds w c
            × (w' ≡ set_data w vesting.key (encode (redirect new.key c))))
  unfolding redirected
  process_change_destination_iff next more w' = (
    λ e. succeeded w' (sym (change_accounts next more) ∙ e),
    λ m. change_accounts next more ∙ allowed m.0 ∙ ap (λ x. (ok tt, x)) (sym m.1),
  )
