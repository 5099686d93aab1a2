-- ===== src/Processor/Unlock/Success.antt =====
-- What a successful `process_unlock` (rs/src/processor.rs) has done.
use rebuild_token_vesting.Base.{
  ℕ, ◌<◌, ◌≡◌, ◌≢◌, sym, ap, ◌∙◌, none, List, [], ◌∷◌, ok, arith, bytes_eq→eq, append-nil, index_to,
  index_to-append, ◌==◌,
}
use rebuild_token_vesting.Base.Bytes.{Bytes}
use rebuild_token_vesting.Error.{ProgramError, invalid_argument}
use rebuild_token_vesting.State.Header
use rebuild_token_vesting.State.Header.{Pubkey, VestingScheduleHeader}
use rebuild_token_vesting.State.Schedule.{VestingSchedule}
use rebuild_token_vesting.State.Layout.{encode_header, encode_schedules, length-encode_header}
use rebuild_token_vesting.State.RoundTrip.{Header-unpack_lem}
use rebuild_token_vesting.Contract.{
  Contract, IsContract, header, header-IsHeader, encode, due, settled, release, length-settled,
}
use rebuild_token_vesting.Instruction.{Seeds}
use rebuild_token_vesting.Runtime.Action.{World, AccountInfo, ◌>>=◌, data_of, set_data}
use rebuild_token_vesting.Runtime.Calls
use rebuild_token_vesting.Runtime.Calls.{Runtime, ℤ, as_u64, TokenAccount}
use rebuild_token_vesting.Runtime.Documented.{PackUnpack, TransferKeeps}
use rebuild_token_vesting.Runtime.Steps.{step-eq-ok, action-eq-ok, fail_if-eq-ok}
use rebuild_token_vesting.Processor.Unlock.{
  check_unlock, vested, send, unlock_with, store_schedules,
}
use rebuild_token_vesting.Processor.Unlock.Checks.{UnlockChecked, check_unlock-eq-ok}
use rebuild_token_vesting.Processor.Unlock.Effect.{Holds, vested_lem, store_schedules_lem}

pub encode_front :
    (c : Contract)
    → IsContract c
    → index_to {E = ProgramError} (encode c) 65 ≡ ok (encode_header (header c))
unfolding encode
encode_front c v =
    index_to-append 65 (encode_header (header c)) (encode_schedules c.schedules)
      (length-encode_header (header c) (header-IsHeader c v))

pub header_read :
    (c : Contract)
    → IsContract c
    → Header.unpack_from_slice (encode_header (header c)) ≡ ok (header c)
header_read c v = rw append-nil at (Header-unpack_lem (header c) [] (header-IsHeader c v))

-- The header that the checks unpacked is the contract's.
pub header-IsContract :
    (rt : Runtime) (c : Contract) (bs : Bytes) (h : VestingScheduleHeader)
    → PackUnpack rt
    → IsContract c
    → index_to {E = ProgramError} (encode c) 65 ≡ ok bs
    → rt.unpack 65 Header.unpack_from_slice Header.is_initialized bs ≡ ok h
    → h ≡ header c
header-IsContract rt c bs h doc v front unpacked =
    let same : bs ≡ encode_header (header c) = cc (encode_front c v) in
    let read = (doc.unpacked 65 Header.unpack_from_slice Header.is_initialized bs h unpacked).0 in
    cc (header_read c v)

-- The outcome of an unlock that succeeds, from the accounts `w` to the accounts `w'`.
pub record Unlocks (rt : Runtime) (clock vesting token destination : AccountInfo) (c : Contract)
    (w w' : World) : Type 0 where
  pub time : ℤ
  pub clock_read : rt.clock_from_account_info clock w ≡ ok time
  pub some_due : 0 < due (as_u64 time) c.schedules
  pub to_destination : c.destination ≡ destination.key
  pub token_account : TokenAccount
  pub token_unpacked : rt.token_unpack (data_of w token.key) ≡ ok token_account
  pub from_vesting : token_account.owner ≡ vesting.key
  pub ix : Calls.Instruction
  pub transfer_made :
      rt.transfer rt.spl_token_id token.key destination.key vesting.key []
        (due (as_u64 time) c.schedules)
      ≡ ok ix
  pub infos : List AccountInfo
  pub signer_seeds : List (List Bytes)
  pub sent : World
  pub transferred : rt.invoke_signed ix infos signer_seeds w ≡ (ok tt, sent)
  pub result : w' ≡ set_data sent vesting.key (encode (release (as_u64 time) c))

vested-clock :
    (rt : Runtime) (clock vesting : AccountInfo) (w : World) (p : ℕ × List VestingSchedule)
    (w2 : World)
    → vested rt clock vesting w ≡ (ok p, w2)
    → (t : ℤ) × (rt.clock_from_account_info clock w ≡ ok t)
unfolding vested
vested-clock rt clock vesting w p w2 e =
    let (t, read, _) = step-eq-ok (rt.clock_from_account_info clock w) _ w e in (t, read)

-- The parts of a `send` that succeeded.
record Sent (rt : Runtime) (spl vesting token destination : AccountInfo) (key : Pubkey) (total : ℕ)
    (ss : List VestingSchedule) (w w' : World) : Type 0 where
  some_due : 0 < total
  ix : Calls.Instruction
  transfer_made : rt.transfer spl.key token.key destination.key key [] total ≡ ok ix
  infos : List AccountInfo
  signer_seeds : List (List Bytes)
  sent : World
  transferred : rt.invoke_signed ix infos signer_seeds w ≡ (ok tt, sent)
  stored : store_schedules vesting ss sent ≡ (ok tt, w')

send-eq-ok :
    (rt : Runtime) (spl vesting token destination : AccountInfo) (key : Pubkey) (seeds : Seeds)
    (total : ℕ) (ss : List VestingSchedule) (w w' : World)
    → send rt spl vesting token destination key seeds total ss w ≡ (ok tt, w')
    → Sent rt spl vesting token destination key total ss w w'
unfolding send
send-eq-ok rt spl vesting token destination key seeds total ss w w' e =
    let (nonzero, e1) = fail_if-eq-ok (total == 0) invalid_argument _ w e in
    let (ix, made, e2) =
      step-eq-ok (rt.transfer spl.key token.key destination.key key [] total) _ w e1 in
    let infos : List AccountInfo = spl ∷ token ∷ destination ∷ vesting ∷ [] in
    let signers : List (List Bytes) = (seeds ∷ []) ∷ [] in
    let (_, sent, transferred, e3) =
      action-eq-ok (rt.invoke_signed ix infos signers) (λ _. store_schedules vesting ss) w e2 in
    record {
      some_due = ground arith;
      ix = ix;
      transfer_made = made;
      infos = infos;
      signer_seeds = signers;
      sent = sent;
      transferred = transferred;
      stored = e3;
    }

module _ (rt : Runtime) (pack : PackUnpack rt) (keeps : TransferKeeps rt) (program_id : Pubkey)
    (spl clock vesting token destination : AccountInfo) (seeds : Seeds) (w w' : World)
    (c : Contract) (v : IsContract c) (free : w.borrowed ≡ none) (holds : Holds w vesting.key c)
    (foreign : (w.accounts vesting.key).owner ≢ rt.spl_token_id) where
  -- The checks and the send, put together for the contract `c`.
  joined :
      (key : Pubkey) (t : ℤ)
      → UnlockChecked rt program_id spl vesting token destination seeds w key
      → rt.clock_from_account_info clock w ≡ ok t
      → Sent rt spl vesting token destination key
          (due (as_u64 t) c.schedules)
          (settled (as_u64 t) c.schedules)
          w
          w'
      → Unlocks rt clock vesting token destination c w w'
  joined key t checks read sent =
      let key_eq : key ≡ vesting.key = bytes_eq→eq _ _ checks.key_matches in
      let spl_eq : spl.key ≡ rt.spl_token_id = bytes_eq→eq _ _ checks.spl_matches in
      let made = rw (key_eq, spl_eq) at sent.transfer_made in
      let still : Holds sent.sent vesting.key c =
        ap (λ x. x.bytes)
          (keeps.accounts_kept _ _ _ _ _ sent.ix sent.infos sent.signer_seeds w sent.sent made
            sent.transferred vesting.key foreign)
        ∙ holds in
      let stored =
        store_schedules_lem vesting sent.sent c (settled (as_u64 t) c.schedules) v
          (keeps.borrows_kept sent.ix sent.infos sent.signer_seeds w sent.sent sent.transferred
            ∙ free)
          still (length-settled (as_u64 t) c.schedules) in
      let front = rw holds at checks.prefix in
      let header_eq : checks.header ≡ header c =
        header-IsContract rt c checks.header_bytes checks.header pack v front checks.unpacked in
      record {
        time = t;
        clock_read = read;
        some_due = sent.some_due;
        to_destination =
            ap (λ h. h.destination_address) (sym header_eq)
            ∙ bytes_eq→eq _ _ checks.destination_matches;
        token_account = checks.token_account;
        token_unpacked = checks.token_unpacked;
        from_vesting = bytes_eq→eq _ _ checks.token_owner ∙ key_eq;
        ix = sent.ix;
        transfer_made = made;
        infos = sent.infos;
        signer_seeds = sent.signer_seeds;
        sent = sent.sent;
        transferred = sent.transferred;
        result = cc (sent.stored, stored);
      }

  sent_what_is_due :
      (key : Pubkey) (t : ℤ) (p : ℕ × List VestingSchedule) (w2 : World)
      → UnlockChecked rt program_id spl vesting token destination seeds w key
      → rt.clock_from_account_info clock w ≡ ok t
      → vested rt clock vesting w ≡ (ok p, w2)
      → send rt spl vesting token destination key seeds p.0 p.1 w2 ≡ (ok tt, w')
      → Unlocks rt clock vesting token destination c w w'
  sent_what_is_due key t p w2 checks read released e =
      let known = vested_lem rt clock vesting w c t v free holds read in
      let same_p : p ≡ (due (as_u64 t) c.schedules, settled (as_u64 t) c.schedules) =
        cc (released, known) in
      let same_w2 : w2 ≡ w = cc (released, known) in
      joined key t checks read (
        rw (same_p, same_w2) at
          (send-eq-ok rt spl vesting token destination key seeds p.0 p.1 w2 w' e))

  behind_checks :
      (key : Pubkey) (w1 : World) (p : ℕ × List VestingSchedule) (w2 : World)
      → w1 ≡ w
      → UnlockChecked rt program_id spl vesting token destination seeds w key
      → vested rt clock vesting w1 ≡ (ok p, w2)
      → send rt spl vesting token destination key seeds p.0 p.1 w2 ≡ (ok tt, w')
      → Unlocks rt clock vesting token destination c w w'
  behind_checks key w1 p w2 same_w checks released e =
      let released_w = rw same_w at released in
      let (t, read) = vested-clock rt clock vesting w p w2 released_w in
      sent_what_is_due key t p w2 checks read released_w e

  -- An unlock that succeeds on an account that holds a contract, found no borrow outstanding and
  -- owned by another program than the token program, has passed the checks and has done what
  -- `Unlocks` says.
  pub unlock_with-Unlocks :
      unlock_with rt program_id spl clock vesting token destination seeds w ≡ (ok tt, w')
      → Unlocks rt clock vesting token destination c w w'
  unfolding unlock_with
  unlock_with-Unlocks e =
      let (key, w1, checked, e1) =
        action-eq-ok (check_unlock rt program_id spl vesting token destination seeds)
          (λ k.
            vested rt clock vesting >>= λ p. send rt spl vesting token destination k seeds p.0 p.1)
          w e in
      let (same_w, checks) =
        check_unlock-eq-ok rt program_id spl vesting token destination seeds w key w1 checked in
      let (p, w2, released, e2) =
        action-eq-ok (vested rt clock vesting)
          (λ p. send rt spl vesting token destination key seeds p.0 p.1) w1 e1 in
      behind_checks key w1 p w2 same_w checks released e2
