-- ===== src/Processor/Create/Success.antt =====
-- What a successful `process_create` (rs/src/processor.rs) has done.
use rebuild_token_vesting.Base.{
  ℕ, ◌+◌, ◌*◌, ◌^◌, ◌≤◌, ◌<◌, ◌≡◌, ◌≢◌, refl, sym, ap, ◌∙◌, true, false, some, List, [], ◌∷◌,
  length, map, ok, arith, bytes_eq, bytes_eq_refl, ltb,
}
use rebuild_token_vesting.Error.{insufficient_funds}
use rebuild_token_vesting.State.Header.{Pubkey, IsPubkey}
use rebuild_token_vesting.Instruction
use rebuild_token_vesting.Instruction.{Seeds}
use rebuild_token_vesting.Contract.{encode, locked}
use rebuild_token_vesting.Runtime.Action.{
  World, Action, AccountInfo, ◌>>=◌, data_of, set_data, is_borrowed, borrow, with_borrow_mut,
}
use rebuild_token_vesting.Runtime.Calls
use rebuild_token_vesting.Runtime.Calls.{Runtime, TokenAccount}
use rebuild_token_vesting.Runtime.Steps.{
  step-eq-ok, borrow-eq-ok, fail_if-eq-ok, action-eq-ok, with_borrow_mut-eq-ok,
}
use rebuild_token_vesting.Runtime.Store.{accounts-set_data_ne}
use rebuild_token_vesting.Processor.Create.{
  state_schedule, check_vesting_account, check_token_account, fill, fund, create_with,
}
use rebuild_token_vesting.Processor.Create.Fill.{contract_of}
use rebuild_token_vesting.Processor.Create.FillOutcome.{fill-eq-ok}
use rebuild_token_vesting.Processor.Create.Checks.{
  VestingChecked, TokenChecked, check_vesting_account-eq-ok, check_token_account-eq-ok,
}

-- The parts of a `fund` that succeeded.
record Funded (rt : Runtime) (spl token owner source : AccountInfo) (total : ℕ) (w w' : World)
    : Type 0 where
  free : is_borrowed w source.key ≡ false
  source_account : TokenAccount
  source_unpacked : rt.token_unpack (data_of w source.key) ≡ ok source_account
  enough : total ≤ source_account.amount
  ix : Calls.Instruction
  transfer_made : rt.transfer spl.key source.key token.key owner.key [] total ≡ ok ix
  infos : List AccountInfo
  transferred : rt.invoke ix infos w ≡ (ok tt, w')

fund-eq-ok :
    (rt : Runtime) (spl token owner source : AccountInfo) (total : ℕ) (w w' : World)
    → fund rt spl token owner source total w ≡ (ok tt, w')
    → Funded rt spl token owner source total w w'
unfolding fund borrow
fund-eq-ok rt spl token owner source total w w' e =
    let (free, e1) = borrow-eq-ok (is_borrowed w source.key) (data_of w source.key) _ w e in
    let (a, unpacked, e2) = step-eq-ok (rt.token_unpack (data_of w source.key)) _ w e1 in
    let (covered, e3) = fail_if-eq-ok (ltb a.amount total) insufficient_funds _ w e2 in
    let (ix, made, e4) =
      step-eq-ok (rt.transfer spl.key source.key token.key owner.key [] total) _ w e3 in
    record {
      free = free;
      source_account = a;
      source_unpacked = unpacked;
      enough = not_less a.amount total covered;
      ix = ix;
      transfer_made = made;
      infos = source ∷ token ∷ spl ∷ owner ∷ [];
      transferred = e4;
    }
  where
    not_less : (a b : ℕ) → ltb a b ≡ false → b ≤ a
    not_less a b h = ground arith

-- The outcome of a creation that succeeds, from the accounts `w` to the accounts `w'`.
pub record Creates (rt : Runtime) (program_id : Pubkey)
    (spl vesting token owner source : AccountInfo) (seeds : Seeds) (mint dest : Pubkey)
    (ss : List Instruction.Schedule) (w w' : World) : Type 0 where
  pub vesting_checked : VestingChecked rt program_id vesting owner seeds w
  pub token_checked : TokenChecked rt vesting token w
  pub size : length (data_of w vesting.key) ≡ 65 + length ss * 16
  pub total_u64 : locked (map state_schedule ss) < 2 ^ 64
  pub distinct : source.key ≢ vesting.key
  pub source_account : TokenAccount
  pub source_unpacked : rt.token_unpack (data_of w source.key) ≡ ok source_account
  pub enough : locked (map state_schedule ss) ≤ source_account.amount
  pub ix : Calls.Instruction
  pub transfer_made :
      rt.transfer spl.key source.key token.key owner.key [] (locked (map state_schedule ss)) ≡ ok ix
  pub infos : List AccountInfo
  pub sent : World
  pub transferred :
      rt.invoke ix infos (record (set_data w vesting.key (encode (contract_of mint dest ss))) {
        borrowed = some vesting.key;
      })
      ≡ (ok tt, sent)
  pub result : w' ≡ record sent { borrowed = w.borrowed }

module _ (rt : Runtime) (program_id : Pubkey) (spl vesting token owner source : AccountInfo)
    (seeds : Seeds) (mint dest : Pubkey) (km : IsPubkey mint) (kd : IsPubkey dest)
    (ss : List Instruction.Schedule) (w w' : World) where
  total : ℕ
  total = locked (map state_schedule ss)

  filled : World
  filled = record (set_data w vesting.key (encode (contract_of mint dest ss))) {
    borrowed = some vesting.key;
  }

  not_vesting : is_borrowed filled source.key ≡ false → source.key ≢ vesting.key
  unfolding is_borrowed filled
  not_vesting free same =
      let taken : bytes_eq vesting.key source.key ≡ true = rw same (bytes_eq_refl vesting.key) in
      no_both (sym taken ∙ free)
    where
      no_both : true ≡ false → ⊥
      no_both h = cc

  put_together :
      (held : World)
      → VestingChecked rt program_id vesting owner seeds w
      → TokenChecked rt vesting token w
      → length (data_of w vesting.key) ≡ 65 + length ss * 16
      → total < 2 ^ 64
      → Funded rt spl token owner source total filled held
      → w' ≡ record held { borrowed = w.borrowed }
      → Creates rt program_id spl vesting token owner source seeds mint dest ss w w'
  unfolding total filled
  put_together held cv ct size small f result =
      let apart : source.key ≢ vesting.key = not_vesting f.free in
      record {
        vesting_checked = cv;
        token_checked = ct;
        size = size;
        total_u64 = small;
        distinct = apart;
        source_account = f.source_account;
        source_unpacked =
            ap (λ x. rt.token_unpack x.bytes)
              (sym (
                accounts-set_data_ne w vesting.key source.key (encode (contract_of mint dest ss))
                  apart))
            ∙ f.source_unpacked;
        enough = f.enough;
        ix = f.ix;
        transfer_made = f.transfer_made;
        infos = f.infos;
        sent = held;
        transferred = f.transferred;
        result = result;
      }

  funded :
      (n : ℕ) (w1 held : World)
      → n ≡ total
      → w1 ≡ filled
      → fund rt spl token owner source n w1 ≡ (ok tt, held)
      → Funded rt spl token owner source total filled held
  funded n w1 held same_n same_w e =
      fund-eq-ok rt spl token owner source total filled held (rw (same_n, same_w) at e)

  -- Holding the data and writing them are two fields of the `World`.
  filled_held :
      set_data
        (record w { borrowed = some vesting.key })
        vesting.key
        (encode (contract_of mint dest ss))
      ≡ filled
  unfolding set_data filled
  filled_held = refl

  -- The write and the transfer, and the same behind the check of the token account.
  body : Action (Unit {0})
  body = fill vesting mint dest ss >>= λ n. fund rt spl token owner source n

  behind : Action (Unit {0})
  behind = check_token_account rt vesting token >>= λ _. with_borrow_mut vesting.key body

  written_and_paid :
      VestingChecked rt program_id vesting owner seeds w
      → TokenChecked rt vesting token w
      → with_borrow_mut vesting.key body w ≡ (ok tt, w')
      → Creates rt program_id spl vesting token owner source seeds mint dest ss w w'
  unfolding body total
  written_and_paid cv ct e =
      let (held, inside, result) = with_borrow_mut-eq-ok vesting.key body w e in
      let (n, w3, filling, funding) =
        action-eq-ok (fill vesting mint dest ss) (λ n. fund rt spl token owner source n)
          (record w { borrowed = some vesting.key }) inside in
      let (size, small, same_n, same_w3) =
        fill-eq-ok vesting mint dest km kd ss (record w { borrowed = some vesting.key }) n w3
          filling in
      put_together held cv ct size small (funded n w3 held same_n (same_w3 ∙ filled_held) funding)
        result

  behind_vesting :
      (w1 : World)
      → w1 ≡ w
      → VestingChecked rt program_id vesting owner seeds w
      → behind w1 ≡ (ok tt, w')
      → Creates rt program_id spl vesting token owner source seeds mint dest ss w w'
  unfolding behind
  behind_vesting w1 same cv e =
      let (_, w2, checked, rest) =
        action-eq-ok (check_token_account rt vesting token) (λ _. with_borrow_mut vesting.key body)
          w (rw same at e) in
      let (same2, ct) = check_token_account-eq-ok rt vesting token w w2 checked in
      written_and_paid cv ct (rw same2 at rest)

  -- A creation that succeeds has done what `Creates` says.
  pub create_with-Creates :
      create_with rt program_id spl vesting token owner source seeds mint dest ss w ≡ (ok tt, w')
      → Creates rt program_id spl vesting token owner source seeds mint dest ss w w'
  unfolding create_with behind body
  create_with-Creates e =
      let (_, w1, checked, rest) =
        action-eq-ok (check_vesting_account rt program_id vesting owner seeds) (λ _. behind) w e in
      let (same, cv) = check_vesting_account-eq-ok rt program_id vesting owner seeds w w1 checked in
      behind_vesting w1 same cv rest
