-- ===== src/Processor/Solvency/Balances.antt =====
-- The amounts in the token accounts behind `process_create` and `process_unlock` of
-- rs/src/processor.rs.
use rebuild_token_vesting.Base.{
  ℕ, ◌+◌, ◌-◌, ◌<◌, ◌≤◌, ◌≡◌, ◌≢◌, sym, ap, ◌∙◌, none, some, List, [], ◌∷◌, length, map, All, ok,
  arith,
}
use rebuild_token_vesting.State.Header.{Pubkey, IsPubkey}
use rebuild_token_vesting.Contract.{Contract, encode, locked, due, release}
use rebuild_token_vesting.Instruction
use rebuild_token_vesting.Instruction.{Seeds}
use rebuild_token_vesting.Instruction.Wire.{IsScheduleArg}
use rebuild_token_vesting.Runtime.Action.{World, AccountInfo, data_of, set_data}
use rebuild_token_vesting.Runtime.Calls.{Runtime, TokenAccount, ℤ, as_u64}
use rebuild_token_vesting.Runtime.Documented.{
  NextAccount, PackUnpack, TransferKeeps, TokenTransfer, Moved,
}
use rebuild_token_vesting.Runtime.Store.{accounts-set_data_ne}
use rebuild_token_vesting.Processor.Create.{state_schedule, process_create}
use rebuild_token_vesting.Processor.Create.Fill.{contract_of}
use rebuild_token_vesting.Processor.Create.Success.{Creates}
use rebuild_token_vesting.Processor.Create.Promises.{process_create_stores}
use rebuild_token_vesting.Processor.Unlock.{process_unlock}
use rebuild_token_vesting.Processor.Unlock.Success.{Unlocks}
use rebuild_token_vesting.Processor.Unlock.Once.{process_unlock_releases}
use rebuild_token_vesting.Processor.Lifecycle.{created-Live}
use rebuild_token_vesting.Processor.Solvency.{token_is_no_contract}

-- The account `k` is the token account `a`.
abbrev pub Has : Runtime → World → Pubkey → TokenAccount → Type 0
Has rt w k a = rt.token_unpack (data_of w k) ≡ ok a

store-Has :
    (rt : Runtime) (vesting k : Pubkey) (c : Contract) (w : World) (a : TokenAccount)
    → k ≢ vesting
    → Has rt w k a
    → Has rt (set_data w vesting (encode c)) k a
store-Has rt vesting k c w a apart has =
    ap (λ x. rt.token_unpack x.bytes) (accounts-set_data_ne w vesting k (encode c) apart) ∙ has

kept-Has :
    (rt : Runtime) (k : Pubkey) (w w' : World) (a : TokenAccount)
    → w'.accounts k ≡ w.accounts k
    → Has rt w k a
    → Has rt w' k a
kept-Has rt k w w' a kept has = ap (λ x. rt.token_unpack x.bytes) kept ∙ has

-- What a creation does to the amounts.
record Funds (rt : Runtime) (vesting token source : Pubkey) (total : ℕ) (w w' : World)
    : Type 0 where
  token_account : TokenAccount
  token_before : Has rt w token token_account
  no_delegate : token_account.delegate ≡ none
  paid_in : Has rt w' token (record token_account { amount = token_account.amount + total })
  paid_by :
      (a : TokenAccount)
      → Has rt w source a
      → a.delegate ≡ none
      → (total ≤ a.amount) × Has rt w' source (record a { amount = a.amount - total })
  others :
      (k : Pubkey) (d : TokenAccount)
      → k ≢ source
      → k ≢ token
      → Has rt w k d
      → (k ≢ vesting) × Has rt w' k d

module _ (rt : Runtime) (doc : TokenTransfer rt) (program_id : Pubkey)
    (spl vesting token owner source : AccountInfo) (seeds : Seeds) (mint dest : Pubkey)
    (ss : List Instruction.Schedule) (w w' : World) where
  Creates-Funds :
      spl.key ≡ rt.spl_token_id
      → source.key ≢ token.key
      → Creates rt program_id spl vesting token owner source seeds mint dest ss w w'
      → Funds rt vesting.key token.key source.key (locked (map state_schedule ss)) w w'
  Creates-Funds is_spl two done =
      let t = done.token_checked in
      let total : ℕ = locked (map state_schedule ss) in
      let c : Contract = contract_of mint dest ss in
      let filled : World = record (set_data w vesting.key (encode c)) {
        borrowed = some vesting.key;
      } in
      let moved : Moved rt source.key token.key total filled done.sent =
        doc.moves_unsigned source.key token.key owner.key total done.ix done.infos filled done.sent
          (ap (λ p. rt.transfer p source.key token.key owner.key [] total) (sym is_spl)
            ∙ done.transfer_made)
          done.transferred in
      let apart : (k : Pubkey) (a : TokenAccount) → Has rt w k a → k ≢ vesting.key = λ k a has.
        token_is_no_contract rt doc vesting.key k (length ss) w a (omega (arith, done.size)) has in
      let same : (k : Pubkey) → w'.accounts k ≡ done.sent.accounts k =
        λ k. ap (λ x. x.accounts k) done.result in
      record {
        token_account = t.token_account;
        token_before = t.token_unpacked;
        no_delegate = t.no_delegate;
        paid_in = kept-Has rt token.key done.sent w' _ (same token.key) (
            moved.credited t.token_account
              (store-Has rt vesting.key token.key c w t.token_account
                (apart token.key t.token_account t.token_unpacked) t.token_unpacked)
              two);
        paid_by = λ a has plain.
            let (enough, after) =
              moved.debited a
                (store-Has rt vesting.key source.key c w a (apart source.key a has) has) plain
                two in
            (enough, kept-Has rt source.key done.sent w' _ (same source.key) after);
        others = λ k d not_source not_token has. (
          apart k d has,
          kept-Has rt k filled w' d (same k ∙ moved.others k not_source not_token)
              (store-Has rt vesting.key k c w d (apart k d has) has),
        );
      }

module _ (rt : Runtime) (doc : TokenTransfer rt) (clock vesting token destination : AccountInfo)
    (c : Contract) (w w' : World) where
  -- What an unlock does to them.
  Unlocks-after :
      (done : Unlocks rt clock vesting token destination c w w') (k : Pubkey) (a : TokenAccount)
      → k ≢ vesting.key
      → Has rt done.sent k a
      → Has rt w' k a
  Unlocks-after done k a apart has =
      ap (λ x. rt.token_unpack (data_of x k)) done.result
      ∙ store-Has rt vesting.key k (release (as_u64 done.time) c) done.sent a apart has

  Unlocks-Moved :
      (done : Unlocks rt clock vesting token destination c w w')
      → Moved rt token.key destination.key (due (as_u64 done.time) c.schedules) w done.sent
  Unlocks-Moved done =
      doc.moves token.key destination.key vesting.key (due (as_u64 done.time) c.schedules) done.ix
        done.infos done.signer_seeds w done.sent done.transfer_made done.transferred

module _ (rt : Runtime) (next : NextAccount rt) (pack : PackUnpack rt) (keeps : TransferKeeps rt)
    (doc : TokenTransfer rt) (program_id : Pubkey) (other_program : program_id ≢ rt.spl_token_id)
    (vesting token source destination : AccountInfo) where
  -- If the program is not the token program, transfers do what the token program documents, no data
  -- are borrowed, the creation's first account is the token program, and source, vesting token
  -- account and destination are three token accounts, the source without a delegate: behind a
  -- successful creation and a successful unlock with keys and schedules in range, the source has
  -- paid the total of the schedules, the destination has received what was due at the time of the
  -- clock, more than 0, and the vesting token account has gained the difference.
  pub created_and_unlocked :
      (spl owner spl' clock : AccountInfo) (more more' : List AccountInfo) (seeds seeds' : Seeds)
      (mint dest : Pubkey) (ss : List Instruction.Schedule) (w w1 w2 : World) (a d : TokenAccount)
      → IsPubkey mint
      → IsPubkey dest
      → All IsScheduleArg ss
      → w.borrowed ≡ none
      → spl.key ≡ rt.spl_token_id
      → source.key ≢ token.key
      → destination.key ≢ token.key
      → destination.key ≢ source.key
      → Has rt w source.key a
      → a.delegate ≡ none
      → Has rt w destination.key d
      → process_create rt program_id
          (spl ∷ vesting ∷ token ∷ owner ∷ source ∷ more)
          seeds
          mint
          dest
          ss
          w
        ≡ (ok tt, w1)
      → process_unlock rt program_id
          (spl' ∷ clock ∷ vesting ∷ token ∷ destination ∷ more')
          seeds'
          w1
        ≡ (ok tt, w2)
      → (b : TokenAccount) × (t : ℤ) × Has rt w token.key b
        × (rt.clock_from_account_info clock w1 ≡ ok t)
        × (0 < due (as_u64 t) (map state_schedule ss))
        × (locked (map state_schedule ss) ≤ a.amount)
        × Has rt w2 source.key (record a { amount = a.amount - locked (map state_schedule ss) })
        × Has rt w2 token.key (record b {
          amount =
              b.amount + locked (map state_schedule ss) - due (as_u64 t) (map state_schedule ss);
        })
        × Has rt w2 destination.key
            (record d { amount = d.amount + due (as_u64 t) (map state_schedule ss) })
  created_and_unlocked spl owner spl' clock more more' seeds seeds' mint dest ss w w1 w2 a d km kd
        vs free is_spl two to_other to_third has_a plain has_d created unlocked =
      let c : Contract = contract_of mint dest ss in
      let total : ℕ = locked (map state_schedule ss) in
      let other : program_id ≢ spl.key = λ same. other_program (same ∙ is_spl) in
      let (creates, _, _, _) =
        process_create_stores rt next program_id spl vesting token owner source more seeds mint dest
          km kd ss vs keeps w w1 other created in
      let live =
        created-Live rt next keeps program_id vesting spl token owner source more seeds mint dest ss
          w w1 km kd vs other free created in
      let funds =
        Creates-Funds rt doc program_id spl vesting token owner source seeds mint dest ss w w1
          is_spl two creates in
      let (done, _, _) =
        process_unlock_releases rt next pack keeps program_id spl' clock vesting token destination
          more' seeds' w1 w2 c live.valid live.free live.holds
          (λ same. other_program (sym live.owned ∙ same)) unlocked in
      let moved = Unlocks-Moved rt doc clock vesting token destination c w1 w2 done in
      let after = Unlocks-after rt doc clock vesting token destination c w1 w2 done in
      let apart : (k : Pubkey) (x : TokenAccount) → Has rt w k x → k ≢ vesting.key = λ k x has.
        token_is_no_contract rt doc vesting.key k (length ss) w x (omega (arith, creates.size))
          has in
      let (enough, source_paid) = funds.paid_by a has_a plain in
      let (_, destination_kept) = funds.others destination.key d to_third to_other has_d in
      let (_, token_paid) =
        moved.debited (record funds.token_account { amount = funds.token_account.amount + total })
          funds.paid_in funds.no_delegate (λ same. to_other (sym same)) in
      (
        funds.token_account,
        done.time,
        funds.token_before,
        done.clock_read,
        done.some_due,
        enough,
        after source.key _ (apart source.key a has_a) (
            kept-Has rt source.key w1 done.sent _
              (moved.others source.key two (λ same. to_third (sym same))) source_paid),
        after token.key _ (apart token.key funds.token_account funds.token_before) token_paid,
        after destination.key _ (apart destination.key d has_d)
            (moved.credited d destination_kept (λ same. to_other (sym same))),
      )
