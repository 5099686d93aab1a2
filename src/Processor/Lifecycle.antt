-- ===== src/Processor/Lifecycle.antt =====
-- A vesting account through successful calls of the handlers of rs/src/processor.rs.
use rebuild_token_vesting.Base.{
  refl, ℕ, ◌+◌, ◌≤◌, ◌≡◌, ◌≢◌, sym, ap, ◌∙◌, none, List, ◌∷◌, map, All, ok, Result,
}
use rebuild_token_vesting.Base.Bytes.{Bytes}
use rebuild_token_vesting.Error.{ProgramError}
use rebuild_token_vesting.State.Header.{Pubkey, IsPubkey}
use rebuild_token_vesting.Contract.{Contract, encode, locked, due, release, release-IsContract}
use rebuild_token_vesting.Contract.Life.{
  redirect, redirect-IsContract, Event, releases, redirects, Life, created, then_event, Life-pays,
}
use rebuild_token_vesting.Instruction
use rebuild_token_vesting.Instruction.{Seeds}
use rebuild_token_vesting.Instruction.Wire.{IsScheduleArg}
use rebuild_token_vesting.Runtime.Action.{World, AccountInfo, data_of, set_data}
use rebuild_token_vesting.Runtime.Calls.{Runtime, ℤ, as_u64}
use rebuild_token_vesting.Runtime.Documented.{NextAccount, PackUnpack, TryBorrow, TransferKeeps}
use rebuild_token_vesting.Runtime.Store.{data_of-set_data, owner-set_data}
use rebuild_token_vesting.Processor.Create.{state_schedule, process_create}
use rebuild_token_vesting.Processor.Create.Fill.{contract_of}
use rebuild_token_vesting.Processor.Create.Success.{Creates}
use rebuild_token_vesting.Processor.Create.Promises.{process_create_stores, process_create_once}
use rebuild_token_vesting.Processor.Unlock.{process_unlock}
use rebuild_token_vesting.Processor.Unlock.Success.{Unlocks}
use rebuild_token_vesting.Processor.Unlock.Once.{process_unlock_releases, Unlocks-keeps}
use rebuild_token_vesting.Processor.ChangeDestination.{process_change_destination}
use rebuild_token_vesting.Processor.ChangeDestination.Effect.{process_change_destination_iff}
use rebuild_token_vesting.Processor.Sequence.{
  Live, Call, unlocks, changes, creates, CallList, no_call, then_call, Transfers, Pays,
}

rewritten :
    (vesting : Pubkey) (sent w' : World) (bs : Bytes)
    → w' ≡ set_data sent vesting bs
    → w' ≡ set_data sent vesting (data_of w' vesting)
rewritten vesting sent w' bs result =
    result
    ∙ ap (set_data sent vesting)
        (sym (ap (λ x. data_of x vesting) result ∙ data_of-set_data sent vesting bs))

-- A change of the destination leaves the account in order.
pub change-Live :
    (program_id vesting new : Pubkey) (w w' : World) (c : Contract)
    → IsPubkey new
    → w' ≡ set_data w vesting (encode (redirect new c))
    → Live program_id w vesting c
    → Live program_id w' vesting (redirect new c)
unfolding set_data
change-Live program_id vesting new w w' c kn result live = record {
  valid = redirect-IsContract new c kn live.valid;
  free = ap (λ x. x.borrowed) result ∙ live.free;
  holds = ap (λ x. data_of x vesting) result ∙ data_of-set_data w vesting (encode (redirect new c));
  owned =
      ap (λ x. (x.accounts vesting).owner) result
      ∙ owner-set_data w vesting vesting (encode (redirect new c))
      ∙ live.owned;
}

-- A creation makes a contract.
pub created-Live :
    (rt : Runtime) (next : NextAccount rt) (keeps : TransferKeeps rt) (program_id : Pubkey)
    (vesting spl token owner source : AccountInfo) (more : List AccountInfo) (seeds : Seeds)
    (mint dest : Pubkey) (ss : List Instruction.Schedule) (w w1 : World)
    → IsPubkey mint
    → IsPubkey dest
    → All IsScheduleArg ss
    → program_id ≢ spl.key
    → w.borrowed ≡ none
    → process_create rt program_id
        (spl ∷ vesting ∷ token ∷ owner ∷ source ∷ more)
        seeds
        mint
        dest
        ss
        w
      ≡ (ok tt, w1)
    → Live program_id w1 vesting.key (contract_of mint dest ss)
created-Live rt next keeps program_id vesting spl token owner source more seeds mint dest ss w w1 km
      kd vs other free e =
    let (done, holds, owned, valid) =
      process_create_stores rt next program_id spl vesting token owner source more seeds mint dest
        km kd ss vs keeps w w1 other e in
    record {
      valid = valid;
      free = ap (λ x. x.borrowed) done.result ∙ free;
      holds = holds;
      owned = owned;
    }

module _ (rt : Runtime) (next : NextAccount rt) (pack : PackUnpack rt) (try : TryBorrow rt)
    (keeps : TransferKeeps rt) (program_id : Pubkey) (other_program : program_id ≢ rt.spl_token_id)
    (vesting : AccountInfo) where
  -- So does an unlock.
  pub unlock-Live :
      (spl clock token destination : AccountInfo) (more : List AccountInfo) (seeds : Seeds)
      (w w' : World) (c : Contract)
      → process_unlock rt program_id (spl ∷ clock ∷ vesting ∷ token ∷ destination ∷ more) seeds w
        ≡ (ok tt, w')
      → Live program_id w vesting.key c
      → (done : Unlocks rt clock vesting token destination c w w') × Live program_id w' vesting.key
          (release (as_u64 done.time) c)
  unlock-Live spl clock token destination more seeds w w' c e live =
      let foreign : (w.accounts vesting.key).owner ≢ rt.spl_token_id =
        λ same. other_program (sym live.owned ∙ same) in
      let (done, holds', _) =
        process_unlock_releases rt next pack keeps program_id spl clock vesting token destination
          more seeds w w' c live.valid live.free live.holds foreign e in
      let (free', same_owner) =
        Unlocks-keeps rt next pack keeps program_id spl clock vesting token destination more seeds w
          w' c live.free foreign done in
      (
        done,
        record {
          valid = release-IsContract (as_u64 done.time) c live.valid;
          free = free';
          holds = holds';
          owned = same_owner ∙ live.owned;
        },
      )

  -- What an unlock pays and leaves.
  unlocks-Event :
      (limit : ℕ) (spl clock token destination : AccountInfo) (more : List AccountInfo)
      (seeds : Seeds) (t : ℤ) (w w' : World) (c : Contract)
      → (read : rt.clock_from_account_info clock w ≡ ok t) → (bound : as_u64 t ≤ limit)
      → (e : process_unlock rt program_id
            (spl ∷ clock ∷ vesting ∷ token ∷ destination ∷ more)
            seeds
            w
          ≡ (ok tt, w'))
      → Live program_id w vesting.key c
      → (amount : ℕ) × (c' : Contract) × Event limit c amount c'
        × Live program_id w' vesting.key c'
        × Transfers rt program_id vesting {limit = limit}
            (unlocks spl clock token destination more seeds t read bound e)
            amount
  unlocks-Event limit spl clock token destination more seeds t w w' c read bound e live =
      let (done, live') = unlock-Live spl clock token destination more seeds w w' c e live in
      (
        due (as_u64 done.time) c.schedules,
        release (as_u64 done.time) c,
        releases (as_u64 done.time) (in_time done.time (sym done.clock_read ∙ read)) done.some_due,
        live',
        (
          done.ix,
          done.infos,
          done.signer_seeds,
          done.sent,
          done.transfer_made,
          done.transferred,
          rewritten vesting.key done.sent w' _ done.result,
        ),
      )
    where
      in_time : (s : ℤ) → ◌≡◌ {A = Result ProgramError ℤ} (ok s) (ok t) → as_u64 s ≤ limit
      in_time s h = let same : s ≡ t = cc in rw same bound

  changes-Event :
      (limit : ℕ) (destination owner new : AccountInfo) (more : List AccountInfo) (seeds : Seeds)
      (w w' : World) (c : Contract)
      → (kn : IsPubkey new.key)
      → (e : process_change_destination rt program_id
            (vesting ∷ destination ∷ owner ∷ new ∷ more)
            seeds
            w
          ≡ (ok tt, w'))
      → Live program_id w vesting.key c
      → (amount : ℕ) × (c' : Contract) × Event limit c amount c'
        × Live program_id w' vesting.key c'
        × Transfers rt program_id vesting {limit = limit}
            (changes destination owner new more seeds kn e)
            amount
  unfolding set_data
  changes-Event limit destination owner new more seeds w w' c kn e live =
      let (_, result) =
        (process_change_destination_iff rt pack program_id vesting destination owner new seeds w c
            live.valid live.free live.holds next more w').0
          e in
      (
        0,
        redirect new.key c,
        redirects new.key,
        change-Live program_id vesting.key new.key w w' c kn result live,
        (refl, rewritten vesting.key w w' _ result),
      )

  -- If the program is not the token program: on a vesting account of the program that holds a
  -- contract, with no data borrowed, each successful unlock at which the clock shows at most
  -- `limit`, and each successful change of the destination to an account with a key of 32 bytes, is
  -- one event of the abstract contract (a release of what is due, or a redirection), and keeps the
  -- account's owner and form; a creation with arguments in range never succeeds there. The accounts
  -- behind an unlock are those behind one transfer to its destination of exactly what the event
  -- releases, made on the accounts before the call, with only the data of the vesting account
  -- rewritten; the accounts behind a change of the destination are those before it, with only these
  -- data rewritten.
  pub Call-Event :
      (limit : ℕ) (w w' : World) (c : Contract)
      → (call : Call rt program_id vesting limit w w') → Live program_id w vesting.key c
      → (amount : ℕ) × (c' : Contract) × Event limit c amount c'
        × Live program_id w' vesting.key c'
        × Transfers rt program_id vesting call amount
  Call-Event limit w w' c (unlocks spl clock token destination more seeds t read bound e) live =
      unlocks-Event limit spl clock token destination more seeds t w w' c read bound e live
  Call-Event limit w w' c (changes destination owner new more seeds kn e) live =
      changes-Event limit destination owner new more seeds w w' c kn e live
  Call-Event limit w w' c (creates spl token owner source more seeds mint dest ss km kd vs e) live =
      absurd (
        process_create_once rt next program_id spl vesting token owner source more seeds mint dest
          km kd ss vs try w w' c live.valid live.free live.holds e)

  -- So calls in a row are a life of the contract.
  pub CallList-Life :
      (limit : ℕ) (w w' : World) (c : Contract)
      → (calls : CallList rt program_id vesting limit w w') → Live program_id w vesting.key c
      → (paid : ℕ) × (c' : Contract) × Life limit c paid c'
        × Live program_id w' vesting.key c'
        × Pays rt program_id vesting calls paid
  unfolding Pays
  CallList-Life limit w w' c no_call live = (0, c, created, live, refl)
  CallList-Life limit w w' c (then_call {w1} {w2} calls call) live =
      let (paid, c1, life, live1, pays) = CallList-Life limit w w1 c calls live in
      let (amount, c2, event, live2, transfers) = Call-Event limit w1 w2 c1 call live1 in
      (paid + amount, c2, then_event life event, live2, (paid, amount, refl, pays, transfers))

  -- If the program is not the token program, nor the program that the creation's first account
  -- names, and no data are borrowed: a successful creation with keys and schedules in range has
  -- passed its checks and made one transfer, of the total of its schedules, from the source to the
  -- vesting token account. Through any row of successful unlocks, changes of the destination (to
  -- accounts with keys of 32 bytes) and creations with arguments in range on the vesting account
  -- behind it, at which the clock shows at most `limit`, the account then goes through a life of
  -- the abstract contract. Each unlock of the row has made one transfer to its destination on the
  -- accounts before it, and behind that has only rewritten the data of the vesting account; each
  -- change of the destination has only rewritten these data. The amounts that the unlocks
  -- transferred and what is still locked add up to the total of the creation; these amounts and
  -- what is still due at `limit` add up to what was due at `limit` in the beginning.
  pub created_contract-Pays :
      (spl token owner source : AccountInfo) (more : List AccountInfo) (seeds : Seeds)
      (mint dest : Pubkey) (ss : List Instruction.Schedule) (w w1 w2 : World) (limit : ℕ)
      → IsPubkey mint
      → IsPubkey dest
      → All IsScheduleArg ss
      → program_id ≢ spl.key
      → w.borrowed ≡ none
      → process_create rt program_id
          (spl ∷ vesting ∷ token ∷ owner ∷ source ∷ more)
          seeds
          mint
          dest
          ss
          w
        ≡ (ok tt, w1)
      → (calls : CallList rt program_id vesting limit w1 w2)
      → (paid : ℕ) × (c : Contract) × Creates rt program_id spl vesting token owner source seeds
          mint dest ss w w1
        × Life limit (contract_of mint dest ss) paid c
        × Live program_id w2 vesting.key c
        × Pays rt program_id vesting calls paid
        × (paid + locked c.schedules ≡ locked (map state_schedule ss))
        × (paid + due limit c.schedules ≡ due limit (map state_schedule ss))
  created_contract-Pays spl token owner source more seeds mint dest ss w w1 w2 limit km kd vs other
        free e calls =
      let creates =
        (process_create_stores rt next program_id spl vesting token owner source more seeds mint
          dest km kd ss vs keeps w w1 other e).0 in
      let live =
        created-Live rt next keeps program_id vesting spl token owner source more seeds mint dest ss
          w w1 km kd vs other free e in
      let (paid, c, life, live2, pays) =
        CallList-Life limit w1 w2 (contract_of mint dest ss) calls live in
      let (sum, at_limit) = Life-pays life in (paid, c, creates, life, live2, pays, sum, at_limit)
