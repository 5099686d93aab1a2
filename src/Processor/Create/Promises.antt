-- ===== src/Processor/Create/Promises.antt =====
-- The promises of `process_create` (rs/src/processor.rs) to the parties of a contract.
use rebuild_token_vesting.Base.{
  ℕ, ◌≡◌, ◌≢◌, sym, ap, ◌∙◌, none, some, List, [], ◌∷◌, map, All, ok, arith, bytes_eq→eq, Result,
  index_at, append_assoc, ◌++◌, length-append, get_elem?-append,
}
use rebuild_token_vesting.Base.Bytes.{Bytes}
use rebuild_token_vesting.Error.{ProgramError}
use rebuild_token_vesting.State.Header.{Pubkey, IsPubkey}
use rebuild_token_vesting.State.Schedule.{IsSchedule}
use rebuild_token_vesting.State.Layout.{encode_header, encode_schedules}
use rebuild_token_vesting.Contract.{Contract, IsContract, encode}
use rebuild_token_vesting.Instruction
use rebuild_token_vesting.Instruction.{Seeds}
use rebuild_token_vesting.Instruction.Wire.{IsScheduleArg}
use rebuild_token_vesting.Runtime.Action.{World, AccountInfo, data_of, set_data}
use rebuild_token_vesting.Runtime.Calls.{Runtime}
use rebuild_token_vesting.Runtime.Documented.{TransferKeeps, NextAccount, TryBorrow}
use rebuild_token_vesting.Runtime.Store.{data_of-set_data, owner-set_data}
use rebuild_token_vesting.Processor.Create.{state_schedule, create_with, process_create}
use rebuild_token_vesting.Processor.Create.Fill.{contract_of}
use rebuild_token_vesting.Processor.Create.Success.{Creates, create_with-Creates}
use rebuild_token_vesting.Processor.Unlock.Effect.{Holds}

-- The first five entries of the account list are the ones that count.
pub process_create_accounts :
    (rt : Runtime) (program_id : Pubkey) (spl vesting token owner source : AccountInfo)
    (more : List AccountInfo) (seeds : Seeds) (mint dest : Pubkey) (ss : List Instruction.Schedule)
    (w : World)
    → NextAccount rt
    → process_create rt program_id
        (spl ∷ vesting ∷ token ∷ owner ∷ source ∷ more)
        seeds
        mint
        dest
        ss
        w
      ≡ create_with rt program_id spl vesting token owner source seeds mint dest ss w
unfolding process_create
process_create_accounts rt program_id spl vesting token owner source more seeds mint dest ss w
      next =
    ground (
      arith,
      next.at_entry spl (vesting ∷ token ∷ owner ∷ source ∷ more),
      next.at_entry vesting (token ∷ owner ∷ source ∷ more),
      next.at_entry token (owner ∷ source ∷ more),
      next.at_entry owner (source ∷ more),
      next.at_entry source more,
    )

schedules_valid :
    (ss : List Instruction.Schedule) → All IsScheduleArg ss → All IsSchedule (map state_schedule ss)
schedules_valid [] v = tt
schedules_valid (s ∷ ss) v = (
  record { release_time_u64 = v.0.release_time_u64; amount_u64 = v.0.amount_u64 },
  schedules_valid ss v.1,
)

-- The flag of a stored contract.
flag_set : (c : Contract) → IsContract c → index_at {E = ProgramError} (encode c) 64 ≡ ok 1
unfolding encode encode_header index_at
flag_set c v = rw (
  append_assoc c.destination (c.mint ++ (1 ∷ [])) (encode_schedules c.schedules),
  append_assoc c.mint (1 ∷ []) (encode_schedules c.schedules),
  ← append_assoc c.destination c.mint (1 ∷ encode_schedules c.schedules),
  get_elem?-append 64 (c.destination ++ c.mint) 1 (encode_schedules c.schedules)
      (omega (arith, length-append c.destination c.mint, v.destination_key.size, v.mint_key.size)),
)

module _ (rt : Runtime) (next : NextAccount rt) (program_id : Pubkey)
    (spl vesting token owner source : AccountInfo) (more : List AccountInfo) (seeds : Seeds)
    (mint dest : Pubkey) (km : IsPubkey mint) (kd : IsPubkey dest) (ss : List Instruction.Schedule)
    (vs : All IsScheduleArg ss) where
  -- With keys and schedules in range, and a first account that does not name the program itself: a
  -- successful creation has passed every check, had the total of the schedules transferred from the
  -- source, and the vesting account, still owned by the program, holds the contract, whose fields
  -- are in range.
  pub process_create_stores :
      (keeps : TransferKeeps rt) (w w' : World)
      → program_id ≢ spl.key
      → process_create rt program_id
          (spl ∷ vesting ∷ token ∷ owner ∷ source ∷ more)
          seeds
          mint
          dest
          ss
          w
        ≡ (ok tt, w')
      → Creates rt program_id spl vesting token owner source seeds mint dest ss w w'
        × Holds w' vesting.key (contract_of mint dest ss)
        × ((w'.accounts vesting.key).owner ≡ program_id)
        × IsContract (contract_of mint dest ss)
  process_create_stores keeps w w' other e =
      let done =
        create_with-Creates rt program_id spl vesting token owner source seeds mint dest km kd ss w
          w'
          (sym (
              process_create_accounts rt program_id spl vesting token owner source more seeds mint
                dest ss w next)
            ∙ e) in
      let filled : World = set_data w vesting.key (encode (contract_of mint dest ss)) in
      let still_owned : (filled.accounts vesting.key).owner ≡ program_id =
        owner-set_data w vesting.key vesting.key (encode (contract_of mint dest ss))
        ∙ bytes_eq→eq _ _ done.vesting_checked.owned in
      let cell : w'.accounts vesting.key ≡ filled.accounts vesting.key =
        ap (λ x. x.accounts vesting.key) done.result
        ∙ keeps.accounts_kept_unsigned _ _ _ _ _ done.ix done.infos
            (record filled { borrowed = some vesting.key }) done.sent done.transfer_made
            done.transferred vesting.key (λ same. other (sym still_owned ∙ same)) in
      (
        done,
        ap (λ x. x.bytes) cell ∙ data_of-set_data w vesting.key (encode (contract_of mint dest ss)),
        ap (λ x. x.owner) cell ∙ still_owned,
        record {
          destination_key = kd;
          mint_key = km;
          schedules_valid = schedules_valid ss vs;
          total_u64 = done.total_u64;
        },
      )

  -- A creation never succeeds on an account that holds a contract, if no data are borrowed.
  pub process_create_once :
      (try : TryBorrow rt) (w w' : World) (c : Contract)
      → IsContract c
      → w.borrowed ≡ none
      → Holds w vesting.key c
      → process_create rt program_id
          (spl ∷ vesting ∷ token ∷ owner ∷ source ∷ more)
          seeds
          mint
          dest
          ss
          w
        ≢ (ok tt, w')
  process_create_once try w w' c v free holds e =
      let done =
        create_with-Creates rt program_id spl vesting token owner source seeds mint dest km kd ss w
          w'
          (sym (
              process_create_accounts rt program_id spl vesting token owner source more seeds mint
                dest ss w next)
            ∙ e) in
      absurd (
        clash done.vesting_checked.bytes done.vesting_checked.flag
          (sym done.vesting_checked.borrowed ∙ try vesting w free) done.vesting_checked.flag_read
          done.vesting_checked.not_initialized)
    where
      agree :
          {bs : Bytes} {flag : ℕ}
          → ◌≡◌ {A = Result ProgramError Bytes} (ok bs) (ok (encode c))
          → index_at {E = ProgramError} bs 64 ≡ ok flag
          → flag ≡ 1
      agree same at_64 = cc (flag_set c v)

      clash :
          (bs : Bytes) (flag : ℕ)
          → ◌≡◌ {A = Result ProgramError Bytes} (ok bs) (ok (data_of w vesting.key))
          → index_at {E = ProgramError} bs 64 ≡ ok flag
          → flag ≢ 1
          → ⊥
      clash bs flag same at_64 other = other (agree (rw (holds) at same) at_64)
