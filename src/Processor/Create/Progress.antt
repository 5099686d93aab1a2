-- ===== src/Processor/Create/Progress.antt =====
-- When `process_create` (rs/src/processor.rs) succeeds.
use rebuild_token_vesting.Base.{
  ℕ, ◌+◌, ◌*◌, ◌^◌, ◌≤◌, ◌<◌, ◌≡◌, ◌≢◌, ap, ◌∙◌, none, some, true, List, [], ◌∷◌, length, map, ok,
  arith, bytes_eq_refl, bytes_eq_ne, index_at,
}
use rebuild_token_vesting.Error.{ProgramError}
use rebuild_token_vesting.State.Header.{Pubkey, IsPubkey}
use rebuild_token_vesting.Contract.{encode, locked}
use rebuild_token_vesting.Instruction
use rebuild_token_vesting.Instruction.{Seeds}
use rebuild_token_vesting.Runtime.Action.{
  World, AccountInfo, ◌>>=◌, data_of, set_data, is_borrowed, borrow, with_borrow_mut,
}
use rebuild_token_vesting.Runtime.Calls
use rebuild_token_vesting.Runtime.Calls.{Runtime, TokenAccount}
use rebuild_token_vesting.Runtime.Documented.{NextAccount, TryBorrow}
use rebuild_token_vesting.Runtime.Store.{borrow_free, with_borrow_mut_free, accounts-set_data_ne}
use rebuild_token_vesting.Processor.Create.{
  is_some, state_schedule, check_vesting_account, check_token_account, fill, fund, create_with,
  process_create,
}
use rebuild_token_vesting.Processor.Create.Fill.{contract_of}
use rebuild_token_vesting.Processor.Create.FillOutcome.{fill_stores}
use rebuild_token_vesting.Processor.Create.Promises.{process_create_accounts}

-- What a creation asks of its accounts.
pub record Offers (rt : Runtime) (program_id : Pubkey) (vesting token owner source : AccountInfo)
    (seeds : Seeds) (ss : List Instruction.Schedule) (w : World) : Type 0 where
  pub free : w.borrowed ≡ none
  pub derived : rt.create_program_address (seeds ∷ []) program_id ≡ ok vesting.key
  pub signed : owner.is_signer ≡ true
  pub owned : (w.accounts vesting.key).owner ≡ program_id
  pub size : length (data_of w vesting.key) ≡ 65 + length ss * 16
  pub flag : ℕ
  pub flag_read : index_at {E = ProgramError} (data_of w vesting.key) 64 ≡ ok flag
  pub not_initialized : flag ≢ 1
  pub token_account : TokenAccount
  pub token_unpacked : rt.token_unpack (data_of w token.key) ≡ ok token_account
  pub token_owner : token_account.owner ≡ vesting.key
  pub no_delegate : token_account.delegate ≡ none
  pub no_close_authority : token_account.close_authority ≡ none
  pub distinct : source.key ≢ vesting.key
  pub source_account : TokenAccount
  pub source_unpacked : rt.token_unpack (data_of w source.key) ≡ ok source_account
  pub total_u64 : locked (map state_schedule ss) < 2 ^ 64
  pub enough : locked (map state_schedule ss) ≤ source_account.amount

module _ (rt : Runtime) (next : NextAccount rt) (try : TryBorrow rt) (program_id : Pubkey)
    (spl vesting token owner source : AccountInfo) (more : List AccountInfo) (seeds : Seeds)
    (mint dest : Pubkey) (km : IsPubkey mint) (kd : IsPubkey dest) (ss : List Instruction.Schedule)
    (w : World) (m : Offers rt program_id vesting token owner source seeds ss w) where
  vesting_passes : check_vesting_account rt program_id vesting owner seeds w ≡ (ok tt, w)
  unfolding check_vesting_account
  vesting_passes = ground (
    arith,
    m.derived,
    m.signed,
    m.owned,
    m.flag_read,
    m.not_initialized,
    bytes_eq_refl vesting.key,
    bytes_eq_refl program_id,
    try vesting w m.free,
  )

  token_passes : check_token_account rt vesting token w ≡ (ok tt, w)
  unfolding check_token_account is_some
  token_passes = ground (
    arith,
    m.token_unpacked,
    m.token_owner,
    m.no_delegate,
    m.no_close_authority,
    bytes_eq_refl vesting.key,
    borrow_free w token.key m.free,
  )

  held_world : World
  held_world = record (set_data w vesting.key (encode (contract_of mint dest ss))) {
    borrowed = some vesting.key;
  }

  filled :
      fill vesting mint dest ss (record w { borrowed = some vesting.key })
      ≡ (ok (locked (map state_schedule ss)), held_world)
  unfolding held_world set_data
  filled =
      fill_stores vesting mint dest km kd ss (record w { borrowed = some vesting.key }) m.size
        m.total_u64

  source_free : borrow source.key held_world ≡ (ok (data_of w source.key), held_world)
  unfolding borrow is_borrowed held_world
  source_free = ground (
    arith,
    bytes_eq_ne vesting.key source.key,
    m.distinct,
    accounts-set_data_ne w vesting.key source.key (encode (contract_of mint dest ss)) m.distinct,
  )

  funded :
      (ix : Calls.Instruction) (sent : World)
      → rt.transfer spl.key source.key token.key owner.key [] (locked (map state_schedule ss))
        ≡ ok ix
      → rt.invoke ix (source ∷ token ∷ spl ∷ owner ∷ []) held_world ≡ (ok tt, sent)
      → fund rt spl token owner source (locked (map state_schedule ss)) held_world ≡ (ok tt, sent)
  unfolding fund
  funded ix sent made transferred =
      ground (arith, source_free, m.source_unpacked, m.enough, made, transferred)

  paid :
      (ix : Calls.Instruction) (sent : World)
      → rt.transfer spl.key source.key token.key owner.key [] (locked (map state_schedule ss))
        ≡ ok ix
      → rt.invoke ix (source ∷ token ∷ spl ∷ owner ∷ []) held_world ≡ (ok tt, sent)
      → (fill vesting mint dest ss >>= λ n. fund rt spl token owner source n)
          (record w { borrowed = some vesting.key })
        ≡ (ok tt, sent)
  paid ix sent made transferred = ground (arith, filled, funded ix sent made transferred)

  reaches_fill :
      create_with rt program_id spl vesting token owner source seeds mint dest ss w
      ≡ with_borrow_mut vesting.key
          (fill vesting mint dest ss >>= λ n. fund rt spl token owner source n)
          w
  unfolding create_with
  reaches_fill = ground (arith, vesting_passes, token_passes)

  -- A creation on accounts that meet every check succeeds if the token program makes the transfer
  -- of the schedules' total.
  pub process_create_succeeds :
      (ix : Calls.Instruction) (sent : World)
      → rt.transfer spl.key source.key token.key owner.key [] (locked (map state_schedule ss))
        ≡ ok ix
      → rt.invoke ix
          (source ∷ token ∷ spl ∷ owner ∷ [])
          (record (set_data w vesting.key (encode (contract_of mint dest ss))) {
            borrowed = some vesting.key;
          })
        ≡ (ok tt, sent)
      → process_create rt program_id
          (spl ∷ vesting ∷ token ∷ owner ∷ source ∷ more)
          seeds
          mint
          dest
          ss
          w
        ≡ (ok tt, record sent { borrowed = w.borrowed })
  unfolding held_world
  process_create_succeeds ix sent made transferred =
      process_create_accounts rt program_id spl vesting token owner source more seeds mint dest ss w
        next
      ∙ reaches_fill
      ∙ with_borrow_mut_free w vesting.key _ m.free
      ∙ ap (λ x. (x.0, record x.1 { borrowed = w.borrowed })) (paid ix sent made transferred)
