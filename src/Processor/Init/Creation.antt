-- ===== src/Processor/Init/Creation.antt =====
-- What `process_init` (rs/src/processor.rs) creates.
use rebuild_token_vesting.Base.{
  ℕ, ◌^◌, ◌<◌, ◌≡◌, ◌≢◌, ◌↔◌, sym, ap, ◌∙◌, List, [], ◌∷◌, length, ok, err, panic, arith,
  bytes_eq_refl, bytes_eq_ne, bytes_eq→eq, bytes_eq, unwrap_result, Result,
}
use rebuild_token_vesting.Error.{ProgramError, invalid_argument}
use rebuild_token_vesting.State.Header.{Pubkey}
use rebuild_token_vesting.Contract.{Contract, IsContract, encode, length-encode}
use rebuild_token_vesting.Instruction.{Seeds}
use rebuild_token_vesting.Runtime.Action.{World, AccountInfo}
use rebuild_token_vesting.Runtime.Calls.{Runtime, Rent}
use rebuild_token_vesting.Runtime.Documented.{NextAccount}
use rebuild_token_vesting.Runtime.Steps.{step-eq-ok, require-eq-ok}
use rebuild_token_vesting.Processor.Init.{state_size, init_with, process_init}

-- The size that `Init` asks for is the size of a contract with so many schedules, and its
-- computation stays below 2^64, for a valid contract of fewer than 2^32 schedules.
pub state_size_lem :
    (c : Contract)
    → IsContract c
    → length c.schedules < 2 ^ 32
    → (length (encode c) ≡ state_size (length c.schedules))
      × (state_size (length c.schedules) < 2 ^ 64)
unfolding state_size
state_size_lem c v h = (omega (arith, length-encode c v), omega arith)

module _ (rt : Runtime) (next : NextAccount rt) (program_id : Pubkey)
    (system rent_sysvar payer vesting : AccountInfo) (more : List AccountInfo) (seeds : Seeds)
    (n : ℕ) (w : World) (rent : Rent)
    (rent_read : rt.rent_from_account_info rent_sysvar w ≡ ok rent) where
  -- The call that creates the account.
  create_call : Result ProgramError (Unit {0}) × World
  create_call =
      rt.invoke_signed
        (rt.create_account payer.key vesting.key (rent (state_size n)) (state_size n) program_id)
        (system ∷ payer ∷ vesting ∷ []) ((seeds ∷ []) ∷ []) w

  -- The first four entries of the account list are the ones that count.
  init_accounts :
      process_init rt program_id (system ∷ rent_sysvar ∷ payer ∷ vesting ∷ more) seeds n w
      ≡ init_with rt program_id system rent_sysvar payer vesting seeds n w
  unfolding process_init
  init_accounts = ground (
    arith,
    next.at_entry system (rent_sysvar ∷ payer ∷ vesting ∷ more),
    next.at_entry rent_sysvar (payer ∷ vesting ∷ more),
    next.at_entry payer (vesting ∷ more),
    next.at_entry vesting more,
  )

  reaches_call :
      rt.create_program_address (seeds ∷ []) program_id ≡ ok vesting.key
      → init_with rt program_id system rent_sysvar payer vesting seeds n w ≡ create_call
  unfolding init_with create_call
  reaches_call derived = ground (arith, rent_read, derived, bytes_eq_refl vesting.key)

  derived_key :
      (w' : World)
      → init_with rt program_id system rent_sysvar payer vesting seeds n w ≡ (ok tt, w')
      → rt.create_program_address (seeds ∷ []) program_id ≡ ok vesting.key
  unfolding init_with
  derived_key w' e =
      let (r, _, e1) = step-eq-ok (rt.rent_from_account_info rent_sysvar w) _ w e in
      let (k, found, e2) =
        step-eq-ok (unwrap_result (rt.create_program_address (seeds ∷ []) program_id)) _ w e1 in
      let (matches, _) = require-eq-ok (bytes_eq k vesting.key) _ _ w e2 in
      unwrapped (rt.create_program_address (seeds ∷ []) program_id) found
      ∙ ap ok (bytes_eq→eq _ _ matches)
    where
      unwrapped :
          {k : Pubkey} (r : Result ProgramError Pubkey)
          → ◌≡◌ {A = Result ProgramError Pubkey} (unwrap_result r) (ok k)
          → r ≡ ok k
      unwrapped (ok a) h = cc
      unwrapped (err x) h = cc
      unwrapped panic h = cc

  -- For a rent that could be read, an `Init` succeeds exactly when the seeds name the vesting
  -- account and the system program makes it with `state_size` bytes, the rent for these, and this
  -- program as its owner.
  pub process_init_iff :
      (w' : World)
      → (process_init rt program_id (system ∷ rent_sysvar ∷ payer ∷ vesting ∷ more) seeds n w
          ≡ (ok tt, w'))
        ↔ ((rt.create_program_address (seeds ∷ []) program_id ≡ ok vesting.key)
            × (rt.invoke_signed
                  (rt.create_account payer.key vesting.key
                    (rent (state_size n))
                    (state_size n)
                    program_id)
                  (system ∷ payer ∷ vesting ∷ [])
                  ((seeds ∷ []) ∷ [])
                  w
                ≡ (ok tt, w')))
  unfolding create_call
  process_init_iff w' = (
    λ e.
        let e' = sym init_accounts ∙ e in
        let derived = derived_key w' e' in (derived, sym (reaches_call derived) ∙ e'),
    λ m. init_accounts ∙ reaches_call m.0 ∙ m.1,
  )

  -- If the rent can be read, seeds that name another account are refused with `InvalidArgument`,
  -- and no account changes.
  pub process_init_other_key :
      (k : Pubkey)
      → rt.create_program_address (seeds ∷ []) program_id ≡ ok k
      → k ≢ vesting.key
      → process_init rt program_id (system ∷ rent_sysvar ∷ payer ∷ vesting ∷ more) seeds n w
        ≡ (err invalid_argument, w)
  process_init_other_key k derived other =
      init_accounts
      ∙ (unfold init_with in ground (arith, rent_read, derived, bytes_eq_ne k vesting.key other))
