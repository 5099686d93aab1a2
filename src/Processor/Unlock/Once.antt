-- ===== src/Processor/Unlock/Once.antt =====
-- The promises of `process_unlock` (rs/src/processor.rs) to the parties of a contract.
use rebuild_token_vesting.Base.{◌+◌, ◌<◌, ◌≤◌, ◌≡◌, ◌≢◌, sym, ap, ◌∙◌, none, List, ◌∷◌, ok, arith}
use rebuild_token_vesting.State.Header.{Pubkey}
use rebuild_token_vesting.Contract.{
  Contract, IsContract, encode, due, settled, locked, due-add-locked, due-settled, release,
  release-IsContract,
}
use rebuild_token_vesting.Instruction.{Seeds}
use rebuild_token_vesting.Runtime.Action.{World, AccountInfo, data_of, set_data}
use rebuild_token_vesting.Runtime.Calls.{Runtime, ℤ, as_u64}
use rebuild_token_vesting.Runtime.Documented.{PackUnpack, TransferKeeps, NextAccount}
use rebuild_token_vesting.Runtime.Store.{data_of-set_data, owner-set_data}
use rebuild_token_vesting.Processor.Unlock.{unlock_with, process_unlock}
use rebuild_token_vesting.Processor.Unlock.Effect.{Holds}
use rebuild_token_vesting.Processor.Unlock.Success.{Unlocks, unlock_with-Unlocks}

-- The first five entries of the account list are the ones that count.
pub process_unlock_accounts :
    (rt : Runtime) (program_id : Pubkey) (spl clock vesting token destination : AccountInfo)
    (more : List AccountInfo) (seeds : Seeds) (w : World)
    → NextAccount rt
    → process_unlock rt program_id (spl ∷ clock ∷ vesting ∷ token ∷ destination ∷ more) seeds w
      ≡ unlock_with rt program_id spl clock vesting token destination seeds w
unfolding process_unlock
process_unlock_accounts rt program_id spl clock vesting token destination more seeds w next =
    ground (
      arith,
      next.at_entry spl (clock ∷ vesting ∷ token ∷ destination ∷ more),
      next.at_entry clock (vesting ∷ token ∷ destination ∷ more),
      next.at_entry vesting (token ∷ destination ∷ more),
      next.at_entry token (destination ∷ more),
      next.at_entry destination more,
    )

module _ (rt : Runtime) (next : NextAccount rt) (pack : PackUnpack rt) (keeps : TransferKeeps rt)
    (program_id : Pubkey) (spl clock vesting token destination : AccountInfo)
    (more : List AccountInfo) (seeds : Seeds) where
  -- On an account that holds a contract, is not the token program's, and with no data borrowed: a
  -- successful unlock transfers exactly the amounts that are due, more than 0, from a token account
  -- of the vesting account to the contract's destination, and stores the contract with those
  -- amounts set to 0; what it transfers and what stays locked add up to what was locked.
  pub process_unlock_releases :
      (w w' : World) (c : Contract)
      → IsContract c
      → w.borrowed ≡ none
      → Holds w vesting.key c
      → (w.accounts vesting.key).owner ≢ rt.spl_token_id
      → process_unlock rt program_id (spl ∷ clock ∷ vesting ∷ token ∷ destination ∷ more) seeds w
        ≡ (ok tt, w')
      → (done : Unlocks rt clock vesting token destination c w w') × Holds w' vesting.key
          (release (as_u64 done.time) c)
        × (due (as_u64 done.time) c.schedules + locked (settled (as_u64 done.time) c.schedules)
            ≡ locked c.schedules)
  process_unlock_releases w w' c v free holds foreign e =
      let done =
        unlock_with-Unlocks rt pack keeps program_id spl clock vesting token destination seeds w w'
          c v free holds foreign
          (sym (
              process_unlock_accounts rt program_id spl clock vesting token destination more seeds w
                next)
            ∙ e) in
      (
        done,
        ap (λ x. data_of x vesting.key) done.result
            ∙ data_of-set_data done.sent vesting.key (encode (release (as_u64 done.time) c)),
        due-add-locked (as_u64 done.time) c.schedules,
      )

  -- Behind an unlock the account is as free and as foreign to the token program as before.
  pub Unlocks-keeps :
      (w w' : World) (c : Contract)
      → w.borrowed ≡ none
      → (w.accounts vesting.key).owner ≢ rt.spl_token_id
      → Unlocks rt clock vesting token destination c w w'
      → (w'.borrowed ≡ none) × ((w'.accounts vesting.key).owner ≡ (w.accounts vesting.key).owner)
  unfolding set_data
  Unlocks-keeps w w' c free foreign done = (
    ap (λ x. x.borrowed) done.result
        ∙ keeps.borrows_kept done.ix done.infos done.signer_seeds w done.sent done.transferred
        ∙ free,
    ap (λ x. (x.accounts vesting.key).owner) done.result
        ∙ owner-set_data done.sent vesting.key vesting.key (encode (release (as_u64 done.time) c))
        ∙ ap (λ x. x.owner)
            (keeps.accounts_kept _ _ _ _ _ done.ix done.infos done.signer_seeds w done.sent
              done.transfer_made done.transferred vesting.key foreign),
  )

  -- On an account that holds a contract, is not the token program's, and with no data borrowed:
  -- behind a successful unlock no unlock of the same accounts succeeds as long as the clock shows
  -- no later time.
  pub process_unlock_once :
      (w w' w'' : World) (c : Contract) (t t' : ℤ)
      → IsContract c
      → w.borrowed ≡ none
      → Holds w vesting.key c
      → (w.accounts vesting.key).owner ≢ rt.spl_token_id
      → process_unlock rt program_id (spl ∷ clock ∷ vesting ∷ token ∷ destination ∷ more) seeds w
        ≡ (ok tt, w')
      → rt.clock_from_account_info clock w ≡ ok t
      → rt.clock_from_account_info clock w' ≡ ok t'
      → as_u64 t' ≤ as_u64 t
      → process_unlock rt program_id (spl ∷ clock ∷ vesting ∷ token ∷ destination ∷ more) seeds w'
        ≢ (ok tt, w'')
  process_unlock_once w w' w'' c t t' v free holds foreign e read read' no_later again =
      let (done, holds', _) = process_unlock_releases w w' c v free holds foreign e in
      let (free', same_owner) = Unlocks-keeps w w' c free foreign done in
      let (done', _, _) =
        process_unlock_releases w' w'' (release (as_u64 done.time) c)
          (release-IsContract (as_u64 done.time) c v) free' holds'
          (λ o. foreign (sym same_owner ∙ o)) again in
      let now : done.time ≡ t = cc (done.clock_read) in
      let now' : done'.time ≡ t' = cc (done'.clock_read) in
      nothing_due done.time done'.time c now now' done'.some_due
    where
      nothing_due :
          (a b : ℤ) (c : Contract)
          → a ≡ t
          → b ≡ t'
          → 0 < due (as_u64 b) (settled (as_u64 a) c.schedules)
          → ⊥
      nothing_due a b c at_a at_b p =
          omega (arith, due-settled (as_u64 a) (as_u64 b) c.schedules (rw (at_a, at_b) no_later))
