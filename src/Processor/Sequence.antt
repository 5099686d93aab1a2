-- ===== src/Processor/Sequence.antt =====
-- Successful calls of the handlers of rs/src/processor.rs on a vesting account, and what they transfer.
use rebuild_token_vesting.Base.{[], ℕ, ◌+◌, ◌≤◌, ◌≡◌, none, List, ◌∷◌, All, ok}
use rebuild_token_vesting.State.Header.{Pubkey, IsPubkey}
use rebuild_token_vesting.Contract.{Contract, IsContract}
use rebuild_token_vesting.Instruction
use rebuild_token_vesting.Instruction.{Seeds}
use rebuild_token_vesting.Instruction.Wire.{IsScheduleArg}
use rebuild_token_vesting.Runtime.Action.{World, AccountInfo, data_of, set_data}
use rebuild_token_vesting.Base.Bytes.{Bytes}
use rebuild_token_vesting.Runtime.Calls
use rebuild_token_vesting.Runtime.Calls.{Runtime, ℤ, as_u64}
use rebuild_token_vesting.Processor.Create.{process_create}
use rebuild_token_vesting.Processor.Unlock.{process_unlock}
use rebuild_token_vesting.Processor.Unlock.Effect.{Holds}
use rebuild_token_vesting.Processor.ChangeDestination.{process_change_destination}

-- The vesting account `k` of the program holds the contract `c`, and nobody holds its data.
pub record Live (program_id : Pubkey) (w : World) (k : Pubkey) (c : Contract) : Type 0 where
  pub valid : IsContract c
  pub free : w.borrowed ≡ none
  pub holds : Holds w k c
  pub owned : (w.accounts k).owner ≡ program_id

module _ (rt : Runtime) (program_id : Pubkey) (vesting : AccountInfo) where
  -- A successful call on the vesting account, with other accounts and seeds of the caller's choice;
  -- the clock shows `limit` at most.
  pub data Call (limit : ℕ) (w w' : World) : Type 0 where
    unlocks :
        (spl clock token destination : AccountInfo) (more : List AccountInfo) (seeds : Seeds)
        (t : ℤ)
        → rt.clock_from_account_info clock w ≡ ok t
        → as_u64 t ≤ limit
        → process_unlock rt program_id (spl ∷ clock ∷ vesting ∷ token ∷ destination ∷ more) seeds w
          ≡ (ok tt, w')
        → Call limit w w'
    changes :
        (destination owner new : AccountInfo) (more : List AccountInfo) (seeds : Seeds)
        → IsPubkey new.key
        → process_change_destination rt program_id
            (vesting ∷ destination ∷ owner ∷ new ∷ more)
            seeds
            w
          ≡ (ok tt, w')
        → Call limit w w'
    creates :
        (spl token owner source : AccountInfo) (more : List AccountInfo) (seeds : Seeds)
        (mint dest : Pubkey) (ss : List Instruction.Schedule)
        → IsPubkey mint
        → IsPubkey dest
        → All IsScheduleArg ss
        → process_create rt program_id
            (spl ∷ vesting ∷ token ∷ owner ∷ source ∷ more)
            seeds
            mint
            dest
            ss
            w
          ≡ (ok tt, w')
        → Call limit w w'

  -- Calls in a row, the last one outermost.
  pub data CallList (limit : ℕ) (w : World) : World → Type 0 where
    no_call : CallList limit w w
    then_call : {w1 w2 : World} → CallList limit w w1 → Call limit w1 w2 → CallList limit w w2

  -- The accounts behind a call are the accounts `sent` with new data in the vesting account alone.
  abbrev pub Rewrites : (sent w' : World) → Type 0
  Rewrites sent w' = w' ≡ set_data sent vesting.key (data_of w' vesting.key)

  -- The tokens that a call sends from the token account of an unlock to its destination. An unlock
  -- has made one transfer of them on the accounts `w`, which the token program carried out, and has
  -- done nothing else than rewrite the vesting account behind it; a change has made no transfer and
  -- has only rewritten the vesting account.
  abbrev pub Transfers : {limit : ℕ} {w w' : World} → Call limit w w' → ℕ → Type 0
  Transfers {w = w} {w' = w'} (unlocks spl clock token destination more seeds t read bound e)
        amount =
      (ix : Calls.Instruction) × (infos : List AccountInfo) × (signers : List (List Bytes))
      × (sent : World) × (rt.transfer rt.spl_token_id token.key destination.key vesting.key []
            amount
          ≡ ok ix)
      × (rt.invoke_signed ix infos signers w ≡ (ok tt, sent))
      × Rewrites sent w'
  Transfers {w = w} {w' = w'} (changes destination owner new more seeds kn e) amount =
      (amount ≡ 0) × Rewrites w w'
  Transfers (creates spl token owner source more seeds mint dest ss km kd vs e) amount = ⊥

  -- The sum of what the calls transfer.
  unfoldable pub Pays : {limit : ℕ} {w w' : World} → CallList limit w w' → ℕ → Type 0
  Pays no_call paid = paid ≡ 0
  Pays (then_call calls call) paid =
      (before : ℕ) × (amount : ℕ) × (paid ≡ before + amount)
      × Pays calls before
      × Transfers call amount
