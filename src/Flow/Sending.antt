-- ===== src/Flow/Sending.antt =====
-- The transactions of the flow in rs/fuzz/fuzz_targets/fuzz_target_1.rs.
use rebuild_token_vesting.Base.{ℕ, ◌<◌, ◌≡◌, refl, some, List, [], ◌∷◌, map, ok, arith, All}
use rebuild_token_vesting.Base.Bytes.{Bytes}
use rebuild_token_vesting.State.Header.{Pubkey, IsPubkey}
use rebuild_token_vesting.Contract.{locked, due}
use rebuild_token_vesting.Instruction
use rebuild_token_vesting.Instruction.Wire.{IsScheduleArg}
use rebuild_token_vesting.Instruction.Builders
use rebuild_token_vesting.Runtime.Action.{World, Action, data_of}
use rebuild_token_vesting.Runtime.Calls
use rebuild_token_vesting.Runtime.Calls.{Runtime, TokenAccount, as_u64}
use rebuild_token_vesting.Processor.Create.{state_schedule}
use rebuild_token_vesting.Processor.Solvency.Balances.{Has}
use rebuild_token_vesting.Processor.Dispatch.Clients.{submit}
use rebuild_token_vesting.Fuzz.Outside.{Outside}
use rebuild_token_vesting.Flow.{
  TestBank, seed, assert_eq, source_token_acc_key, dest_token_acc_key, flow_check, flow_contract,
}

-- Instructions that succeeded one behind the other.
pub data Executed (execute : Calls.Instruction → Action (Unit {0}))
    : List Calls.Instruction → World → World → Type 0 where
  nothing : {w : World} → Executed execute [] w w
  next_one :
      {ix : Calls.Instruction} {ixs : List Calls.Instruction} {w w1 w2 : World}
      → execute ix w ≡ (ok tt, w1)
      → Executed execute ixs w1 w2
      → Executed execute (ix ∷ ixs) w w2

-- What the flow relies on: a transaction runs its instructions in order, those of the program by its
-- entry point; accounts can be read; and `unpack` is `unpack_from_slice` with checks.
pub record Runs (o : Outside) (rt : Runtime) (bank : TestBank o) (program_id : Pubkey)
    : Type 0 where
  pub execute : Calls.Instruction → Action (Unit {0})
  pub in_order :
      (ixs : List Calls.Instruction) (payer : Pubkey) (signers : List o.Keypair) (w w' : World)
      → bank.process_transaction ixs payer signers w ≡ (ok tt, w')
      → Executed execute ixs w w'
  pub by_program :
      (ix : Calls.Instruction) (w : World)
      → ix.program_id ≡ program_id
      → execute ix w ≡ submit rt (ok ix) w
  pub found :
      (k : Pubkey) (w : World) (a : TokenAccount)
      → Has rt w k a
      → bank.get_account k w ≡ some (data_of w k)
  pub from_slice :
      (bs : Bytes) (a : TokenAccount)
      → rt.token_unpack bs ≡ ok a
      → bank.token_unpack_from_slice bs ≡ ok a

abbrev pub one_schedule : List Instruction.Schedule
one_schedule = record { release_time = 1; amount = 111 } ∷ []

pub one_locked : locked (map state_schedule one_schedule) ≡ 111
unfolding locked
one_locked = refl

pub one_due :
    (t : ℕ)
    → 0 < due t (map state_schedule one_schedule)
    → due t (map state_schedule one_schedule) ≡ 111
unfolding due
one_due t h = ground arith

pub one_valid : All IsScheduleArg one_schedule
one_valid = (record { release_time_u64 = omega arith; amount_u64 = omega arith }, tt)

pub seed-IsPubkey : IsPubkey seed
seed-IsPubkey = record { size = refl; bytes = ground arith }

module _ (o : Outside) (rt : Runtime) (bank : TestBank o) (program_id : Pubkey)
    (payer mint_keypair dest_keypair : o.Keypair) (runs : Runs o rt bank program_id) where
  -- The assertions hold of these token accounts.
  pub flow_check_passes :
      (w : World) (d a : TokenAccount)
      → Has rt w (dest_token_acc_key o rt bank program_id payer mint_keypair dest_keypair) d
      → Has rt w (source_token_acc_key o rt bank program_id payer mint_keypair dest_keypair) a
      → d.amount ≡ 111
      → a.amount ≡ 889
      → flow_check o rt bank program_id payer mint_keypair dest_keypair w ≡ (ok tt, w)
  unfolding flow_check assert_eq
  flow_check_passes w d a has_d has_a d_amount a_amount =
      let read_d =
        runs.found (o.get_associated_token_address (o.pubkey dest_keypair) (o.pubkey mint_keypair))
          w d has_d in
      let read_a =
        runs.found (o.get_associated_token_address (o.pubkey payer) (o.pubkey mint_keypair)) w a
          has_a in
      let sliced =
        runs.from_slice
          (data_of w (o.get_associated_token_address (o.pubkey payer) (o.pubkey mint_keypair))) a
          has_a in
      ground (arith, read_d, has_d, d_amount, read_a, sliced, a_amount)

  pub two_in_order :
      (ix1 ix2 : Calls.Instruction) (w w' : World)
      → Executed runs.execute (ix1 ∷ ix2 ∷ []) w w'
      → (w1 : World) × (runs.execute ix1 w ≡ (ok tt, w1)) × (runs.execute ix2 w1 ≡ (ok tt, w'))
  two_in_order ix1 ix2 w w' (next_one {w1 = w1} e1 (next_one e2 nothing)) = (w1, e1, e2)

  pub one_in_order :
      (ix : Calls.Instruction) (w w' : World)
      → Executed runs.execute (ix ∷ []) w w'
      → runs.execute ix w ≡ (ok tt, w')
  one_in_order ix w w' (next_one e nothing) = e

  -- Behind its two transactions the flow is at its assertions.
  pub flow_contract_sends :
      (vesting : Pubkey) (create_ix unlock_ix : Calls.Instruction) (w w1 w2 : World)
      → Builders.create o.metas program_id o.spl_token_id vesting
          (o.get_associated_token_address vesting (o.pubkey mint_keypair))
          (o.pubkey payer)
          (source_token_acc_key o rt bank program_id payer mint_keypair dest_keypair)
          (dest_token_acc_key o rt bank program_id payer mint_keypair dest_keypair)
          (o.pubkey mint_keypair)
          one_schedule
          seed
        ≡ ok create_ix
      → Builders.unlock o.metas program_id o.spl_token_id bank.clock_id vesting
          (o.get_associated_token_address vesting (o.pubkey mint_keypair))
          (dest_token_acc_key o rt bank program_id payer mint_keypair dest_keypair)
          seed
        ≡ ok unlock_ix
      → bank.process_transaction
          (o.create_associated_token_account
              (o.pubkey payer)
              (o.pubkey dest_keypair)
              (o.pubkey mint_keypair)
            ∷ create_ix
            ∷ [])
          (o.pubkey payer)
          (payer ∷ [])
          w
        ≡ (ok tt, w1)
      → bank.process_transaction (unlock_ix ∷ []) (o.pubkey payer) (payer ∷ []) w1 ≡ (ok tt, w2)
      → flow_contract o rt bank program_id payer mint_keypair dest_keypair vesting w
        ≡ flow_check o rt bank program_id payer mint_keypair dest_keypair w2
  unfolding flow_contract
  flow_contract_sends vesting create_ix unlock_ix w w1 w2 built_create built_unlock created
        unlocked =
      ground (arith, built_create, created, built_unlock, unlocked)
