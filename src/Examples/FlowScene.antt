-- ===== src/Examples/FlowScene.antt =====
-- The accounts of the flow in rs/fuzz/fuzz_targets/fuzz_target_1.rs, on a small bank.
use rebuild_token_vesting.Base.{
  ◌≡◌, refl, true, false, none, some, List, [], ◌∷◌, ◌++◌, ok, index_at, bytes_eq, bytes_eq_refl,
  if◌then◌else◌, arith,
}
use rebuild_token_vesting.State.Header.{Pubkey}
use rebuild_token_vesting.Contract.{Contract, IsContract, encode, locked, due, release}
use rebuild_token_vesting.Instruction
use rebuild_token_vesting.Instruction.{pack}
use rebuild_token_vesting.Runtime.Action.{World, Action, data_of, set_data, ◌>>=◌}
use rebuild_token_vesting.Runtime.Calls
use rebuild_token_vesting.Runtime.Calls.{Runtime, TokenAccount, pos, as_u64}
use rebuild_token_vesting.Runtime.Steps.{action-eq-ok, pure-eq-ok}
use rebuild_token_vesting.Processor.Dispatch.Clients.{listed, submit}
use rebuild_token_vesting.Processor.Create.{process_create}
use rebuild_token_vesting.Processor.Create.Fill.{contract_of}
use rebuild_token_vesting.Processor.Create.Progress.{Offers, process_create_succeeds}
use rebuild_token_vesting.Processor.Unlock.{process_unlock}
use rebuild_token_vesting.Processor.Unlock.Progress.{Matches, process_unlock_succeeds}
use rebuild_token_vesting.Flow.{TestBank, seed}
use rebuild_token_vesting.Flow.Sending.{Executed, nothing, next_one, Runs}
use rebuild_token_vesting.Examples.Chain.{
  chain, chain-NextAccount, chain-PackUnpack, chain-TryBorrow, derive, read_clock, make_transfer,
  call, call_signed, pay, moved, key_of, token_program, token_of, token_bytes, repeated, read_token,
}
use rebuild_token_vesting.Examples.ChainLaws.{chain-TransferKeeps}
use rebuild_token_vesting.Examples.Scene.{program, key_of-IsPubkey, other_keys}
use rebuild_token_vesting.Examples.FuzzScene.{bank}

-- Alice's account funds the flow, Bob's receives.
abbrev pub flow_world : World
flow_world = record {
  accounts = λ k.
      if bytes_eq k seed
      then record { owner = program; bytes = repeated 81 0 }
      else (if bytes_eq k (key_of 3)
          then record { owner = token_program; bytes = 0 ∷ (seed ++ repeated 132 0) }
          else (if bytes_eq k (key_of 5)
              then record { owner = token_program; bytes = token_bytes 1000 4 }
              else (if bytes_eq k (key_of 6)
                  then record { owner = token_program; bytes = token_bytes 0 7 }
                  else record { owner = key_of 0; bytes = 10 ∷ [] })));
  borrowed = none;
}

-- The bank runs the program's instructions; the accounts of the others are there already.
unfoldable pub execute : Calls.Instruction → Action (Unit {0})
execute ix w = if bytes_eq ix.program_id program then submit chain (ok ix) w else (ok tt, w)

unfoldable pub run_all : List Calls.Instruction → Action (Unit {0})
unfolding execute
run_all [] w = (ok tt, w)
run_all (ix ∷ ixs) w = (execute ix >>= λ u. run_all ixs) w

abbrev pub test_bank : TestBank bank
test_bank = record {
  process_transaction = λ ixs payer signers. run_all ixs;
  get_rent = λ w. ok (λ n. n);
  get_account = λ k w. some (data_of w k);
  system_program_id = key_of 13;
  rent_id = key_of 14;
  clock_id = key_of 10;
  associated_token_id = key_of 15;
  mint_len = 82;
  token_unpack_from_slice = read_token;
}

pub execute_program :
    (ix : Calls.Instruction) (w : World)
    → ix.program_id ≡ program
    → execute ix w ≡ submit chain (ok ix) w
unfolding execute
execute_program ix w e = ground (arith, e, bytes_eq_refl program)

pub run_all-Executed :
    (ixs : List Calls.Instruction) (w w' : World)
    → run_all ixs w ≡ (ok tt, w')
    → Executed execute ixs w w'
unfolding run_all
run_all-Executed [] w w' e = let same = (pure-eq-ok tt w e).1 in rw same nothing
run_all-Executed (ix ∷ ixs) w w' e =
    let (u, w1, first, rest) = action-eq-ok (execute ix) (λ u. run_all ixs) w e in
    next_one first (run_all-Executed ixs w1 w' rest)

abbrev pub bank_runs : Runs bank chain test_bank program
bank_runs = record {
  execute = execute;
  in_order = λ ixs payer signers w w' e. run_all-Executed ixs w w' e;
  by_program = execute_program;
  found = λ k w a has. refl;
  from_slice = λ bs a e. e;
}

abbrev pub schedules : List Instruction.Schedule
schedules = record { release_time = 1; amount = 111 } ∷ []

abbrev contract : Contract
contract = contract_of (key_of 11) (key_of 6) schedules

contract-IsContract : IsContract contract
unfolding locked
contract-IsContract = record {
  destination_key = key_of-IsPubkey 6 (omega arith);
  mint_key = key_of-IsPubkey 11 (omega arith);
  schedules_valid = (record { release_time_u64 = omega arith; amount_u64 = omega arith }, tt);
  total_u64 = omega arith;
}

flow_world-Offers :
    Offers chain program
      (listed seed false true)
      (listed (key_of 3) false true)
      (listed (key_of 4) true false)
      (listed (key_of 5) false true)
      seed
      schedules
      flow_world
unfolding derive read_token locked index_at bytes_eq
flow_world-Offers = record {
  free = refl;
  derived = refl;
  signed = refl;
  owned = refl;
  size = refl;
  flag = 0;
  flag_read = refl;
  not_initialized = omega arith;
  token_account = token_of 0 (seed ++ repeated 132 0);
  token_unpacked = refl;
  token_owner = refl;
  no_delegate = refl;
  no_close_authority = refl;
  distinct = λ e. cc;
  source_account = token_of 1000 (key_of 4 ++ repeated 132 0);
  source_unpacked = refl;
  total_u64 = omega arith;
  enough = omega arith;
}

-- A transfer of 111.
abbrev transfer_ix : Pubkey → Pubkey → Calls.Instruction
transfer_ix source destination = record {
  program_id = token_program;
  accounts = [];
  input = 111 ∷ (source ++ destination);
}

abbrev flow_filled : World
flow_filled = record (set_data flow_world seed (encode contract)) { borrowed = some seed }

-- The accounts behind the creation, and behind the unlock.
abbrev pub flow_created : World
flow_created = record (moved 111 (key_of 5) (key_of 3) flow_filled) { borrowed = none }

abbrev pub flow_unlocked : World
flow_unlocked =
    set_data (moved 111 (key_of 3) (key_of 6) flow_created) seed (encode (release 10 contract))

pub flow_creation :
    process_create chain program
      (listed (key_of 9) false false
        ∷ listed seed false true
        ∷ listed (key_of 3) false true
        ∷ listed (key_of 4) true false
        ∷ listed (key_of 5) false true
        ∷ [])
      seed
      (key_of 11)
      (key_of 6)
      schedules
      flow_world
    ≡ (ok tt, flow_created)
unfolding make_transfer bytes_eq call pay moved locked set_data
flow_creation =
    process_create_succeeds chain chain-NextAccount chain-TryBorrow program
      (listed (key_of 9) false false) (listed seed false true) (listed (key_of 3) false true)
      (listed (key_of 4) true false) (listed (key_of 5) false true) [] seed (key_of 11) (key_of 6)
      (key_of-IsPubkey 11 (omega arith)) (key_of-IsPubkey 6 (omega arith)) schedules flow_world
      flow_world-Offers (transfer_ix (key_of 5) (key_of 3))
      (moved 111 (key_of 5) (key_of 3) flow_filled) refl refl

flow_created-Matches :
    Matches chain program
      (listed (key_of 9) false false)
      (listed seed false true)
      (listed (key_of 3) false true)
      (listed (key_of 6) false true)
      seed
      flow_created
      contract
unfolding derive read_token set_data bytes_eq moved pay call
flow_created-Matches = record {
  valid = contract-IsContract;
  free = refl;
  holds = refl;
  derived = refl;
  spl_program = refl;
  to_destination = refl;
  token_account = token_of 111 (seed ++ repeated 132 0);
  token_unpacked = refl;
  token_owner = refl;
}

pub flow_unlocking :
    process_unlock chain program
      (listed (key_of 9) false false
        ∷ listed (key_of 10) false false
        ∷ listed seed false true
        ∷ listed (key_of 3) false true
        ∷ listed (key_of 6) false true
        ∷ [])
      seed
      flow_created
    ≡ (ok tt, flow_unlocked)
unfolding make_transfer bytes_eq call_signed call pay read_clock due as_u64 set_data moved
flow_unlocking =
    process_unlock_succeeds chain chain-NextAccount chain-PackUnpack program
      (listed (key_of 9) false false) (listed (key_of 10) false false) (listed seed false true)
      (listed (key_of 3) false true) (listed (key_of 6) false true) [] seed flow_created contract
      flow_created-Matches chain-TransferKeeps (pos 10) (transfer_ix (key_of 3) (key_of 6))
      (moved 111 (key_of 3) (key_of 6) flow_created) (other_keys 1 9 (omega arith)) refl
      (omega arith) refl refl
