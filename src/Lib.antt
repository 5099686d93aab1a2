-- ===== src/Lib.antt =====
-- A Solana program that holds tokens in vesting contracts (rs/src).
--
-- The program's parts and their models:
--   * rs/src/state.rs keeps a contract in an account's data: a header of 65 bytes (destination, mint
--     and a flag) and an array of schedules of 16 bytes (release time and amount). State models it, one
--     child for each type and one for the loops over the array, and State.Layout says which bytes a
--     contract has.
--   * rs/src/instruction.rs has the instructions, their byte form (`pack`, `unpack`) and the client's
--     builders: Instruction. Instruction.Wire and Instruction.Unpack say which bytes stand for which
--     instruction, and which are malformed or cut.
--   * rs/src/error.rs: Error.
--   * rs/src/processor.rs: Processor, one child for each handler (`process_init`, `process_create`,
--     `process_unlock`, `process_change_destination`) and Processor.Dispatch for the match on the
--     instruction and rs/src/entrypoint.rs. A handler `process_x` takes the account list apart and hands
--     it to `x_with`, which runs the checks, the computations and the calls in the source's order; the
--     parts are named for what they do.
--   * Contract says what a vesting account means to its parties: what is locked, what is due, what a
--     release leaves. Contract.Life is what may happen to a contract. Processor.Sequence has rows of calls
--     on a vesting account and what they transfer, Processor.Lifecycle relates them to the lives of a
--     contract, and Processor.Isolation is about the other accounts. Processor.Solvency is about the
--     token account behind a contract.
--   * The random instructions of rs/src/instruction.rs (`arbitrary`) and the harness in
--     rs/hfuzz/src/vesting_fuzz.rs: Fuzz. Fuzz.Harness makes the instructions of one input (`run_fuzz_ix`),
--     Fuzz.Keys and Fuzz.Run draw the keys, collect a row of inputs in a transaction and judge the
--     bank's answer (`run_fuzz_instructions`). Fuzz.Arbitrary has `arbitrary`. The other children are for
--     proofs: the harness's instructions in the program (Correct, Promises, CreateEnds, Mismatch), who
--     signs (KeyInvariant, Signers, Signatures, Required, Unsigned) and how it ends (Progress, Tolerated,
--     Outcome).
--   * rs/fuzz/fuzz_targets/fuzz_target_1.rs: Flow, a script of `Init`, `Create` and `Unlock`
--     (`test_init_create_unlock_flow`), with Flow.Sending and Flow.Amounts on its transactions and what
--     it asserts.
--   * Examples has a small chain on which the handlers run, and the theorems at concrete accounts.
--
-- How state is modelled. Runtime.Action has the accounts of a transaction as a function from keys to
-- owner and data, so that the same account listed twice is one account, and the account that is
-- mutably borrowed. A handler is a function from these accounts to a result and the accounts behind
-- it. A result is a value, a `ProgramError` or a panic: of `unwrap`, of an index out of range, of a
-- borrow of borrowed data, of an overflow. What a handler wrote before it failed stays written in the
-- model; undoing it is the task of the Solana runtime.
--
-- What is not in rs/src is a parameter: Runtime.Calls.Runtime is the record of the functions of
-- `solana_program` and `spl_token` that the handlers call (the account iterator, derived addresses, the
-- checked `Pack::unpack`, the sysvars, calls of other programs, token accounts and transfers) and of
-- the build's overflow checks. Runtime.Documented states what the theorems use of their documents:
-- the iterator yields the entries in order, `Pack::unpack` checks length and flag, data that nobody
-- holds can be borrowed, and a token transfer leaves the accounts of other programs alone, takes its
-- amount from one token account and gives it to the other, and is made when both can take part.
-- Fuzz.Outside has the functions that the harness calls: keypairs, found addresses, instructions of
-- the token programs, the bank. Flow.TestBank is the bank of the scripted flow.
--
-- Numbers. All integers are natural numbers; `u64` and `u32` fields carry their bound as a hypothesis
-- where it matters (IsSchedule, IsInstruction, IsContract). `checked_add` and the plain `+=` are
-- written out with their behaviour at 2^64; `unix_timestamp as u64` is written out on both signs. A
-- `usize` has 64 bits. The loops are structural recursion on the list or on the number of rounds
-- that the source computes, so no fuel is chosen.
--
-- Not modelled: logging and compute metering, which no result depends on; `PrintProgramError` and
-- `DecodeError` in rs/src/error.rs; rs/tests/test.rs, and the entry points of the two fuzz targets,
-- which start a simulated bank; balances in lamports, which the handlers do not read; js/play.js.
pub mod Base
pub mod Error
pub mod State
pub mod Instruction
pub mod Runtime
pub mod Contract
pub mod Processor
pub mod Fuzz
pub mod Flow
pub mod Examples
