-- ===== src/Processor/ChangeDestination/Atomic.antt =====
-- A `process_change_destination` (rs/src/processor.rs) that fails changes nothing.
use rebuild_token_vesting.Base.{◌≡◌, ◌≢◌, refl, List, ok, arith}
use rebuild_token_vesting.State.Header.{Pubkey, VestingScheduleHeader}
use rebuild_token_vesting.Instruction.{Seeds}
use rebuild_token_vesting.Runtime.Action.{
  World, AccountInfo, Action, ◌>>=◌, lift, borrow, with_borrow_mut,
}
use rebuild_token_vesting.Runtime.Atomic.{Atomic, bind-Atomic}
use rebuild_token_vesting.Runtime.Calls.{Runtime}
use rebuild_token_vesting.Processor.ChangeDestination.{
  check_change, store_header, change_with, process_change_destination,
}

check_change_reads :
    (rt : Runtime) (program_id : Pubkey) (vesting destination owner : AccountInfo) (seeds : Seeds)
    (w : World)
    → (check_change rt program_id vesting destination owner seeds w).1 ≡ w
unfolding check_change borrow
check_change_reads rt program_id vesting destination owner seeds w = ground arith

store_header_fails :
    (vesting : AccountInfo) (new : VestingScheduleHeader) (w : World)
    → (store_header vesting new w).0 ≢ ok tt
    → (store_header vesting new w).1 ≡ w
unfolding store_header with_borrow_mut
store_header_fails vesting new w h = ground arith

process_change_destination-Atomic :
    (rt : Runtime) (program_id : Pubkey) (accounts : List AccountInfo) (seeds : Seeds)
    → Atomic (process_change_destination rt program_id accounts seeds)
unfolding process_change_destination change_with
process_change_destination-Atomic rt program_id accounts seeds = entry accounts _ (λ vesting iter.
    entry iter _ (λ destination iter. entry iter _ (λ owner iter. entry iter _ (λ new iter.
      bind-Atomic (check_change rt program_id vesting destination owner seeds)
        (λ state. store_header vesting (record state { destination_address = new.key }))
        (check_change_reads rt program_id vesting destination owner seeds)
        (λ state. store_header_fails vesting (record state { destination_address = new.key }))))))
  where
    entry :
        (iter : List AccountInfo) (k : AccountInfo → List AccountInfo → Action (Unit {0}))
        → ((a : AccountInfo) (rest : List AccountInfo) → Atomic (k a rest))
        → Atomic (lift (rt.next_account_info iter) >>= λ p. k p.0 p.1)
    entry iter k atomic =
        bind-Atomic (lift (rt.next_account_info iter)) (λ p. k p.0 p.1) (λ w. refl)
          (λ p. atomic p.0 p.1)

-- A change of the destination that fails, by an error or a panic, has changed no account, on any
-- accounts and whatever the functions outside the program return.
pub process_change_destination_failure :
    (rt : Runtime) (program_id : Pubkey) (accounts : List AccountInfo) (seeds : Seeds) (w : World)
    → (process_change_destination rt program_id accounts seeds w).0 ≢ ok tt
    → (process_change_destination rt program_id accounts seeds w).1 ≡ w
process_change_destination_failure rt program_id accounts seeds w h =
    process_change_destination-Atomic rt program_id accounts seeds w h
