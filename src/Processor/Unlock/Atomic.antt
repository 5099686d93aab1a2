-- ===== src/Processor/Unlock/Atomic.antt =====
-- A `process_unlock` (rs/src/processor.rs) that returns an error changes nothing.
use rebuild_token_vesting.Base.{
  ℕ, ◌≡◌, ◌≢◌, refl, List, [], ◌∷◌, err, arith, write_from, drop, ◌==◌,
}
use rebuild_token_vesting.Base.Bytes.{Bytes}
use rebuild_token_vesting.Error.{ProgramError, invalid_argument}
use rebuild_token_vesting.State.Header.{Pubkey}
use rebuild_token_vesting.State.Schedule.{VestingSchedule}
use rebuild_token_vesting.State.Schedules.{pack_schedules_into_slice}
use rebuild_token_vesting.State.RoundTrip.{pack_schedules_into_slice_lem}
use rebuild_token_vesting.Instruction.{Seeds}
use rebuild_token_vesting.Runtime.Action.{
  World, Action, AccountInfo, ◌>>=◌, lift, fail_if, data_of, borrow, with_borrow_mut,
}
use rebuild_token_vesting.Runtime.Atomic.{ErrorAtomic, ReadOnly, bind-ErrorAtomic, last-ErrorAtomic}
use rebuild_token_vesting.Runtime.Calls
use rebuild_token_vesting.Runtime.Calls.{Runtime}
use rebuild_token_vesting.Processor.Unlock.{
  check_unlock, vested, send, store_schedules, unlock_with, process_unlock,
}

-- The runtime leaves no effect of a call of another program that returned an error.
abbrev pub CallFails : Runtime → Type 0
CallFails rt =
    (ix : Calls.Instruction) (infos : List AccountInfo) (seeds : List (List Bytes))
    → ErrorAtomic (rt.invoke_signed ix infos seeds)

check_unlock_reads :
    (rt : Runtime) (program_id : Pubkey) (spl vesting token destination : AccountInfo)
    (seeds : Seeds)
    → ReadOnly (check_unlock rt program_id spl vesting token destination seeds)
unfolding check_unlock borrow
check_unlock_reads rt program_id spl vesting token destination seeds w = ground arith

vested_reads : (rt : Runtime) (clock vesting : AccountInfo) → ReadOnly (vested rt clock vesting)
unfolding vested borrow
vested_reads rt clock vesting w = ground arith

-- The write behind the transfer ends well or panics.
write_no_error :
    (bytes : Bytes) (ss : List VestingSchedule) (x : ProgramError)
    → write_from bytes 65 (pack_schedules_into_slice ss) ≢ err x
unfolding write_from
write_no_error bytes ss x h = ground (arith, pack_schedules_into_slice_lem ss (drop 65 bytes))

store_schedules_no_error :
    (vesting : AccountInfo) (ss : List VestingSchedule) (w : World) (x : ProgramError)
    → (store_schedules vesting ss w).0 ≢ err x
unfolding store_schedules with_borrow_mut
store_schedules_no_error vesting ss w x h =
    ground (arith, write_no_error (data_of w vesting.key) ss x)

module _ (rt : Runtime) (fails : CallFails rt) (program_id : Pubkey) where
  send_errors :
      (spl vesting token destination : AccountInfo) (key : Pubkey) (seeds : Seeds) (total : ℕ)
      (ss : List VestingSchedule)
      → ErrorAtomic (send rt spl vesting token destination key seeds total ss)
  unfolding send
  send_errors spl vesting token destination key seeds total ss =
      bind-ErrorAtomic (fail_if (total == 0) invalid_argument) _ (λ w. refl)
        (λ _.
          bind-ErrorAtomic (lift (rt.transfer spl.key token.key destination.key key [] total)) _
            (λ w. refl)
            (λ ix.
              last-ErrorAtomic
                (rt.invoke_signed ix (spl ∷ token ∷ destination ∷ vesting ∷ []) ((seeds ∷ []) ∷ []))
                (λ _. store_schedules vesting ss)
                (fails ix (spl ∷ token ∷ destination ∷ vesting ∷ []) ((seeds ∷ []) ∷ []))
                (store_schedules_no_error vesting ss)))

  process_unlock-ErrorAtomic :
      (accounts : List AccountInfo) (seeds : Seeds)
      → ErrorAtomic (process_unlock rt program_id accounts seeds)
  unfolding process_unlock unlock_with
  process_unlock-ErrorAtomic accounts seeds = entry accounts _ (λ spl iter.
      entry iter _ (λ clock iter. entry iter _ (λ vesting iter. entry iter _ (λ token iter.
        entry iter _ (λ destination iter.
          bind-ErrorAtomic (check_unlock rt program_id spl vesting token destination seeds) _
            (check_unlock_reads rt program_id spl vesting token destination seeds)
            (λ key.
              bind-ErrorAtomic (vested rt clock vesting)
                (λ p. send rt spl vesting token destination key seeds p.0 p.1)
                (vested_reads rt clock vesting)
                (λ p. send_errors spl vesting token destination key seeds p.0 p.1)))))))
    where
      entry :
          (iter : List AccountInfo) (k : AccountInfo → List AccountInfo → Action (Unit {0}))
          → ((a : AccountInfo) (rest : List AccountInfo) → ErrorAtomic (k a rest))
          → ErrorAtomic (lift (rt.next_account_info iter) >>= λ p. k p.0 p.1)
      entry iter k atomic =
          bind-ErrorAtomic (lift (rt.next_account_info iter)) (λ p. k p.0 p.1) (λ w. refl)
            (λ p. atomic p.0 p.1)

  -- If calls of other programs that fail have no effect: an unlock that returns an error has
  -- changed no account, on any accounts.
  pub process_unlock_error :
      (accounts : List AccountInfo) (seeds : Seeds) (w : World) (x : ProgramError)
      → (process_unlock rt program_id accounts seeds w).0 ≡ err x
      → (process_unlock rt program_id accounts seeds w).1 ≡ w
  process_unlock_error accounts seeds w x e = process_unlock-ErrorAtomic accounts seeds w x e
