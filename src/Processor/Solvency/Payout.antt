-- ===== src/Processor/Solvency/Payout.antt =====
-- A covered contract pays out: `process_unlock` of rs/src/processor.rs succeeds once something is due.
use rebuild_token_vesting.Base.{
  ℕ, ◌+◌, ◌^◌, ◌<◌, ◌≡◌, ◌≢◌, sym, ap, ◌∙◌, true, false, List, [], ◌∷◌, ok, arith,
}
use rebuild_token_vesting.State.Header.{Pubkey, IsPubkey}
use rebuild_token_vesting.Contract.{Contract, encode, due, release, due-add-locked}
use rebuild_token_vesting.Instruction.{Seeds}
use rebuild_token_vesting.Runtime.Action.{World, AccountInfo, data_of, set_data}
use rebuild_token_vesting.Runtime.Calls.{Runtime, TokenAccount, ℤ, as_u64}
use rebuild_token_vesting.Runtime.Documented.{NextAccount, PackUnpack, TransferKeeps, CarriesOut}
use rebuild_token_vesting.Runtime.Store.{data_of-set_data}
use rebuild_token_vesting.Processor.Unlock.{process_unlock}
use rebuild_token_vesting.Processor.Unlock.Effect.{Holds}
use rebuild_token_vesting.Processor.Unlock.Progress.{Matches, process_unlock_succeeds}
use rebuild_token_vesting.Processor.Sequence.{Live}
use rebuild_token_vesting.Processor.Solvency.{Covers}

-- The accounts of an unlock are those of the contract, and its destination can take `n` tokens of the
-- kind that `token` has.
pub record Payable (rt : Runtime) (program_id : Pubkey)
    (spl vesting token destination : AccountInfo) (seeds : Seeds) (n : ℕ) (w : World) (c : Contract)
    (a : TokenAccount) : Type 0 where
  pub derived : rt.create_program_address (seeds ∷ []) program_id ≡ ok vesting.key
  pub spl_program : spl.key ≡ rt.spl_token_id
  pub to_destination : c.destination ≡ destination.key
  pub token_key : IsPubkey token.key
  pub token_writable : token.is_writable ≡ true
  pub destination_writable : destination.is_writable ≡ true
  pub token_owned : (w.accounts token.key).owner ≡ rt.spl_token_id
  pub destination_owned : (w.accounts destination.key).owner ≡ rt.spl_token_id
  pub token_thawed : a.frozen ≡ false
  pub destination_account : TokenAccount
  pub destination_unpacked : rt.token_unpack (data_of w destination.key) ≡ ok destination_account
  pub same_mint : a.mint ≡ destination_account.mint
  pub destination_thawed : destination_account.frozen ≡ false
  pub room : destination_account.amount + n < 2 ^ 64

-- If the program is not the token program, and the token program carries out the transfers that it
-- documents: on a contract that is covered by its token account, an unlock of its accounts with a
-- destination that can take the tokens succeeds once something is due, and what is due is released.
pub process_unlock_pays_out :
    (rt : Runtime) (next : NextAccount rt) (pack : PackUnpack rt) (keeps : TransferKeeps rt)
    (program_id : Pubkey) (out : CarriesOut rt program_id)
    (spl clock vesting token destination : AccountInfo) (more : List AccountInfo) (seeds : Seeds)
    (w : World) (c : Contract) (t : ℤ)
    → program_id ≢ rt.spl_token_id
    → Live program_id w vesting.key c
    → (covers : Covers rt vesting.key token.key w c)
    → Payable rt program_id spl vesting token destination seeds
        (due (as_u64 t) c.schedules)
        w
        c
        covers.token_account
    → rt.clock_from_account_info clock w ≡ ok t
    → 0 < due (as_u64 t) c.schedules
    → (w' : World) × (process_unlock rt program_id
          (spl ∷ clock ∷ vesting ∷ token ∷ destination ∷ more)
          seeds
          w
        ≡ (ok tt, w'))
      × Holds w' vesting.key (release (as_u64 t) c)
process_unlock_pays_out rt next pack keeps program_id out spl clock vesting token destination more
      seeds w c t other live covers p read some_due =
    let n : ℕ = due (as_u64 t) c.schedules in
    let (ix, made) = out.built token.key destination.key vesting.key n p.token_key in
    let (sent, carried) =
      out.carried spl token destination vesting seeds n ix w covers.token_account
        p.destination_account made p.spl_program p.derived live.free
        (p.token_writable, p.destination_writable) (p.token_owned, p.destination_owned)
        covers.token_unpacked p.destination_unpacked covers.token_owner p.same_mint
        (p.token_thawed, p.destination_thawed)
        (omega (arith, covers.covered, due-add-locked (as_u64 t) c.schedules)) p.room in
    let matches : Matches rt program_id spl vesting token destination seeds w c = record {
      valid = live.valid;
      free = live.free;
      holds = live.holds;
      derived = p.derived;
      spl_program = p.spl_program;
      to_destination = p.to_destination;
      token_account = covers.token_account;
      token_unpacked = covers.token_unpacked;
      token_owner = covers.token_owner;
    } in
    (
      set_data sent vesting.key (encode (release (as_u64 t) c)),
      process_unlock_succeeds rt next pack program_id spl clock vesting token destination more seeds
          w c matches keeps t ix sent (λ same. other (sym live.owned ∙ same)) read some_due
          (ap (λ q. rt.transfer q token.key destination.key vesting.key [] n) p.spl_program ∙ made)
          carried,
      data_of-set_data sent vesting.key (encode (release (as_u64 t) c)),
    )
