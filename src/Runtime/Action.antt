-- ===== src/Runtime/Action.antt =====
-- The accounts that an instruction runs on, and computations over them (rs/src/processor.rs).
use rebuild_token_vesting.Base.{
  Bool, false, Option, none, some, bytes_eq, if◌then◌else◌, Result, ok, err, panic,
  fail_if as fails,
}
use rebuild_token_vesting.Base.Bytes.{Bytes}
use rebuild_token_vesting.Error.{ProgramError}
use rebuild_token_vesting.State.Header.{Pubkey}

-- What the program reads of an account: its owner and its data.
pub record Cell : Type 0 where
  pub owner : Pubkey
  pub bytes : Bytes

-- The same account listed twice is one cell. `borrowed` is the account whose data the program
-- holds by `borrow_mut`: it holds one at most.
pub record World : Type 0 where
  pub accounts : Pubkey → Cell
  pub borrowed : Option Pubkey

-- An entry of the instruction's account list; owner and data are in the `World`.
pub record AccountInfo : Type 0 where
  pub key : Pubkey
  pub is_signer : Bool
  pub is_writable : Bool

-- What was written stays written when the function fails: undoing it is the runtime's task.
abbrev pub Action : Type 0 → Type 0
Action A = World → Result ProgramError A × World

module _ {A B : Type 0} where
  infixl 5 ◌>>=◌ ◌>>◌
  abbrev pub ◌>>=◌ : Action A → (A → Action B) → Action B
  ◌>>=◌ m f w =
      let (r, w') = m w in elim r [ ok a ↦ f a w' | err e ↦ (err e, w') | panic ↦ (panic, w') ]

  abbrev pub ◌>>◌ : Action A → Action B → Action B
  m >> k = m >>= λ _. k

module _ {A : Type 0} where
  abbrev pub pure : A → Action A
  pure a w = (ok a, w)

  -- A step that touches no account, and one that only reads.
  abbrev pub lift : Result ProgramError A → Action A
  lift r w = (r, w)

  abbrev pub read : (World → Result ProgramError A) → Action A
  read f w = (f w, w)

-- An early `return Err(e)` under a test.
abbrev pub fail_if : Bool → ProgramError → Action (Unit {0})
fail_if b e w = (fails b e, w)

abbrev pub data_of : World → Pubkey → Bytes
data_of w k = (w.accounts k).bytes

unfoldable pub is_borrowed : World → Pubkey → Bool
is_borrowed w k = elim w.borrowed [ none ↦ false | some j ↦ bytes_eq j k ]

-- `account.data.borrow()`, which panics while the data is mutably borrowed.
unfoldable pub borrow : Pubkey → Action Bytes
unfolding is_borrowed
borrow k w = (if is_borrowed w k then panic else ok (data_of w k), w)

-- The accounts with the data of `k` replaced.
unfoldable pub set_data : World → Pubkey → Bytes → World
set_data w k bs = record w {
  accounts = λ j.
      if bytes_eq j k then record { owner = (w.accounts j).owner; bytes = bs } else w.accounts j;
}

-- A write through a reference that is held.
abbrev pub write : Pubkey → Bytes → Action (Unit {0})
write k bs w = (ok tt, set_data w k bs)

-- `let mut data = account.data.borrow_mut()`, held while `body` runs.
unfoldable pub with_borrow_mut : {A : Type 0} → Pubkey → Action A → Action A
unfolding is_borrowed
with_borrow_mut k body w =
    if is_borrowed w k
    then (panic, w)
    else (let (r, w') = body (record w { borrowed = some k }) in
        (r, record w' { borrowed = w.borrowed }))
