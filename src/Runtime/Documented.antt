-- ===== src/Runtime/Documented.antt =====
-- What the documents of `solana_program` and `spl_token` say of the calls in rs/src/processor.rs,
-- as far as the theorems rest on it.
use rebuild_token_vesting.Base.{
  ℕ, ◌+◌, ◌-◌, ◌^◌, ◌≤◌, ◌<◌, ◌≡◌, ◌≢◌, Bool, true, false, none, List, [], ◌∷◌, length, Result, ok,
  err,
}
use rebuild_token_vesting.Base.Bytes.{Bytes}
use rebuild_token_vesting.Error.{ProgramError, not_enough_account_keys, uninitialized_account}
use rebuild_token_vesting.State.Header.{Pubkey, IsPubkey, VestingScheduleHeader}
use rebuild_token_vesting.Runtime.Action.{World, AccountInfo, data_of}
use rebuild_token_vesting.Runtime.Calls.{Runtime, Instruction, TokenAccount}

-- "Return the next AccountInfo or a NotEnoughAccountKeys error."
pub record NextAccount (rt : Runtime) : Type 0 where
  pub at_end : rt.next_account_info [] ≡ err not_enough_account_keys
  pub at_entry :
      (a : AccountInfo) (rest : List AccountInfo) → rt.next_account_info (a ∷ rest) ≡ ok (a, rest)

-- "Unpack from slice and check if initialized", from a slice of the exact length.
pub record PackUnpack (rt : Runtime) : Type 0 where
  pub initialized :
      (n : ℕ) (from_slice : Bytes → Result ProgramError VestingScheduleHeader)
      (flag : VestingScheduleHeader → Bool) (src : Bytes) (h : VestingScheduleHeader)
      → length src ≡ n
      → from_slice src ≡ ok h
      → flag h ≡ true
      → rt.unpack n from_slice flag src ≡ ok h
  pub uninitialized :
      (n : ℕ) (from_slice : Bytes → Result ProgramError VestingScheduleHeader)
      (flag : VestingScheduleHeader → Bool) (src : Bytes) (h : VestingScheduleHeader)
      → length src ≡ n
      → from_slice src ≡ ok h
      → flag h ≡ false
      → rt.unpack n from_slice flag src ≡ err uninitialized_account
  pub unpacked :
      (n : ℕ) (from_slice : Bytes → Result ProgramError VestingScheduleHeader)
      (flag : VestingScheduleHeader → Bool) (src : Bytes) (h : VestingScheduleHeader)
      → rt.unpack n from_slice flag src ≡ ok h
      → (from_slice src ≡ ok h) × (flag h ≡ true)

-- Data that nobody holds mutably can be borrowed.
abbrev pub TryBorrow : Runtime → Type 0
TryBorrow rt =
    (a : AccountInfo) (w : World)
    → w.borrowed ≡ none
    → rt.try_borrow_data a w ≡ ok (data_of w a.key)

-- Only an account's owner changes its data: a token transfer leaves the accounts of other programs
-- than the token program `program` alone, and returns every borrow.
pub record TransferKeeps (rt : Runtime) : Type 0 where
  pub accounts_kept :
      (program source destination authority : Pubkey) (n : ℕ) (ix : Instruction)
      (infos : List AccountInfo) (seeds : List (List Bytes)) (w w' : World)
      → rt.transfer program source destination authority [] n ≡ ok ix
      → rt.invoke_signed ix infos seeds w ≡ (ok tt, w')
      → (k : Pubkey) → (w.accounts k).owner ≢ program
      → w'.accounts k ≡ w.accounts k
  pub accounts_kept_unsigned :
      (program source destination authority : Pubkey) (n : ℕ) (ix : Instruction)
      (infos : List AccountInfo) (w w' : World)
      → rt.transfer program source destination authority [] n ≡ ok ix
      → rt.invoke ix infos w ≡ (ok tt, w')
      → (k : Pubkey) → (w.accounts k).owner ≢ program
      → w'.accounts k ≡ w.accounts k
  pub borrows_kept :
      (ix : Instruction) (infos : List AccountInfo) (seeds : List (List Bytes)) (w w' : World)
      → rt.invoke_signed ix infos seeds w ≡ (ok tt, w')
      → w'.borrowed ≡ w.borrowed

-- What the token program documents of a transfer that it made.
pub record Moved (rt : Runtime) (source destination : Pubkey) (n : ℕ) (w w' : World) : Type 0 where
  pub debited :
      (a : TokenAccount)
      → rt.token_unpack (data_of w source) ≡ ok a
      → a.delegate ≡ none
      → source ≢ destination
      → (n ≤ a.amount)
        × (rt.token_unpack (data_of w' source) ≡ ok (record a { amount = a.amount - n }))
  pub credited :
      (b : TokenAccount)
      → rt.token_unpack (data_of w destination) ≡ ok b
      → source ≢ destination
      → rt.token_unpack (data_of w' destination) ≡ ok (record b { amount = b.amount + n })
  pub to_itself : source ≡ destination → w'.accounts source ≡ w.accounts source
  pub others : (k : Pubkey) → k ≢ source → k ≢ destination → w'.accounts k ≡ w.accounts k

-- "Transfers tokens from one account to another", and `Account::LEN`, which `Account::unpack` checks.
pub record TokenTransfer (rt : Runtime) : Type 0 where
  pub size : (bs : Bytes) (a : TokenAccount) → rt.token_unpack bs ≡ ok a → length bs ≡ 165
  pub moves :
      (source destination authority : Pubkey) (n : ℕ) (ix : Instruction) (infos : List AccountInfo)
      (seeds : List (List Bytes)) (w w' : World)
      → rt.transfer rt.spl_token_id source destination authority [] n ≡ ok ix
      → rt.invoke_signed ix infos seeds w ≡ (ok tt, w')
      → Moved rt source destination n w w'
  pub moves_unsigned :
      (source destination authority : Pubkey) (n : ℕ) (ix : Instruction) (infos : List AccountInfo)
      (w w' : World)
      → rt.transfer rt.spl_token_id source destination authority [] n ≡ ok ix
      → rt.invoke ix infos w ≡ (ok tt, w')
      → Moved rt source destination n w w'

-- When the token program makes a transfer out of an account whose owner is an address of the program
-- `program_id`, which signs with its seeds.
pub record CarriesOut (rt : Runtime) (program_id : Pubkey) : Type 0 where
  pub built :
      (source destination authority : Pubkey) (n : ℕ)
      → IsPubkey source
      → (ix : Instruction) × (rt.transfer rt.spl_token_id source destination authority [] n ≡ ok ix)
  pub carried :
      (spl source destination authority : AccountInfo) (seeds : Bytes) (n : ℕ) (ix : Instruction)
      (w : World) (a b : TokenAccount)
      → rt.transfer rt.spl_token_id source.key destination.key authority.key [] n ≡ ok ix
      → spl.key ≡ rt.spl_token_id
      → rt.create_program_address (seeds ∷ []) program_id ≡ ok authority.key
      → w.borrowed ≡ none
      → (source.is_writable ≡ true) × (destination.is_writable ≡ true)
      → ((w.accounts source.key).owner ≡ rt.spl_token_id)
        × ((w.accounts destination.key).owner ≡ rt.spl_token_id)
      → rt.token_unpack (data_of w source.key) ≡ ok a
      → rt.token_unpack (data_of w destination.key) ≡ ok b
      → a.owner ≡ authority.key
      → a.mint ≡ b.mint
      → (a.frozen ≡ false) × (b.frozen ≡ false)
      → n ≤ a.amount
      → b.amount + n < 2 ^ 64
      → (w' : World) × (rt.invoke_signed ix
            (spl ∷ source ∷ destination ∷ authority ∷ [])
            ((seeds ∷ []) ∷ [])
            w
          ≡ (ok tt, w'))
