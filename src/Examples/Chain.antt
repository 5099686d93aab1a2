-- ===== src/Examples/Chain.antt =====
-- A small chain for trying the handlers of rs/src/processor.rs: the external functions with the
-- behaviour that their documents state, on token accounts of one byte of amount and an owner.
use rebuild_token_vesting.Base.{
  ℕ, ◌&&◌, leb, zero, suc, ◌+◌, ◌-◌, ◌*◌, ◌≡◌, refl, Bool, true, false, none, some, List, [], ◌∷◌,
  ◌++◌, length, take, drop, get_elem?, bytes_eq, Result, ok, err, panic, if◌then◌else◌, ◌==◌, ◌>>=◌,
  arith, Bool-cases, inl, inr,
}
use rebuild_token_vesting.Base.Bytes.{Bytes}
use rebuild_token_vesting.Error.{
  ProgramError, external, not_enough_account_keys, uninitialized_account, invalid_account_data,
}
use rebuild_token_vesting.State.Header.{Pubkey, VestingScheduleHeader}
use rebuild_token_vesting.Runtime.Action.{
  World, AccountInfo, Action, set_data, data_of, is_borrowed,
}
use rebuild_token_vesting.Runtime.Calls
use rebuild_token_vesting.Runtime.Calls.{Runtime, TokenAccount, ℤ, pos}
use rebuild_token_vesting.Runtime.Documented.{NextAccount, PackUnpack, TryBorrow}
use rebuild_token_vesting.Runtime.Store.{is_borrowed_free}

-- A list of `n` times the byte `b`, and the key of such bytes.
abbrev pub repeated : ℕ → ℕ → Bytes
repeated zero b = []
repeated (suc n) b = b ∷ repeated n b

abbrev pub key_of : ℕ → Pubkey
key_of b = repeated 32 b

abbrev pub token_program : Pubkey
token_program = key_of 9

unfoldable pub next_account :
    List AccountInfo → Result ProgramError (AccountInfo × List AccountInfo)
next_account [] = err not_enough_account_keys
next_account (a ∷ rest) = ok (a, rest)

-- The address that seeds name is the seeds themselves; seeds that begin with 255 name none.
unfoldable pub derive : List Bytes → Pubkey → Result ProgramError Pubkey
derive ((b ∷ bs) ∷ []) program_id = if b == 255 then err (external 0) else ok (b ∷ bs)
derive seeds program_id = err (external 0)

unfoldable pub try_borrow : AccountInfo → World → Result ProgramError Bytes
try_borrow a w = if is_borrowed w a.key then err (external 1) else ok (data_of w a.key)

unfoldable pub unpack_checked :
    ℕ
    → (Bytes → Result ProgramError VestingScheduleHeader)
    → (VestingScheduleHeader → Bool)
    → Bytes
    → Result ProgramError VestingScheduleHeader
unpack_checked n from_slice flag src =
    if length src == n
    then (from_slice src >>= λ h. if flag h then ok h else err uninitialized_account)
    else err invalid_account_data

-- The clock shows the first byte of its account.
unfoldable pub read_clock : AccountInfo → World → Result ProgramError ℤ
read_clock a w = elim (get_elem? (data_of w a.key) 0) [
  | none ↦ err invalid_account_data
  | some t ↦ ok (pos t)
]

-- A token account: the amount, the owner, and the rest of the 165 bytes.
abbrev pub token_bytes : ℕ → ℕ → Bytes
token_bytes n owner = n ∷ (key_of owner ++ repeated 132 0)

abbrev pub token_of : ℕ → Bytes → TokenAccount
token_of n rest = record {
  owner = take 32 rest;
  amount = n;
  delegate = none;
  close_authority = none;
  mint = key_of 11;
  frozen = false;
}

unfoldable pub read_token : Bytes → Result ProgramError TokenAccount
read_token [] = err invalid_account_data
read_token (n ∷ rest) =
    if length rest == 164 then ok (token_of n rest) else err invalid_account_data

-- An instruction to transfer: the amount, the source and the destination.
unfoldable pub make_transfer :
    Pubkey → Pubkey → Pubkey → Pubkey → List Pubkey → ℕ → Result ProgramError Calls.Instruction
make_transfer program source destination authority signers n =
    if bytes_eq program token_program && length source == 32
    then ok (record { program_id = program; accounts = []; input = n ∷ (source ++ destination) })
    else err (external 2)

-- The data of a token account with another amount.
abbrev pub with_amount : ℕ → Bytes → Bytes
with_amount n [] = []
with_amount n (a ∷ rest) = n ∷ rest

abbrev pub amount_in : Bytes → ℕ
amount_in [] = 0
amount_in (a ∷ rest) = a

-- The accounts behind a transfer of `n` from `s` to `d`.
unfoldable pub moved : ℕ → Pubkey → Pubkey → World → World
moved n s d w =
    if bytes_eq s d
    then w
    else set_data (set_data w s (with_amount (amount_in (data_of w s) - n) (data_of w s))) d
        (with_amount (amount_in (data_of w d) + n) (data_of w d))

abbrev pub is_token : World → Pubkey → Bool
is_token w k = bytes_eq (w.accounts k).owner token_program && length (data_of w k) == 165

unfoldable pub pay : ℕ → Pubkey → Pubkey → Action (Unit {0})
pay n s d w =
    if is_token w s && is_token w d && leb n (amount_in (data_of w s))
    then (ok tt, moved n s d w)
    else (err (external 3), w)

unfoldable pub call : Calls.Instruction → List AccountInfo → Action (Unit {0})
call ix infos w = elim ix.input [
  | [] ↦ (ok tt, w)
  | n ∷ keys ↦ pay n (take 32 keys) (drop 32 keys) w
]

unfoldable pub call_signed :
    Calls.Instruction → List AccountInfo → List (List Bytes) → Action (Unit {0})
unfolding call
call_signed ix infos seeds = call ix infos

unfoldable pub make_account : Pubkey → Pubkey → ℕ → ℕ → Pubkey → Calls.Instruction
make_account payer account lamports space owner = record {
  program_id = key_of 0;
  accounts = [];
  input = [];
}

abbrev pub chain : Runtime
chain = record {
  next_account_info = next_account;
  create_program_address = derive;
  try_borrow_data = try_borrow;
  unpack = unpack_checked;
  rent_from_account_info = λ a w. ok (λ n. n * 10);
  clock_from_account_info = read_clock;
  create_account = make_account;
  invoke = call;
  invoke_signed = call_signed;
  spl_token_id = token_program;
  token_unpack = read_token;
  transfer = make_transfer;
  overflow_checks = false;
}

pub chain-NextAccount : NextAccount chain
unfolding next_account
chain-NextAccount = record { at_end = refl; at_entry = λ a rest. refl }

pub chain-TryBorrow : TryBorrow chain
unfolding try_borrow
chain-TryBorrow a w free = rw (is_borrowed_free w a.key free)

unpack_checked-ok :
    (n : ℕ) (from_slice : Bytes → Result ProgramError VestingScheduleHeader)
    (flag : VestingScheduleHeader → Bool) (src : Bytes) (h : VestingScheduleHeader)
    → unpack_checked n from_slice flag src ≡ ok h
    → (from_slice src ≡ ok h) × (flag h ≡ true)
unfolding unpack_checked
unpack_checked-ok n from_slice flag src h e = elim (Bool-cases (length src == n)) [
  | inl whole ↦ read (from_slice src) refl (rw whole at e)
  | inr other ↦ absurd (wrong_size (rw other at e))
]
  where
    wrong_size :
        ◌≡◌ {A = Result ProgramError VestingScheduleHeader} (err invalid_account_data) (ok h) → ⊥
    wrong_size q = cc

    flagged :
        (b : Bool) (g : VestingScheduleHeader)
        → flag g ≡ b
        → ◌≡◌ {A = Result ProgramError VestingScheduleHeader}
            (if b then ok g else err uninitialized_account)
            (ok h)
        → (g ≡ h) × (flag g ≡ true)
    flagged true g is q = (cc, is)
    flagged false g is q = cc

    read :
        (r : Result ProgramError VestingScheduleHeader)
        → from_slice src ≡ r
        → (r >>= λ h. if flag h then ok h else err uninitialized_account) ≡ ok h
        → (from_slice src ≡ ok h) × (flag h ≡ true)
    read (ok g) is q = let (same, set) = flagged (flag g) g refl q in rw (← same) (is, set)
    read (err x) is q = cc
    read panic is q = cc

pub chain-PackUnpack : PackUnpack chain
unfolding unpack_checked
chain-PackUnpack = record {
  initialized = λ n from_slice flag src h size read set. ground (arith, size, read, set);
  uninitialized = λ n from_slice flag src h size read set. ground (arith, size, read, set);
  unpacked = unpack_checked-ok;
}
