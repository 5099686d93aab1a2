-- ===== src/Examples/FuzzScene.antt =====
-- A small bank for rs/hfuzz/src/vesting_fuzz.rs: a keypair is its public key, a transaction keeps its
-- instructions and signers, and the bank looks at the signatures only.
use rebuild_token_vesting.Base.{
  ℕ, ◌+◌, ◌*◌, ◌≡◌, ◌≢◌, refl, ap, Bool, true, false, Bool-cases, inl, inr, ◌&&◌, ◌||◌, ◌==◌, not,
  List, [], ◌∷◌, ◌++◌, All, Any, here, there, Result, ok, err, panic, bytes_eq, bytes_eq_ne,
  if◌then◌else◌, arith,
}
use rebuild_token_vesting.Base.Bytes.{Bytes}
use rebuild_token_vesting.Error.{ProgramError}
use rebuild_token_vesting.State.Header.{Pubkey}
use rebuild_token_vesting.Runtime.Calls
use rebuild_token_vesting.Runtime.Calls.{AccountMeta}
use rebuild_token_vesting.Fuzz.Outside.{
  Outside, transaction_error, signature_failure, KeypairBytes, FindsDerived, TokenInstructions,
}
use rebuild_token_vesting.Fuzz.Required.{Requires}
use rebuild_token_vesting.Fuzz.Unsigned.{ChecksSignatures}
use rebuild_token_vesting.Examples.Chain.{chain, key_of, token_program, derive, make_account}
use rebuild_token_vesting.Examples.EntryTests.{metas}

unfoldable pub find : List Bytes → Pubkey → Result ProgramError (Pubkey × ℕ)
find ((b ∷ bs) ∷ []) program_id = if b == 255 then panic else ok ((b ∷ bs) ++ (2 ∷ []), 2)
find seeds program_id = panic

-- A signature of `k` among those of the signers.
unfoldable pub has_signed : Pubkey → List Pubkey → Bool
has_signed k [] = false
has_signed k (s ∷ ss) = bytes_eq s k || has_signed k ss

unfoldable pub metas_signed : List Pubkey → List AccountMeta → Bool
unfolding has_signed
metas_signed signers [] = true
metas_signed signers (m ∷ ms) =
    (not m.is_signer || has_signed m.pubkey signers) && metas_signed signers ms

unfoldable pub all_signed : List Pubkey → List Calls.Instruction → Bool
unfolding metas_signed
all_signed signers [] = true
all_signed signers (ix ∷ ixs) = metas_signed signers ix.accounts && all_signed signers ixs

abbrev pub note : ℕ → Bytes → Calls.Instruction
note n input = record { program_id = key_of n; accounts = []; input = input }

abbrev pub bank : Outside
bank = record {
  Keypair = Pubkey;
  pubkey = λ k. k;
  to_bytes = λ k. k;
  from_bytes = λ bs. ok bs;
  new_unique = λ n. key_of (100 + n);
  new_keypair = λ n. key_of (50 + n);
  find_program_address = find;
  get_associated_token_address = λ wallet mint.
      if bytes_eq wallet (key_of 4)
      then key_of 5
      else (if bytes_eq wallet (key_of 7) then key_of 6 else key_of 3);
  create_associated_token_account = λ payer wallet mint. note 15 wallet;
  new_with_bytes = λ program_id input accounts. record {
    program_id = program_id;
    accounts = accounts;
    input = input;
  };
  minimum_balance = λ n. n * 10;
  create_account = make_account;
  spl_token_id = token_program;
  initialize_mint = λ spl mint authority freeze decimals. ok (note 9 mint);
  mint_to = λ spl mint account authority signers amount. ok (note 9 account);
  metas = metas;
  Hash = Unit {0};
  Transaction = List Calls.Instruction × List Pubkey;
  new_with_payer = λ ixs payer. (ixs, []);
  partial_sign = λ tx signers hash. ok (tx.0, signers);
  process_transaction =
      λ tx. if all_signed tx.1 tx.0 then ok tt else err (transaction_error signature_failure);
}

pub bank-KeypairBytes : KeypairBytes bank
bank-KeypairBytes k = refl

pub bank-TokenInstructions : TokenInstructions bank
bank-TokenInstructions = record {
  mint_initialized = λ mint authority freeze decimals. (note 9 mint, refl);
  minted = λ mint account authority amount. (note 9 account, refl);
}

pub bank-FindsDerived : FindsDerived bank chain
unfolding find derive
bank-FindsDerived [] program_id k bump long e = cc
bank-FindsDerived (b ∷ bs) program_id k bump long e = elim (Bool-cases (b == 255)) [
  | inl none_there ↦ absurd (no_panic (rw none_there at e))
  | inr fine ↦
      let (key_is, bump_is) = found (rw fine at e) in
      (omega (arith, bump_is), rw (fine, ← bump_is) (ap ok key_is))
]
  where
    no_panic : ◌≡◌ {A = Result ProgramError (Pubkey × ℕ)} panic (ok (k, bump)) → ⊥
    no_panic q = cc

    found :
        ◌≡◌ {A = Result ProgramError (Pubkey × ℕ)} (ok ((b ∷ bs) ++ (2 ∷ []), 2)) (ok (k, bump))
        → ((b ∷ bs) ++ (2 ∷ []) ≡ k) × (2 ≡ bump)
    found q = (cc, cc)

has_signed-none :
    (k : Pubkey) (ss : List Pubkey) → All (λ (s : Pubkey). s ≢ k) ss → has_signed k ss ≡ false
unfolding has_signed
has_signed-none k [] h = refl
has_signed-none k (s ∷ ss) (h, hs) = rw (bytes_eq_ne s k h) (has_signed-none k ss hs)

metas_signed-none :
    (k : Pubkey) (ss : List Pubkey) (ms : List AccountMeta)
    → All (λ (s : Pubkey). s ≢ k) ss
    → Any (λ (m : AccountMeta). (m.is_signer ≡ true) × (m.pubkey ≡ k)) ms
    → metas_signed ss ms ≡ false
unfolding metas_signed
metas_signed-none k ss [] h has = elim has [ ]
metas_signed-none k ss (m ∷ ms) h (here (signs, same)) =
    ground (arith, signs, same, has_signed-none k ss h)
metas_signed-none k ss (m ∷ ms) h (there has) = ground (arith, metas_signed-none k ss ms h has)

all_signed-none :
    (k : Pubkey) (ss : List Pubkey) (ixs : List Calls.Instruction)
    → All (λ (s : Pubkey). s ≢ k) ss
    → Requires ixs k
    → all_signed ss ixs ≡ false
unfolding all_signed
all_signed-none k ss [] h has = elim has [ ]
all_signed-none k ss (ix ∷ ixs) h (here has) =
    ground (arith, metas_signed-none k ss ix.accounts h has)
all_signed-none k ss (ix ∷ ixs) h (there has) = ground (arith, all_signed-none k ss ixs h has)

pub bank-ChecksSignatures : ChecksSignatures bank
bank-ChecksSignatures ixs payer signers hash tx k signed required others =
    let same = the_transaction signed in rw (← same, all_signed-none k signers ixs others required)
  where
    the_transaction :
        {t t' : List Calls.Instruction × List Pubkey}
        → ◌≡◌ {A = Result ProgramError (List Calls.Instruction × List Pubkey)} (ok t) (ok t')
        → t ≡ t'
    the_transaction q = cc
