-- ===== src/Examples/ChainPay.antt =====
-- What a payment does on the small chain.
use rebuild_token_vesting.Base.{
  ℕ, ◌+◌, ◌-◌, ◌≡◌, ◌≢◌, ◌≤◌, sym, ap, ◌∙◌, true, List, [], ◌∷◌, ◌++◌, length, take-append,
  drop-append, bytes_eq, bytes_eq_ne, bytes_eq_refl, bytes_eq→eq, Result, ok, err, ◌==◌, ◌&&◌, leb,
  arith, Bool-cases, inl, inr,
}
use rebuild_token_vesting.Base.Bytes.{Bytes}
use rebuild_token_vesting.Error.{ProgramError, external, invalid_account_data}
use rebuild_token_vesting.State.Header.{Pubkey}
use rebuild_token_vesting.Runtime.Action.{World, AccountInfo, data_of, set_data}
use rebuild_token_vesting.Runtime.Calls
use rebuild_token_vesting.Runtime.Calls.{TokenAccount}
use rebuild_token_vesting.Runtime.Documented.{Moved}
use rebuild_token_vesting.Runtime.Store.{accounts-set_data_ne, data_of-set_data}
use rebuild_token_vesting.Runtime.Steps.{pure-eq-ok}
use rebuild_token_vesting.Examples.Chain.{
  chain, token_program, token_of, read_token, make_transfer, with_amount, amount_in, moved,
  is_token, pay, call,
}

abbrev pub transfer_of : ℕ → Pubkey → Pubkey → Calls.Instruction
transfer_of n source destination = record {
  program_id = token_program;
  accounts = [];
  input = n ∷ (source ++ destination);
}

pub make_transfer-ok :
    (program source destination authority : Pubkey) (n : ℕ) (ix : Calls.Instruction)
    → make_transfer program source destination authority [] n ≡ ok ix
    → (program ≡ token_program) × (length source ≡ 32) × (ix ≡ transfer_of n source destination)
unfolding make_transfer
make_transfer-ok program source destination authority n ix e =
    elim (Bool-cases (bytes_eq program token_program)) [
      | inl same ↦ elim (Bool-cases (length source == 32)) [
        | inl whole ↦
            let here : program ≡ token_program = bytes_eq→eq program token_program same in
            (here, ground arith, made (rw (same, whole, here) at e))
        | inr short ↦ absurd (refused (rw (same, short) at e))
      ]
      | inr other ↦ absurd (refused (rw other at e))
    ]
  where
    refused : ◌≡◌ {A = Result ProgramError Calls.Instruction} (err (external 2)) (ok ix) → ⊥
    refused q = cc

    made :
        ◌≡◌ {A = Result ProgramError Calls.Instruction}
          (ok (transfer_of n source destination))
          (ok ix)
        → ix ≡ transfer_of n source destination
    made q = cc

-- The call of a transfer that was made.
pub call-transfer :
    (program source destination authority : Pubkey) (n : ℕ) (ix : Calls.Instruction)
    (infos : List AccountInfo) (w : World)
    → make_transfer program source destination authority [] n ≡ ok ix
    → call ix infos w ≡ pay n source destination w
unfolding call
call-transfer program source destination authority n ix infos w e =
    let (_, whole, same) = make_transfer-ok program source destination authority n ix e in
    rw (same, take-append 32 source destination whole, drop-append 32 source destination whole)

pub pay-eq-ok :
    (n : ℕ) (s d : Pubkey) (w w' : World)
    → pay n s d w ≡ (ok tt, w')
    → (is_token w s ≡ true)
      × (is_token w d ≡ true)
      × (n ≤ amount_in (data_of w s))
      × (w' ≡ moved n s d w)
unfolding pay
pay-eq-ok n s d w w' e =
    elim (Bool-cases (is_token w s && is_token w d && leb n (amount_in (data_of w s)))) [
      | inl paid ↦ (
        ground arith,
        ground arith,
        ground arith,
        (pure-eq-ok tt (moved n s d w) (rw paid at e)).1,
      )
      | inr refused ↦ absurd (failed (rw refused at e))
    ]
  where
    failed : ◌≡◌ {A = Result ProgramError (Unit {0}) × World} (err (external 3), w) (ok tt, w') → ⊥
    failed q = cc

pub moved_elsewhere :
    (n : ℕ) (s d k : Pubkey) (w : World) → k ≢ s → k ≢ d → (moved n s d w).accounts k ≡ w.accounts k
unfolding moved
moved_elsewhere n s d k w not_s not_d = elim (Bool-cases (bytes_eq s d)) [
  | inl self ↦ rw self
  | inr two ↦ rw two (accounts-set_data_ne _ d k _ not_d ∙ accounts-set_data_ne w s k _ not_s)
]

pub with_amount-read :
    (m : ℕ) (bs : Bytes) (a : TokenAccount)
    → read_token bs ≡ ok a
    → (a.amount ≡ amount_in bs)
      × (read_token (with_amount m bs) ≡ ok (record a { amount = m }))
      × (length bs ≡ 165)
unfolding read_token
with_amount-read m [] a e = cc
with_amount-read m (n ∷ rest) a e = elim (Bool-cases (length rest == 164)) [
  | inl whole ↦
      let same : token_of n rest ≡ a = the_account (rw whole at e) in
      (sym (ap (λ x. x.amount) same), rw whole (another same), ground arith)
  | inr other ↦ absurd (refused (rw other at e))
]
  where
    refused : ◌≡◌ {A = Result ProgramError TokenAccount} (err invalid_account_data) (ok a) → ⊥
    refused q = cc

    another :
        token_of n rest ≡ a
        → ◌≡◌ {A = Result ProgramError TokenAccount}
            (ok (token_of m rest))
            (ok (record a { amount = m }))
    another q = ap (λ (x : TokenAccount). ok (record x { amount = m })) q

    the_account :
        ◌≡◌ {A = Result ProgramError TokenAccount} (ok (token_of n rest)) (ok a)
        → token_of n rest ≡ a
    the_account q = cc

-- What a payment that was made does.
pub pay-Moved :
    (n : ℕ) (s d : Pubkey) (w w' : World) → pay n s d w ≡ (ok tt, w') → Moved chain s d n w w'
unfolding moved
pay-Moved n s d w w' e =
    let (_, _, enough, result) = pay-eq-ok n s d w w' e in
    record {
      debited = λ a read plain two.
          let (amount, new, _) =
            with_amount-read (amount_in (data_of w s) - n) (data_of w s) a read in
          (
            omega arith,
            ap (λ x. read_token (data_of x s)) result ∙ source_data n s d w two a amount new,
          );
      credited = λ b read two.
          let (amount, new, _) =
            with_amount-read (amount_in (data_of w d) + n) (data_of w d) b read in
          ap (λ x. read_token (data_of x d)) result ∙ destination_data n s d w two b amount new;
      to_itself = λ self. ap (λ x. x.accounts s) result ∙ (rw self (same n d w));
      others =
          λ k not_s not_d. ap (λ x. x.accounts k) result ∙ moved_elsewhere n s d k w not_s not_d;
    }
  where
    same : (n : ℕ) (d : Pubkey) (w : World) → (moved n d d w).accounts d ≡ w.accounts d
    same n d w = rw (bytes_eq_refl d)

    source_data :
        (n : ℕ) (s d : Pubkey) (w : World)
        → s ≢ d
        → (a : TokenAccount) → a.amount ≡ amount_in (data_of w s)
        → read_token (with_amount (amount_in (data_of w s) - n) (data_of w s))
          ≡ ok (record a { amount = amount_in (data_of w s) - n })
        → read_token (data_of (moved n s d w) s) ≡ ok (record a { amount = a.amount - n })
    source_data n s d w two a amount new =
        rw (bytes_eq_ne s d two, amount)
          (ap (λ x. read_token x.bytes)
              (accounts-set_data_ne
                (set_data w s (with_amount (amount_in (data_of w s) - n) (data_of w s))) d s
                (with_amount (amount_in (data_of w d) + n) (data_of w d)) two)
            ∙ ap read_token
                (data_of-set_data w s (with_amount (amount_in (data_of w s) - n) (data_of w s)))
            ∙ new)

    destination_data :
        (n : ℕ) (s d : Pubkey) (w : World)
        → s ≢ d
        → (b : TokenAccount) → b.amount ≡ amount_in (data_of w d)
        → read_token (with_amount (amount_in (data_of w d) + n) (data_of w d))
          ≡ ok (record b { amount = amount_in (data_of w d) + n })
        → read_token (data_of (moved n s d w) d) ≡ ok (record b { amount = b.amount + n })
    destination_data n s d w two b amount new =
        rw (bytes_eq_ne s d two, amount)
          (ap read_token (
              data_of-set_data
                (set_data w s (with_amount (amount_in (data_of w s) - n) (data_of w s))) d
                (with_amount (amount_in (data_of w d) + n) (data_of w d)))
            ∙ new)
