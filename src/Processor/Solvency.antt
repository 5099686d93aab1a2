-- ===== src/Processor/Solvency.antt =====
-- Whether the tokens of a vesting contract are there: the token account behind the handlers of
-- rs/src/processor.rs.
pub mod Handlers
pub mod Calls
pub mod Payout
pub mod Balances
use rebuild_token_vesting.Base.{
  ℕ, ◌+◌, ◌-◌, ◌*◌, ◌≤◌, ◌≡◌, ◌≢◌, refl, sym, ap, ◌∙◌, none, some, List, [], ◌∷◌, length, map, All,
  ok, arith, bytes_eq, bytes_eq→eq, bytes_eq→ne, bytes_eq_refl, Bool-cases, inl, inr, true, false,
}
use rebuild_token_vesting.Base.Bytes.{Bytes}
use rebuild_token_vesting.State.Header.{Pubkey, IsPubkey}
use rebuild_token_vesting.Contract.{
  Contract, IsContract, encode, length-encode, locked, due, settled, release, due-add-locked,
}
use rebuild_token_vesting.Contract.Life.{redirect}
use rebuild_token_vesting.Instruction
use rebuild_token_vesting.Instruction.{Seeds}
use rebuild_token_vesting.Instruction.Wire.{IsScheduleArg}
use rebuild_token_vesting.Runtime.Action.{World, AccountInfo, data_of, set_data}
use rebuild_token_vesting.Runtime.Calls.{Runtime, TokenAccount, as_u64}
use rebuild_token_vesting.Runtime.Documented.{Moved, TokenTransfer}
use rebuild_token_vesting.Runtime.Store.{accounts-set_data_ne}

-- The account `token` holds at least what the contract still locks; only the vesting account may
-- spend from it, and nobody else may close it.
pub record Covers (rt : Runtime) (vesting token : Pubkey) (w : World) (c : Contract) : Type 0 where
  pub token_account : TokenAccount
  pub token_unpacked : rt.token_unpack (data_of w token) ≡ ok token_account
  pub token_owner : token_account.owner ≡ vesting
  pub no_delegate : token_account.delegate ≡ none
  pub no_close_authority : token_account.close_authority ≡ none
  pub covered : locked c.schedules ≤ token_account.amount

-- No token account has the size of a contract.
pub token_is_no_contract :
    (rt : Runtime) (doc : TokenTransfer rt) (vesting token : Pubkey) (n : ℕ) (w : World)
    (a : TokenAccount)
    → length (data_of w vesting) ≡ 65 + 16 * n
    → rt.token_unpack (data_of w token) ≡ ok a
    → token ≢ vesting
token_is_no_contract rt doc vesting token n w a size unpacked same =
    omega (arith, doc.size (data_of w token) a unpacked, ap (λ k. length (data_of w k)) same)

module _ (rt : Runtime) (vesting token : Pubkey) where
  -- Accounts that stayed.
  stays-Covers :
      (w w' : World) (c c' : Contract)
      → w'.accounts token ≡ w.accounts token
      → locked c'.schedules ≤ locked c.schedules
      → Covers rt vesting token w c
      → Covers rt vesting token w' c'
  stays-Covers w w' c c' kept less v = record {
    token_account = v.token_account;
    token_unpacked = ap (λ x. rt.token_unpack x.bytes) kept ∙ v.token_unpacked;
    token_owner = v.token_owner;
    no_delegate = v.no_delegate;
    no_close_authority = v.no_close_authority;
    covered = omega (arith, v.covered);
  }

  -- With another amount.
  amount-Covers :
      (w w' : World) (c c' : Contract) (n : ℕ) (v : Covers rt vesting token w c)
      → rt.token_unpack (data_of w' token) ≡ ok (record v.token_account { amount = n })
      → locked c'.schedules ≤ n
      → Covers rt vesting token w' c'
  amount-Covers w w' c c' n v unpacked enough = record {
    token_account = record v.token_account { amount = n };
    token_unpacked = unpacked;
    token_owner = v.token_owner;
    no_delegate = v.no_delegate;
    no_close_authority = v.no_close_authority;
    covered = enough;
  }

  -- A transfer of `n` out of any account, when `n` less is locked then.
  moved-Covers :
      (source destination : Pubkey) (n : ℕ) (w w' : World) (c c' : Contract)
      → Moved rt source destination n w w'
      → n + locked c'.schedules ≡ locked c.schedules
      → Covers rt vesting token w c
      → Covers rt vesting token w' c'
  moved-Covers source destination n w w' c c' m less v = elim (Bool-cases (bytes_eq source token)) [
    | inl from ↦ elim (Bool-cases (bytes_eq source destination)) [
      | inl self ↦
          stays-Covers w w' c c' (rw (bytes_eq→eq _ _ from) at (m.to_itself (bytes_eq→eq _ _ self)))
            (omega arith) v
      | inr other ↦
          let here : source ≡ token = bytes_eq→eq _ _ from in
          let (enough, unpacked) =
            m.debited v.token_account
              (ap (λ k. rt.token_unpack (data_of w k)) here ∙ v.token_unpacked) v.no_delegate
              (bytes_eq→ne source destination other) in
          amount-Covers w w' c c' (v.token_account.amount - n) v
            (ap (λ k. rt.token_unpack (data_of w' k)) (sym here) ∙ unpacked)
            (omega (arith, v.covered))
    ]
    | inr elsewhere ↦ elim (Bool-cases (bytes_eq destination token)) [
      | inl to ↦
          let here : destination ≡ token = bytes_eq→eq _ _ to in
          let unpacked =
            m.credited v.token_account
              (ap (λ k. rt.token_unpack (data_of w k)) here ∙ v.token_unpacked)
              (λ same. bytes_eq→ne source token elsewhere (same ∙ here)) in
          amount-Covers w w' c c' (v.token_account.amount + n) v
            (ap (λ k. rt.token_unpack (data_of w' k)) (sym here) ∙ unpacked)
            (omega (arith, v.covered))
      | inr apart ↦
          stays-Covers w w' c c'
            (m.others token (λ same. bytes_eq→ne source token elsewhere (sym same))
              (λ same. bytes_eq→ne destination token apart (sym same)))
            (omega arith) v
    ]
  ]
