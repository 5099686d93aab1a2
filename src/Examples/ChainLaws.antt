-- ===== src/Examples/ChainLaws.antt =====
-- The small chain's token transfers behave as the documents of rs/src/processor.rs's calls say.
use rebuild_token_vesting.Base.{
  ℕ, ◌≡◌, ◌≢◌, ◌≤◌, refl, sym, ap, ◌∙◌, true, List, [], ◌∷◌, take, drop, bytes_eq, bytes_eq_refl,
  bytes_eq→eq, Result, ok, err, ◌&&◌, leb, arith, Bool-cases, inl, inr,
}
use rebuild_token_vesting.Base.Bytes.{Bytes}
use rebuild_token_vesting.Error.{ProgramError}
use rebuild_token_vesting.State.Header.{Pubkey, IsPubkey}
use rebuild_token_vesting.Runtime.Action.{World, AccountInfo, data_of, set_data}
use rebuild_token_vesting.Runtime.Calls
use rebuild_token_vesting.Runtime.Calls.{TokenAccount}
use rebuild_token_vesting.Runtime.Documented.{TransferKeeps, TokenTransfer, CarriesOut}
use rebuild_token_vesting.Runtime.Steps.{pure-eq-ok}
use rebuild_token_vesting.Processor.Unlock.Atomic.{CallFails}
use rebuild_token_vesting.Examples.Chain.{
  chain, token_program, read_token, make_transfer, amount_in, moved, is_token, pay, call,
  call_signed,
}
use rebuild_token_vesting.Examples.ChainPay.{
  transfer_of, make_transfer-ok, call-transfer, pay-eq-ok, moved_elsewhere, with_amount-read,
  pay-Moved,
}

pub chain-TokenTransfer : TokenTransfer chain
unfolding call_signed
chain-TokenTransfer = record {
  size = λ bs a read. let (_, _, whole) = with_amount-read 0 bs a read in whole;
  moves = λ source destination authority n ix infos seeds w w' made e.
      pay-Moved n source destination w w'
        (sym (call-transfer token_program source destination authority n ix infos w made) ∙ e);
  moves_unsigned = λ source destination authority n ix infos w w' made e.
      pay-Moved n source destination w w'
        (sym (call-transfer token_program source destination authority n ix infos w made) ∙ e);
}

-- The token program owns what it changes.
kept :
    (n : ℕ) (s d k : Pubkey) (w w' : World)
    → pay n s d w ≡ (ok tt, w')
    → (w.accounts k).owner ≢ token_program
    → w'.accounts k ≡ w.accounts k
kept n s d k w w' e foreign =
    let (source_owned, destination_owned, _, result) = pay-eq-ok n s d w w' e in
    ap (λ x. x.accounts k) result
    ∙ moved_elsewhere n s d k w (λ same. owner_differs s source_owned same)
        (λ same. owner_differs d destination_owned same)
  where
    owner_differs : (j : Pubkey) → is_token w j ≡ true → k ≡ j → ⊥
    owner_differs j owned same = foreign (
        ap (λ x. (w.accounts x).owner) same
        ∙ bytes_eq→eq (w.accounts j).owner token_program (ground arith))

borrows :
    (ix : Calls.Instruction) (infos : List AccountInfo) (w w' : World)
    → call ix infos w ≡ (ok tt, w')
    → w'.borrowed ≡ w.borrowed
unfolding call moved set_data
borrows ix infos w w' e = go ix.input refl
  where
    go : (bs : Bytes) → ix.input ≡ bs → w'.borrowed ≡ w.borrowed
    go [] q = ap (λ x. x.borrowed) (pure-eq-ok tt w (rw q at e)).1
    go (n ∷ keys) q =
        let (_, _, _, result) = pay-eq-ok n (take 32 keys) (drop 32 keys) w w' (rw q at e) in
        ap (λ x. x.borrowed) result ∙ same n (take 32 keys) (drop 32 keys)
      where
        same : (n : ℕ) (s d : Pubkey) → (moved n s d w).borrowed ≡ w.borrowed
        same n s d = elim (Bool-cases (bytes_eq s d)) [ inl q ↦ rw q | inr q ↦ rw q ]

pub chain-TransferKeeps : TransferKeeps chain
unfolding call_signed
chain-TransferKeeps = record {
  accounts_kept = λ program source destination authority n ix infos seeds w w' made e k foreign.
      kept n source destination k w w'
        (sym (call-transfer program source destination authority n ix infos w made) ∙ e)
        (λ o.
          foreign (o ∙ sym (make_transfer-ok program source destination authority n ix made).0));
  accounts_kept_unsigned = λ program source destination authority n ix infos w w' made e k foreign.
      kept n source destination k w w'
        (sym (call-transfer program source destination authority n ix infos w made) ∙ e)
        (λ o.
          foreign (o ∙ sym (make_transfer-ok program source destination authority n ix made).0));
  borrows_kept = λ ix infos seeds w w' e. borrows ix infos w w' e;
}

pay_error :
    (n : ℕ) (s d : Pubkey) (w : World) (x : ProgramError)
    → (pay n s d w).0 ≡ err x
    → (pay n s d w).1 ≡ w
unfolding pay
pay_error n s d w x e =
    elim (Bool-cases (is_token w s && is_token w d && leb n (amount_in (data_of w s)))) [
      | inl paid ↦ absurd (no_error (rw paid at e))
      | inr refused ↦ rw refused
    ]
  where
    no_error : ◌≡◌ {A = Result ProgramError (Unit {0})} (ok tt) (err x) → ⊥
    no_error q = cc

pub chain-CallFails : CallFails chain
unfolding call_signed call
chain-CallFails ix infos seeds w x e = go ix.input refl
  where
    go : (bs : Bytes) → ix.input ≡ bs → (call ix infos w).1 ≡ w
    go [] q = rw q
    go (n ∷ keys) q = rw q (pay_error n (take 32 keys) (drop 32 keys) w x (rw q at e))

made_of :
    (source destination authority : Pubkey) (n : ℕ)
    → IsPubkey source
    → make_transfer token_program source destination authority [] n
      ≡ ok (transfer_of n source destination)
unfolding make_transfer
made_of source destination authority n v = ground (arith, v.size, bytes_eq_refl token_program)

paid :
    (n : ℕ) (s d : Pubkey) (w : World) (a b : TokenAccount)
    → ((w.accounts s).owner ≡ token_program) × ((w.accounts d).owner ≡ token_program)
    → read_token (data_of w s) ≡ ok a
    → read_token (data_of w d) ≡ ok b
    → n ≤ a.amount
    → pay n s d w ≡ (ok tt, moved n s d w)
unfolding pay
paid n s d w a b (source_owned, destination_owned) from to enough =
    let (amount, _, whole) = with_amount-read 0 (data_of w s) a from in
    let (_, _, whole') = with_amount-read 0 (data_of w d) b to in
    let all : (is_token w s && is_token w d && leb n (amount_in (data_of w s))) ≡ true =
      ground (arith, bytes_eq_refl token_program, source_owned, destination_owned) in
    rw all

pub chain-CarriesOut : (program_id : Pubkey) → CarriesOut chain program_id
unfolding call_signed
chain-CarriesOut program_id = record {
  built = λ source destination authority n v.
      (transfer_of n source destination, made_of source destination authority n v);
  carried =
      λ spl source destination authority seeds n ix w a b made is_spl derived free writable owned
          from to owner mint thawed enough room.
        (
          moved n source.key destination.key w,
          call-transfer token_program source.key destination.key authority.key n ix
                (spl ∷ source ∷ destination ∷ authority ∷ []) w made
              ∙ paid n source.key destination.key w a b owned from to enough,
        );
}
