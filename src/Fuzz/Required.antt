-- ===== src/Fuzz/Required.antt =====
-- The keys that have to sign what rs/hfuzz/src/vesting_fuzz.rs collects.
use rebuild_token_vesting.Base.{
  ℕ, ◌≤◌, arith, ◌≡◌, sym, ap, ◌∙◌, true, false, some, List, [], ◌∷◌, ◌++◌, Any, here, there,
  Any-append-left, Any-append-right, Result, ok, >>=-eq-ok,
}
use rebuild_token_vesting.Error.{ProgramError}
use rebuild_token_vesting.State.Header.{Pubkey}
use rebuild_token_vesting.Instruction.{Seeds, init}
use rebuild_token_vesting.Instruction.Builders
use rebuild_token_vesting.Runtime.Calls
use rebuild_token_vesting.Runtime.Calls.{AccountMeta}
use rebuild_token_vesting.Processor.Dispatch.Clients.{MetaFields}
use rebuild_token_vesting.Fuzz.Outside.{Outside}
use rebuild_token_vesting.Fuzz.Keys.{AccountId, get}
use rebuild_token_vesting.Fuzz.Harness.{FuzzInstruction, TokenVestingEnv, run_wrong, run_fuzz_ix}
use rebuild_token_vesting.Fuzz.Run.{KeyMaps, add_keys, run_with_keys, collect}
use rebuild_token_vesting.Fuzz.KeyInvariant.{add_keys-counts}
use rebuild_token_vesting.Fuzz.Signatures.{all_keys, all_keys-Grows, run_with_keys-Round}

-- The key `k` has to sign one of the instructions.
abbrev pub Requires : List Calls.Instruction → Pubkey → Type 0
Requires ixs k =
    Any
      (λ (ix : Calls.Instruction).
        Any (λ (m : AccountMeta). (m.is_signer ≡ true) × (m.pubkey ≡ k)) ix.accounts)
      ixs

-- An `Init` with wrong inputs.
abbrev pub IsWrongInit : FuzzInstruction → Type 0
IsWrongInit ix = (ix.correct_inputs ≡ false) × (s : Seeds) × (n : ℕ) × (ix.instruction ≡ init s n)

pub first :
    {A B : Type 0} {a x : A} {b y : B}
    → ◌≡◌ {A = Result ProgramError (A × B)} (ok (a, b)) (ok (x, y))
    → a ≡ x
first q = cc

module _ (o : Outside) (fields : MetaFields o.metas) (env : TokenVestingEnv o) where
  run_wrong-Requires :
      (ix : FuzzInstruction) (vesting : Pubkey) (payer : o.Keypair) (s : Seeds) (n : ℕ)
      (ixs : List Calls.Instruction) (sks : List o.Keypair)
      → run_wrong o env ix vesting payer (init s n) ≡ ok (ixs, sks)
      → Requires ixs (o.pubkey payer)
  unfolding run_wrong Builders.init
  run_wrong-Requires ix vesting payer s n ixs sks e =
      let same = first e in
      rw (← same) (
        here (
          there (
            there (
              here (
                ap (λ (m : AccountMeta). m.is_signer) (fields.writable (o.pubkey payer) true),
                ap (λ (m : AccountMeta). m.pubkey) (fields.writable (o.pubkey payer) true),
              )))))

  run_fuzz_ix-Requires :
      (ix : FuzzInstruction) (payer mint : o.Keypair) (vesting vesting_token : Pubkey)
      (owner destination_owner : o.Keypair) (destination_token new_token : Pubkey)
      (wrong_payer : o.Keypair) (ixs : List Calls.Instruction) (sks : List o.Keypair)
      → IsWrongInit ix
      → run_fuzz_ix o env ix payer mint vesting vesting_token owner destination_owner
          destination_token new_token wrong_payer
        ≡ ok (ixs, sks)
      → Requires ixs (o.pubkey wrong_payer)
  unfolding run_fuzz_ix
  run_fuzz_ix-Requires ix payer mint vesting vesting_token owner destination_owner destination_token
        new_token wrong_payer ixs sks (wrong, s, n, is_init) e =
      run_wrong-Requires ix vesting wrong_payer s n ixs sks
        (sym (ap (run_wrong o env ix vesting wrong_payer) is_init) ∙ (rw wrong at e))

  -- What had to sign before still has to.
  collect-keeps :
      (payer : o.Keypair) (ins : List FuzzInstruction) (maps : KeyMaps o)
      (out ixs : List Calls.Instruction) (ks sks : List o.Keypair) (k : Pubkey)
      → Requires out k
      → collect o env payer ins maps out ks ≡ ok (ixs, sks)
      → Requires ixs k
  unfolding collect
  collect-keeps payer [] maps out ixs ks sks k h e = let same = first e in rw (← same) h
  collect-keeps payer (ix ∷ rest) maps out ixs ks sks k h e =
      let (made, _, e1) = >>=-eq-ok (run_with_keys o env payer ix (add_keys o ix maps)) _ e in
      collect-keeps payer rest (add_keys o ix maps) (out ++ made.0) ixs (ks ++ made.1) sks k
        (Any-append-left _ out made.0 h) e1

  -- A wrong `Init` makes a payer of the last maps sign.
  pub collect-Requires :
      (payer : o.Keypair) (ins : List FuzzInstruction) (maps : KeyMaps o)
      (out ixs : List Calls.Instruction) (ks sks : List o.Keypair)
      → Any IsWrongInit ins
      → collect o env payer ins maps out ks ≡ ok (ixs, sks)
      → (id : AccountId) × (k : o.Keypair) × (get id (all_keys o ins maps).payer_keys ≡ some k)
        × Requires ixs (o.pubkey k)
  unfolding collect all_keys
  collect-Requires payer [] maps out ixs ks sks h e = elim h [ ]
  collect-Requires payer (ix ∷ rest) maps out ixs ks sks (here wrong) e =
      let (made, ran, e1) = >>=-eq-ok (run_with_keys o env payer ix (add_keys o ix maps)) _ e in
      let r = run_with_keys-Round o env payer ix (add_keys o ix maps) made.0 made.1 ran in
      (
        ix.payer_key,
        r.wrong_payer,
        (all_keys-Grows o rest (add_keys o ix maps)).payers ix.payer_key r.wrong_payer r.payer_got,
        collect-keeps payer rest (add_keys o ix maps) (out ++ made.0) ixs (ks ++ made.1) sks
            (o.pubkey r.wrong_payer)
            (Any-append-right _ out made.0 (
              run_fuzz_ix-Requires ix payer r.mint r.vesting r.vesting_token r.owner
                r.destination_owner r.destination_token r.new_token r.wrong_payer made.0 made.1
                wrong r.ran))
            e1,
      )
  collect-Requires payer (ix ∷ rest) maps out ixs ks sks (there h) e =
      let (made, ran, e1) = >>=-eq-ok (run_with_keys o env payer ix (add_keys o ix maps)) _ e in
      collect-Requires payer rest (add_keys o ix maps) (out ++ made.0) ixs (ks ++ made.1) sks h e1

pub all_keys-counts :
    (o : Outside) (ins : List FuzzInstruction) (maps : KeyMaps o)
    → maps.drawn ≤ (all_keys o ins maps).drawn
unfolding all_keys
all_keys-counts o [] maps = omega arith
all_keys-counts o (ix ∷ rest) maps =
    omega (arith, add_keys-counts o ix maps, all_keys-counts o rest (add_keys o ix maps))
