-- ===== src/Fuzz/CreateEnds.antt =====
-- The last instruction that `create_fuzzinstruction` of rs/hfuzz/src/vesting_fuzz.rs makes.
use rebuild_token_vesting.Base.{
  ℕ, ◌≤◌, ◌≡◌, refl, sym, ap, ◌∙◌, some, none, Option, List, [], ◌∷◌, ◌++◌, append_assoc, length,
  take, Result, ok, err, panic, >>=-eq-ok, unwrap_result, arith, length-take,
}
use rebuild_token_vesting.Base.Bytes.{Bytes}
use rebuild_token_vesting.Error.{ProgramError}
use rebuild_token_vesting.State.Header.{Pubkey}
use rebuild_token_vesting.Instruction
use rebuild_token_vesting.Instruction.{Seeds, VestingInstruction, create}
use rebuild_token_vesting.Instruction.Builders
use rebuild_token_vesting.Runtime.Calls
use rebuild_token_vesting.Runtime.Calls.{Runtime}
use rebuild_token_vesting.Fuzz.Outside.{Outside}
use rebuild_token_vesting.Fuzz.Harness.{
  FuzzInstruction, TokenVestingEnv, used_schedules, slice_to, mint_init_instruction,
  create_fuzzinstruction, clone_keypair, run_correct,
}
use rebuild_token_vesting.Fuzz.Progress.{used_schedules_le, slice_to-ok}

-- The last entry of a list.
last_is : {A : Type 0} → List A → Option A
last_is [] = none
last_is (x ∷ []) = some x
last_is (x ∷ y ∷ xs) = last_is (y ∷ xs)

last_is-snoc : {A : Type 0} (xs : List A) (x : A) → last_is (xs ++ (x ∷ [])) ≡ some x
unfolding last_is
last_is-snoc [] x = refl
last_is-snoc (y ∷ []) x = refl
last_is-snoc (y ∷ z ∷ xs) x = last_is-snoc (z ∷ xs) x

pub snoc-last : {A : Type 0} (xs ys : List A) (x y : A) → xs ++ (x ∷ []) ≡ ys ++ (y ∷ []) → x ≡ y
snoc-last xs ys x y e = same (sym (last_is-snoc xs x) ∙ ap last_is e ∙ last_is-snoc ys y)
  where
    same : some x ≡ some y → x ≡ y
    same q = cc

ok_same : {A : Type 0} {x y : A} → ◌≡◌ {A = Result ProgramError A} (ok x) (ok y) → x ≡ y
ok_same q = cc

unwrapped : {A : Type 0} {y : A} (r : Result ProgramError A) → unwrap_result r ≡ ok y → r ≡ ok y
unwrapped (ok x) h = cc
unwrapped (err e) h = cc
unwrapped panic h = cc

module _ (o : Outside) (env : TokenVestingEnv o) (ix : FuzzInstruction) where
  -- The schedules that the harness passes on.
  abbrev pub passed : List Instruction.Schedule
  passed = take (used_schedules ix.number_of_schedules (length ix.schedules)) ix.schedules

  pub length-passed :
      (length passed ≤ ix.number_of_schedules) × (length passed ≤ length ix.schedules)
  length-passed =
      let (few, short) = used_schedules_le ix.number_of_schedules (length ix.schedules) in
      let size =
        length-take (used_schedules ix.number_of_schedules (length ix.schedules)) ix.schedules in
      (omega (arith, few, short, size), omega (arith, few, short, size))

  -- The list that `create_fuzzinstruction` returns ends with the program's instruction.
  create_fuzzinstruction-ends :
      (payer owner mint : o.Keypair)
      (source_token destination_token destination_owner vesting vesting_token : Pubkey)
      (seeds : Seeds) (amount : ℕ) (ixs : List Calls.Instruction)
      → create_fuzzinstruction o env ix payer source_token owner destination_token destination_owner
          vesting vesting_token seeds mint amount
        ≡ ok ixs
      → (before : List Calls.Instruction) × (create_ix : Calls.Instruction) × (ixs
          ≡ before ++ (create_ix ∷ []))
        × (Builders.create o.metas env.vesting_program_id env.token_program_id vesting vesting_token
              (o.pubkey owner)
              source_token
              destination_token
              (o.pubkey mint)
              passed
              seeds
            ≡ ok create_ix)
  unfolding create_fuzzinstruction
  create_fuzzinstruction-ends payer owner mint source_token destination_token destination_owner
        vesting vesting_token seeds amount ixs e =
      let (mint_ixs, _, e1) =
        >>=-eq-ok (mint_init_instruction o payer mint env.mint_authority_keypair) _ e in
      let (setup, _, e2) =
        >>=-eq-ok
          (unwrap_result (
            o.mint_to o.spl_token_id (o.pubkey mint) source_token
              (o.pubkey env.mint_authority_keypair) [] amount))
          _ e1 in
      let (ss, sliced, e3) =
        >>=-eq-ok
          (slice_to ix.schedules (used_schedules ix.number_of_schedules (length ix.schedules))) _
          e2 in
      let (create_ix, made, e4) =
        >>=-eq-ok
          (unwrap_result (
            Builders.create o.metas env.vesting_program_id env.token_program_id vesting
              vesting_token (o.pubkey owner) source_token destination_token (o.pubkey mint) ss
              seeds))
          _ e3 in
      let same : passed ≡ ss = ok_same (
        sym (
          slice_to-ok ix.schedules _
            (used_schedules_le ix.number_of_schedules (length ix.schedules)).1)
        ∙ sliced) in
      let accounts : List Calls.Instruction =
        o.create_associated_token_account (o.pubkey payer) (o.pubkey owner) (o.pubkey mint)
        ∷ o.create_associated_token_account (o.pubkey payer) vesting (o.pubkey mint)
        ∷ o.create_associated_token_account (o.pubkey payer) destination_owner (o.pubkey mint)
        ∷ setup
        ∷ [] in
      (
        mint_ixs ++ accounts,
        create_ix,
        sym (ok_same e4) ∙ sym (append_assoc mint_ixs accounts (create_ix ∷ [])),
        ap
              (λ (l : List Instruction.Schedule).
                Builders.create o.metas env.vesting_program_id env.token_program_id vesting
                  vesting_token (o.pubkey owner) source_token destination_token (o.pubkey mint) l
                  seeds)
              same
            ∙ unwrapped _ made,
      )

  pub create_arm-ends :
      (payer mint owner destination_owner : o.Keypair)
      (destination_token vesting vesting_token source_token : Pubkey) (seeds : Seeds)
      (s m d : Bytes) (ss : List Instruction.Schedule) (ixs : List Calls.Instruction)
      (sks : List o.Keypair)
      → run_correct o env ix payer mint owner destination_owner destination_token vesting
          vesting_token source_token seeds
          (create s m d ss)
        ≡ ok (ixs, sks)
      → (before : List Calls.Instruction) × (create_ix : Calls.Instruction) × (ixs
          ≡ before ++ (create_ix ∷ []))
        × (Builders.create o.metas env.vesting_program_id env.token_program_id vesting vesting_token
              (o.pubkey owner)
              source_token
              destination_token
              (o.pubkey mint)
              passed
              seeds
            ≡ ok create_ix)
  unfolding run_correct
  create_arm-ends payer mint owner destination_owner destination_token vesting vesting_token
        source_token seeds s m d ss ixs sks e =
      let (init_ix, _, e1) =
        >>=-eq-ok
          (unwrap_result (
            Builders.init o.metas env.system_program_id env.rent_program_id env.vesting_program_id
              (o.pubkey payer) vesting seeds ix.number_of_schedules))
          _ e in
      let (made, built, e2) =
        >>=-eq-ok
          (create_fuzzinstruction o env ix payer source_token owner destination_token
            (o.pubkey destination_owner) vesting vesting_token seeds mint ix.source_token_amount)
          _ e1 in
      let (k1, _, e3) = >>=-eq-ok (clone_keypair o mint) _ e2 in
      let (k2, _, e4) = >>=-eq-ok (clone_keypair o env.mint_authority_keypair) _ e3 in
      let (k3, _, e5) = >>=-eq-ok (clone_keypair o owner) _ e4 in
      let (before, create_ix, same, create_built) =
        create_fuzzinstruction-ends payer owner mint source_token destination_token
          (o.pubkey destination_owner) vesting vesting_token seeds ix.source_token_amount made
          built in
      (
        init_ix ∷ before,
        create_ix,
        sym (ap (λ (p : List Calls.Instruction × List o.Keypair). p.0) (ok_same e5))
            ∙ ap (λ (l : List Calls.Instruction). init_ix ∷ l) same,
        create_built,
      )
