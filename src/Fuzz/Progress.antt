-- ===== src/Fuzz/Progress.antt =====
-- `run_fuzz_instructions` (rs/hfuzz/src/vesting_fuzz.rs) gets to its transaction: no unwrap, index or
-- slice of the harness panics on the way.
use rebuild_token_vesting.Base.{
  ℕ, ◌+◌, ◌≤◌, ◌<◌, ◌≡◌, refl, ap, ◌∙◌, Bool-cases, inl, inr, none, some, List, [], ◌∷◌, ◌++◌,
  length, take, drop, All, le→leb, lt→ltb, Result, ok, ◌>>=◌, unwrap_result, arith,
}
use rebuild_token_vesting.Base.Bytes.{Bytes}
use rebuild_token_vesting.Error.{ProgramError}
use rebuild_token_vesting.State.Header.{Pubkey}
use rebuild_token_vesting.Instruction.{
  Seeds, VestingInstruction, init, create, unlock, change_destination, empty,
}
use rebuild_token_vesting.Instruction.Builders
use rebuild_token_vesting.Runtime.Calls
use rebuild_token_vesting.Fuzz.Outside.{Outside, KeypairBytes, TokenInstructions}
use rebuild_token_vesting.Fuzz.Keys.{get, or_insert_with-Has}
use rebuild_token_vesting.Fuzz.Harness.{
  FuzzInstruction, TokenVestingEnv, used_schedules, slice_to, assign_at, clone_keypair,
  mint_init_instruction, create_fuzzinstruction, run_correct, run_wrong, run_fuzz_ix,
}
use rebuild_token_vesting.Fuzz.Run.{KeyMaps, add_keys, run_with_keys, collect}

abbrev Returns : {A : Type 0} → Result ProgramError A → Type 0
Returns {A} r = (a : A) × (r ≡ ok a)

>>=-Returns :
    {A B : Type 0} (r : Result ProgramError A) (k : A → Result ProgramError B)
    → Returns r
    → ((a : A) → r ≡ ok a → Returns (k a))
    → Returns (r >>= k)
>>=-Returns r k (a, e) h = let (b, e') = h a e in (b, ap (λ x. x >>= k) e ∙ e')

unwrap_result-Returns :
    {A : Type 0} (r : Result ProgramError A) → Returns r → Returns (unwrap_result r)
unwrap_result-Returns r (a, e) = (a, ap unwrap_result e)

pub slice_to-ok : {A : Type 0} (s : List A) (n : ℕ) → n ≤ length s → slice_to s n ≡ ok (take n s)
unfolding slice_to
slice_to-ok s n h = rw (le→leb n (length s) h)

-- The slice of the schedules is never out of range.
pub used_schedules_le : (n len : ℕ) → (used_schedules n len ≤ n) × (used_schedules n len ≤ len)
unfolding used_schedules
used_schedules_le n len = (ground arith, ground arith)

-- The input's seeds have 32 bytes, and the first 31 have an address with a bump.
abbrev pub Findable : (o : Outside) → TokenVestingEnv o → FuzzInstruction → Type 0
Findable o env ix =
    (length ix.seeds ≡ 32)
    × ((found : Pubkey × ℕ) × (o.find_program_address (take 31 ix.seeds ∷ []) env.vesting_program_id
          ≡ ok found))

module _ (o : Outside) (keypairs : KeypairBytes o) (token : TokenInstructions o)
    (env : TokenVestingEnv o) where
  clone-Returns : (k : o.Keypair) → clone_keypair o k ≡ ok k
  unfolding clone_keypair
  clone-Returns k = ap unwrap_result (keypairs k)

  mint_init-Returns :
      (payer mint authority : o.Keypair) → Returns (mint_init_instruction o payer mint authority)
  unfolding mint_init_instruction
  mint_init-Returns payer mint authority =
      >>=-Returns _ _
        (unwrap_result-Returns _
          (token.mint_initialized (o.pubkey mint) (o.pubkey authority) none 0))
        (λ ix e. (_, refl))

  create-Returns :
      (ix : FuzzInstruction) (payer owner mint : o.Keypair)
      (source_token destination_token destination_owner vesting vesting_token : Pubkey)
      (seeds : Seeds) (amount : ℕ)
      → Returns (
          create_fuzzinstruction o env ix payer source_token owner destination_token
            destination_owner vesting vesting_token seeds mint amount)
  unfolding create_fuzzinstruction Builders.create
  create-Returns ix payer owner mint source_token destination_token destination_owner vesting
        vesting_token seeds amount =
      >>=-Returns _ _ (mint_init-Returns payer mint env.mint_authority_keypair) (λ mint_ixs e1.
        >>=-Returns _ _
          (unwrap_result-Returns _ (
            token.minted (o.pubkey mint) source_token (o.pubkey env.mint_authority_keypair) amount))
          (λ setup e2.
            >>=-Returns _ _
              (
                _,
                slice_to-ok ix.schedules _
                    (used_schedules_le ix.number_of_schedules (length ix.schedules)).1,
              )
              (λ ss e3. (_, refl))))

  correct-Returns :
      (ix : FuzzInstruction) (payer mint owner destination_owner : o.Keypair)
      (destination_token vesting vesting_token source_token : Pubkey) (seeds : Seeds)
      (i : VestingInstruction)
      → Returns (
          run_correct o env ix payer mint owner destination_owner destination_token vesting
            vesting_token source_token seeds i)
  unfolding run_correct Builders.init
  correct-Returns ix payer mint owner destination_owner destination_token vesting vesting_token
        source_token seeds (init s n) =
      (_, refl)
  correct-Returns ix payer mint owner destination_owner destination_token vesting vesting_token
        source_token seeds (create s m d ss) =
      >>=-Returns _ _
        (create-Returns ix payer owner mint source_token destination_token
          (o.pubkey destination_owner) vesting vesting_token seeds ix.source_token_amount)
        (λ ixs e.
          >>=-Returns _ _ (mint, clone-Returns mint)
            (λ k1 e1.
              >>=-Returns _ _ (env.mint_authority_keypair, clone-Returns env.mint_authority_keypair)
                (λ k2 e2. >>=-Returns _ _ (owner, clone-Returns owner) (λ k3 e3. (_, refl)))))
  correct-Returns ix payer mint owner destination_owner destination_token vesting vesting_token
        source_token seeds (unlock s) =
      (_, refl)
  correct-Returns ix payer mint owner destination_owner destination_token vesting vesting_token
        source_token seeds (change_destination s) =
      (_, refl)
  correct-Returns ix payer mint owner destination_owner destination_token vesting vesting_token
        source_token seeds (empty n) =
      (_, refl)

  wrong-Returns :
      (ix : FuzzInstruction) (vesting : Pubkey) (payer : o.Keypair) (i : VestingInstruction)
      → Returns (run_wrong o env ix vesting payer i)
  unfolding run_wrong Builders.init
  wrong-Returns ix vesting payer (init s n) = (_, refl)
  wrong-Returns ix vesting payer (create s m d ss) = (_, refl)
  wrong-Returns ix vesting payer (unlock s) = (_, refl)
  wrong-Returns ix vesting payer (change_destination s) = (_, refl)
  wrong-Returns ix vesting payer (empty n) = (_, refl)

  assign_at-Returns : (a : Bytes) (i b : ℕ) → i < length a → Returns (assign_at a i b)
  unfolding assign_at
  assign_at-Returns a i b h = (take i a ++ (b ∷ drop (i + 1) a), rw (lt→ltb i (length a) h))

  pub run_fuzz_ix-Returns :
      (ix : FuzzInstruction) (payer mint : o.Keypair) (vesting vesting_token : Pubkey)
      (owner destination_owner : o.Keypair) (destination_token new_token : Pubkey)
      (wrong_payer : o.Keypair)
      → Findable o env ix
      → Returns (
          run_fuzz_ix o env ix payer mint vesting vesting_token owner destination_owner
            destination_token new_token wrong_payer)
  unfolding run_fuzz_ix
  run_fuzz_ix-Returns ix payer mint vesting vesting_token owner destination_owner destination_token
        new_token wrong_payer (size, found) =
      elim (Bool-cases ix.correct_inputs) [
        | inl correct ↦ rw correct (
            rw (slice_to-ok ix.seeds 31 (omega (arith, size))) (
              >>=-Returns (o.find_program_address (take 31 ix.seeds ∷ []) env.vesting_program_id) _
                found
                (λ (k : Pubkey × ℕ) e1.
                  >>=-Returns _ _ (assign_at-Returns ix.seeds 31 k.1 (omega (arith, size)))
                    (λ seeds e2.
                      correct-Returns ix payer mint owner destination_owner destination_token k.0 _
                        _ seeds ix.instruction))))
        | inr wrong ↦ rw wrong (wrong-Returns ix vesting wrong_payer ix.instruction)
      ]

  -- Behind the `entry` calls of a round, each of its ids has a key.
  pub record HasKeys (ix : FuzzInstruction) (maps : KeyMaps o) : Type 0 where
    pub mint : (k : o.Keypair) × (get ix.mint_key maps.mint_keys ≡ some k)
    pub vesting : (k : Pubkey) × (get ix.vesting_account_key maps.vesting_account_keys ≡ some k)
    pub vesting_token :
        (k : Pubkey) × (get ix.vesting_token_account_key maps.vesting_token_account_keys ≡ some k)
    pub owner :
        (k : o.Keypair) × (get ix.source_token_account_owner_key
            maps.source_token_account_owner_keys
          ≡ some k)
    pub destination_owner :
        (k : o.Keypair) × (get ix.destination_token_owner_key maps.destination_token_owner_keys
          ≡ some k)
    pub destination_token :
        (k : Pubkey) × (get ix.destination_token_key maps.destination_token_keys ≡ some k)
    pub new_token :
        (k : Pubkey) × (get ix.new_destination_token_key maps.new_destination_token_keys ≡ some k)
    pub payer : (k : o.Keypair) × (get ix.payer_key maps.payer_keys ≡ some k)

  add_keys-HasKeys : (ix : FuzzInstruction) (maps : KeyMaps o) → HasKeys ix (add_keys o ix maps)
  unfolding add_keys
  add_keys-HasKeys ix maps = record {
    mint = or_insert_with-Has o.new_keypair ix.mint_key maps.mint_keys _;
    vesting = or_insert_with-Has o.new_unique ix.vesting_account_key maps.vesting_account_keys _;
    vesting_token =
        or_insert_with-Has o.new_unique ix.vesting_token_account_key maps.vesting_token_account_keys
          _;
    owner =
        or_insert_with-Has o.new_keypair ix.source_token_account_owner_key
          maps.source_token_account_owner_keys _;
    destination_owner =
        or_insert_with-Has o.new_keypair ix.destination_token_owner_key
          maps.destination_token_owner_keys _;
    destination_token =
        or_insert_with-Has o.new_unique ix.destination_token_key maps.destination_token_keys _;
    new_token =
        or_insert_with-Has o.new_unique ix.new_destination_token_key maps.new_destination_token_keys
          _;
    payer = or_insert_with-Has o.new_keypair ix.payer_key maps.payer_keys _;
  }

  run_with_keys-Returns :
      (correct_payer : o.Keypair) (ix : FuzzInstruction) (maps : KeyMaps o)
      → Findable o env ix
      → HasKeys ix maps
      → Returns (run_with_keys o env correct_payer ix maps)
  unfolding run_with_keys
  run_with_keys-Returns correct_payer ix maps size h =
      rw
        (
          h.mint.1, h.vesting.1, h.vesting_token.1, h.owner.1, h.destination_owner.1,
          h.destination_token.1, h.new_token.1, h.payer.1,
        )
        (run_fuzz_ix-Returns ix correct_payer h.mint.0 h.vesting.0 h.vesting_token.0 h.owner.0
          h.destination_owner.0 h.destination_token.0 h.new_token.0 h.payer.0 size)

  pub collect-Returns :
      (correct_payer : o.Keypair) (ixs : List FuzzInstruction) (maps : KeyMaps o)
      (output_ixs : List Calls.Instruction) (signer_keys : List o.Keypair)
      → All (Findable o env) ixs
      → (found : List Calls.Instruction × List o.Keypair) × (collect o env correct_payer ixs maps
            output_ixs signer_keys
          ≡ ok found)
  unfolding collect
  collect-Returns correct_payer [] maps output_ixs signer_keys sizes = (_, refl)
  collect-Returns correct_payer (ix ∷ rest) maps output_ixs signer_keys (size, sizes) =
      >>=-Returns _ _
        (run_with_keys-Returns correct_payer ix (add_keys o ix maps) size
          (add_keys-HasKeys ix maps))
        (λ (made : List Calls.Instruction × List o.Keypair) e.
          collect-Returns correct_payer rest (add_keys o ix maps) (output_ixs ++ made.0)
            (signer_keys ++ made.1) sizes)
