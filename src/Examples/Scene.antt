-- ===== src/Examples/Scene.antt =====
-- The accounts of an example: Alice funds a contract of two schedules for Bob.
use rebuild_token_vesting.Base.{
  ℕ, zero, suc, ◌<◌, ◌≡◌, ◌≢◌, refl, ap, Bool, true, false, none, some, List, [], ◌∷◌, length, All,
  get_elem?, if◌then◌else◌, ◌==◌, arith,
}
use rebuild_token_vesting.Base.Bytes.{Bytes, IsByte}
use rebuild_token_vesting.State.Header.{Pubkey, IsPubkey}
use rebuild_token_vesting.Contract.{Contract, IsContract, encode, locked}
use rebuild_token_vesting.Instruction
use rebuild_token_vesting.Instruction.{Seeds}
use rebuild_token_vesting.Instruction.Wire.{IsScheduleArg}
use rebuild_token_vesting.Runtime.Action.{Cell, World, AccountInfo}
use rebuild_token_vesting.Processor.Create.Fill.{contract_of}
use rebuild_token_vesting.Examples.Chain.{token_bytes, repeated, key_of, token_program}

pub length-repeated : (n b : ℕ) → length (repeated n b) ≡ n
length-repeated zero b = refl
length-repeated (suc n) b = ap suc (length-repeated n b)

pub repeated-IsByte : (n b : ℕ) → b < 256 → All IsByte (repeated n b)
repeated-IsByte zero b h = tt
repeated-IsByte (suc n) b h = (h, repeated-IsByte n b h)

pub key_of-IsPubkey : (b : ℕ) → b < 256 → IsPubkey (key_of b)
key_of-IsPubkey b h = record { size = refl; bytes = repeated-IsByte 32 b h }

abbrev pub entry : ℕ → Bool → AccountInfo
entry b signed = record { key = key_of b; is_signer = signed; is_writable = true }

abbrev pub program : Pubkey
program = key_of 1

abbrev pub vesting_seeds : Seeds
vesting_seeds = key_of 2

abbrev pub vesting_account : AccountInfo
vesting_account = entry 2 false

abbrev pub vesting_tokens : AccountInfo
vesting_tokens = entry 3 false

abbrev pub alice : AccountInfo
alice = entry 4 true

abbrev pub alice_tokens : AccountInfo
alice_tokens = entry 5 false

abbrev pub bob_tokens : AccountInfo
bob_tokens = entry 6 false

abbrev pub bob : AccountInfo
bob = entry 7 true

abbrev pub new_tokens : AccountInfo
new_tokens = entry 8 false

abbrev pub spl_program : AccountInfo
spl_program = entry 9 false

abbrev pub clock_sysvar : AccountInfo
clock_sysvar = entry 10 false

abbrev pub mint_address : Pubkey
mint_address = key_of 11

abbrev pub schedule_args : List Instruction.Schedule
schedule_args =
    record { release_time = 5; amount = 100 } ∷ record { release_time = 50; amount = 60 } ∷ []

abbrev pub bobs_contract : Contract
bobs_contract = contract_of mint_address bob_tokens.key schedule_args

-- The accounts by the first byte of their key, at a time, with the amount of tokens and the
-- data of the vesting account.
abbrev cell_at : ℕ → ℕ → Bytes → ℕ → Cell
cell_at time funds vesting b =
    if b == 2
    then record { owner = program; bytes = vesting }
    else (if b == 3
        then record { owner = token_program; bytes = token_bytes funds 2 }
        else (if b == 5
            then record { owner = token_program; bytes = token_bytes 200 4 }
            else (if b == 6
                then record { owner = token_program; bytes = token_bytes 0 7 }
                else (if b == 8
                    then record { owner = token_program; bytes = token_bytes 0 7 }
                    else record { owner = key_of 0; bytes = time ∷ [] }))))

abbrev pub scene : ℕ → ℕ → Bytes → World
scene time funds vesting = record {
  accounts = λ k. elim (get_elem? k 0) [
    | none ↦ record { owner = key_of 0; bytes = [] }
    | some b ↦ cell_at time funds vesting b
  ];
  borrowed = none;
}

-- Before the creation, and with the contract in the account.
abbrev pub blank : World
blank = scene 10 0 (repeated 97 0)

abbrev pub held : ℕ → World
held time = scene time 160 (encode bobs_contract)

pub args-IsScheduleArg : All IsScheduleArg schedule_args
args-IsScheduleArg = (
  record { release_time_u64 = omega arith; amount_u64 = omega arith },
  (record { release_time_u64 = omega arith; amount_u64 = omega arith }, tt),
)

pub bobs_contract-IsContract : IsContract bobs_contract
unfolding locked
bobs_contract-IsContract = record {
  destination_key = key_of-IsPubkey 6 (omega arith);
  mint_key = key_of-IsPubkey 11 (omega arith);
  schedules_valid = (
    record { release_time_u64 = omega arith; amount_u64 = omega arith },
    (record { release_time_u64 = omega arith; amount_u64 = omega arith }, tt),
  );
  total_u64 = omega arith;
}

pub other_keys : (a b : ℕ) → a ≢ b → key_of a ≢ key_of b
other_keys a b h e = h (first e)
  where
    first : {x y : ℕ} {xs ys : Bytes} → x ∷ xs ≡ y ∷ ys → x ≡ y
    first q = cc
