-- ===== src/State/Header.antt =====
-- rs/src/state.rs: `VestingScheduleHeader` and its `Pack`.
use rebuild_token_vesting.Base.{
  ℕ, ◌≡◌, Bool, true, false, ◌∷◌, ◌++◌, length, take, drop, ltb, if◌then◌else◌, ◌==◌, All, Result,
  ok, err, panic, index_at, ◌>>=◌,
}
use rebuild_token_vesting.Base.Bytes.{Bytes, IsByte}
use rebuild_token_vesting.Error.{ProgramError, invalid_account_data}

-- A `Pubkey` is an array of 32 bytes.
abbrev pub Pubkey : Type 0
Pubkey = Bytes

pub record IsPubkey (k : Pubkey) : Type 0 where
  pub size : length k ≡ 32
  pub bytes : All IsByte k

pub record VestingScheduleHeader : Type 0 where
  pub destination_address : Pubkey
  pub mint_address : Pubkey
  pub is_initialized : Bool

pub record IsHeader (h : VestingScheduleHeader) : Type 0 where
  pub destination_key : IsPubkey h.destination_address
  pub mint_key : IsPubkey h.mint_address

-- `VestingScheduleHeader::LEN`
abbrev pub len : ℕ
len = 65

-- `IsInitialized::is_initialized`
abbrev pub is_initialized : VestingScheduleHeader → Bool
is_initialized h = h.is_initialized

-- `b as u8`
abbrev pub bool_as_u8 : Bool → ℕ
bool_as_u8 true = 1
bool_as_u8 false = 0

unfoldable pub pack_into_slice : VestingScheduleHeader → Bytes → Result ProgramError Bytes
pack_into_slice h dst =
    if ltb (length dst) len
    then panic
    else ok
        (h.destination_address ++ (h.mint_address ++ (bool_as_u8 h.is_initialized ∷ drop len dst)))

-- The match on the last byte of the header.
unfoldable pub unpack_flag : ℕ → Result ProgramError Bool
unpack_flag b = if b == 0 then ok false else (if b == 1 then ok true else err invalid_account_data)

unfoldable pub unpack_from_slice : Bytes → Result ProgramError VestingScheduleHeader
unfolding unpack_flag index_at
unpack_from_slice src =
    if ltb (length src) 65
    then err invalid_account_data
    else (let array = take len src in
        do
          flag ← unpack_flag (← index_at array 64)
          ok (record {
            destination_address = take 32 array;
            mint_address = take 32 (drop 32 array);
            is_initialized = flag;
          }))
