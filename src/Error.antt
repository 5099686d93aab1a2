-- ===== src/Error.antt =====
-- rs/src/error.rs: the program's own errors and their conversion to the SDK's `ProgramError`.
use rebuild_token_vesting.Base.{ℕ}

pub data VestingError : Type 0 where
  invalid_instruction some_other : VestingError

-- The SDK's errors: those that the program returns by name, those that the documents of the SDK
-- functions it calls name, and `external` for all that other programs and the runtime return.
pub data ProgramError : Type 0 where
  custom : ℕ → ProgramError
  invalid_argument invalid_instruction_data invalid_account_data : ProgramError
  insufficient_funds missing_required_signature : ProgramError
  not_enough_account_keys uninitialized_account : ProgramError
  external : ℕ → ProgramError

-- `e as u32`, the variant's number.
as_u32 : VestingError → ℕ
as_u32 invalid_instruction = 0
as_u32 some_other = 1

-- `impl From<VestingError> for ProgramError`
unfoldable pub from : VestingError → ProgramError
unfolding as_u32
from e = custom (as_u32 e)
