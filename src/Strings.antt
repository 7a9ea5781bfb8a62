-- ===== src/Strings.antt =====
-- deps/common/utilities/string_utils.h and string_utils.cpp. A text is the list of its bytes.
pub mod Trim
pub mod Case
pub mod Split
pub mod Number
pub mod Tests
use moban.Prelude.{ℕ, Bool, Bytes, Option, none, some}

-- What the functions throw, with the message.
pub data Error : Type 0 where
  invalid_argument : Bytes → Error
  out_of_range : Bytes → Error

pub data Result {ℓ} (A : Type ℓ) : Type ℓ where
  ok : A → Result A
  throws : Error → Result A
