-- ===== src/Base/Ends.antt =====
-- How a call ends, and boost_asio/throw_error.hpp.
use Prim.Native.Nat.{ℕ}
use mathlib.Core.Bool.{Bool}
use boost_asio.Base.Tests.{if◌then◌else◌}

-- How a call ends: with a value, with an exception that holds an error code, or with undefined
-- behaviour.
pub data Ends {ℓ} (A : Type ℓ) : Type ℓ where
  returns : A → Ends A
  throws : ℕ → Ends A
  undefined : Ends A

-- `throw_error(flag, ec)` before the rest of a function
unfoldable pub throw_error {ℓ} : {A : Type ℓ} → Bool → ℕ → Ends A → Ends A
throw_error flag ec rest = if flag then throws ec else rest
