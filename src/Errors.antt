-- ===== src/Errors.antt =====
-- exception.py and the exceptions of Python that the modelled code raises, and functions that may
-- raise. A message is left out; the data that a handler reads is kept.
use mathlib.Core.Bool.{Bool, true, false}

pub data Exception : Type 0 where
  usage_error input_data_error already_locked internal_error : Exception
  configuration_error scrubbing_error invalid_block_exception block_not_found_error : Exception
  key_error value_error runtime_error permission_error : Exception
  file_not_found_error file_exists_error os_error : Exception
  assertion_error integrity_error zero_division_error eof_error : Exception
  unicode_decode_error aborted_negotiation_error : Exception

pub data Result {ℓ} (A : Type ℓ) : Type ℓ where
  err : Exception → Result A
  ok : A → Result A

-- go on with the value, or raise what was raised
infixl 5 ◌>>=◌
abbrev pub ◌>>=◌ {ℓ κ} : {A : Type ℓ} {B : Type κ} (m : Result A) (f : A → Result B) → Result B
err e >>= f = err e
ok a >>= f = f a

infixl 5 ◌>>◌
abbrev pub ◌>>◌ {κ} : {B : Type κ} (m : Result (Unit {0})) (next : Result B) → Result B
m >> next = m >>= λ u. next

-- `if not b: raise e`
abbrev pub require : Bool → Exception → Result (Unit {0})
require false e = err e
require true e = ok tt

abbrev pub is_ok {ℓ} : {A : Type ℓ} → Result A → Bool
is_ok (ok a) = true
is_ok (err e) = false

-- `except …: raise …`: an exception that passes the test is replaced
abbrev pub wrap {ℓ} : {A : Type ℓ} → (Exception → Bool) → Exception → Result A → Result A
wrap caught other (ok a) = ok a
wrap caught other (err e) = err (elim (caught e) [ true ↦ other | false ↦ e ])

abbrev pub is_file_not_found : Exception → Bool
is_file_not_found file_not_found_error = true
is_file_not_found _ = false

-- except (KeyError, ValueError)
abbrev pub is_key_or_value_error : Exception → Bool
is_key_or_value_error key_error = true
is_key_or_value_error value_error = true
is_key_or_value_error _ = false

-- asyncio.IncompleteReadError, and IOError with its subclasses
abbrev pub is_io_error : Exception → Bool
is_io_error eof_error = true
is_io_error os_error = true
is_io_error aborted_negotiation_error = true
is_io_error scrubbing_error = true
is_io_error invalid_block_exception = true
is_io_error block_not_found_error = true
is_io_error permission_error = true
is_io_error file_not_found_error = true
is_io_error file_exists_error = true
is_io_error _ = false
