-- ===== src/Base/Results.antt =====
-- Python's exceptions as values: a call returns a value or raises.

-- The classes that the modelled code raises or catches. `stuck` is no Python exception: a loop of
-- the model ran out of fuel.
pub data Exception : Type 0 where
  value_error connection_error socket_timeout socket_error struct_error : Exception
  overflow_error zero_division_error struct_parser_error key_error stuck : Exception
  file_not_found permission_error unicode_error index_error binascii_error : Exception
  runtime_error called_process_error unbound_local_error : Exception

pub data Result {ℓ} (A : Type ℓ) : Type ℓ where
  ok : A → Result A
  raise : Exception → Result A

-- The statement after `m` runs on its value, unless `m` raises.
module _ {ℓ κ} {A : Type ℓ} {B : Type κ} where
  infixl 5 ◌>>=◌
  abbrev pub ◌>>=◌ : Result A → (A → Result B) → Result B
  raise problem >>= next = raise problem
  ok value >>= next = next value
