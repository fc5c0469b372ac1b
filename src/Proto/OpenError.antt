-- ===== src/Proto/OpenError.antt =====
-- `OpenError` of src/proto/mux.rs: why the server refused to open a session, and its code on the wire.
use newppp.Prelude.{ℕ, ◌==◌, if◌then◌else◌, List, [], ◌∷◌, ◌≡◌, ◌≢◌, ◌↔◌, ◌≤◌, refl, arith}
mod Examples

pub data OpenError : Type 0 where
  dial_failed limit bad_target denied : OpenError

unfoldable pub to_code : OpenError → ℕ
to_code dial_failed = 1
to_code limit = 2
to_code bad_target = 3
to_code denied = 4

unfoldable pub from_code : ℕ → OpenError
from_code c =
    if c == 1 then dial_failed else if c == 2 then limit else if c == 3 then bad_target else denied

-- `payload.first().copied().unwrap_or(0)`.
abbrev first_or_zero : List ℕ → ℕ
first_or_zero [] = 0
first_or_zero (c ∷ cs) = c

unfoldable pub code_to_open_error : List ℕ → OpenError
unfolding from_code
code_to_open_error payload = from_code (first_or_zero payload)

-- The payload of an OPEN_ERR frame, the code of the error with anything behind it, is read back as that
-- error.
pub code_to_open_error-to_code :
    (e : OpenError) (rest : List ℕ) → code_to_open_error (to_code e ∷ rest) ≡ e
unfolding code_to_open_error to_code
code_to_open_error-to_code dial_failed rest = refl
code_to_open_error-to_code _ rest = refl
