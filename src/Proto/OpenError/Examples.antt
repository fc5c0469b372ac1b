-- ===== src/Proto/OpenError/Examples.antt =====
-- The codes of src/proto/frame.rs.
use newppp.Prelude.{[], ◌≡◌, refl}
use newppp.Proto.OpenError.{denied, code_to_open_error}

empty_is_denied : code_to_open_error [] ≡ denied
unfolding code_to_open_error
empty_is_denied = refl
