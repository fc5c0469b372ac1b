-- ===== src/Proto/Frame/Examples.antt =====
-- Headers and OPEN payloads, as in the tests of src/proto/frame.rs.
use newppp.Prelude.{ℕ, ◌≡◌, refl, Bool, true, List, [], ◌∷◌, arith}
use newppp.Prelude.Bytes.{from_le}
use newppp.Proto.Error.{ok, err, bad_version}
use newppp.Proto.Frame.{parse_header, decode_open}
use newppp.Proto.Frame.Header.{parse_header_version}

abbrev any_utf8 : List ℕ → Bool
any_utf8 b = true

abbrev host : List ℕ
host = b'a' ∷ b'.' ∷ b'd' ∷ b'e' ∷ []

abbrev padded : List ℕ
padded = 4 ∷ 0 ∷ b'a' ∷ b'.' ∷ b'd' ∷ b'e' ∷ 187 ∷ 1 ∷ 77 ∷ 77 ∷ []

decodes_padded : decode_open any_utf8 padded ≡ ok (host, 443)
unfolding decode_open from_le
decodes_padded = refl

parse_header_version_example : parse_header (1 ∷ 8 ∷ []) ≡ err bad_version
parse_header_version_example = parse_header_version 1 (8 ∷ []) (λ e. omega (arith, e))
