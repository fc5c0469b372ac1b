-- ===== src/Config/Fields.antt =====
-- src/config.rs: how the single options are read.
use newppp.Prelude.{
  ℕ, ◌+◌, ◌*◌, ◌/◌, ◌%◌, ◌^◌, ◌≤◌, ◌<◌, ◌≡◌, Bool, true, false, not, leb, ltb, ◌==◌, ◌&&◌, ◌||◌,
  if◌then◌else◌, List, [], ◌∷◌, Option, none, some, length, bytes_eq,
}
use newppp.Prelude.Text.{text, trim, split_once, starts_with}
use newppp.Proto.Error.{
  Result, ok, err, ensure, ◌>>◌, ◌>>=◌, bad_credentials, bad_user_id, empty_password,
  bad_inbound_user, bad_inbound_password, bad_recv_window, bad_max_frame, bad_fingerprint_length,
  bad_fingerprint_digit,
}
use newppp.Proto.Hex.{unhex}
use newppp.Proto.Frame.{max_plaintext_cap}
pub mod Bounds

-- `is_empty`, for texts and lists.
abbrev pub is_empty {ℓ} : {A : Type ℓ} → List A → Bool
is_empty [] = true
is_empty (x ∷ xs) = false

abbrev pub alphanumeric : ℕ → Bool
alphanumeric c =
    (leb b'0' c && leb c b'9') || (leb b'A' c && leb c b'Z') || (leb b'a' c && leb c b'z')

unfoldable pub every : (ℕ → Bool) → List ℕ → Bool
every p [] = true
every p (c ∷ s) = p c && every p s

abbrev pub uid_char : ℕ → Bool
uid_char c = alphanumeric c || (c == b'_') || (c == b'-')

abbrev pub valid_uid : List ℕ → Bool
valid_uid uid = not (is_empty uid) && leb (length uid) 32 && every uid_char uid

abbrev pub split_auth : Option (List ℕ × List ℕ) → Result (List ℕ × List ℕ)
split_auth none = err bad_credentials
split_auth (some (u, p)) =
    ensure (valid_uid (trim u)) bad_user_id
    >> (ensure (not (is_empty p)) empty_password >> ok (trim u, p))

unfoldable pub parse_auth : List ℕ → Result (List ℕ × List ℕ)
parse_auth raw = split_auth (split_once b':' raw)

abbrev byte_long : List ℕ → Bool
byte_long s = not (is_empty s) && leb (length s) 255

abbrev pub split_inbound : Option (List ℕ × List ℕ) → Result (List ℕ × List ℕ)
split_inbound none = err bad_credentials
split_inbound (some (u, p)) =
    ensure (byte_long u) bad_inbound_user
    >> (ensure (byte_long p) bad_inbound_password >> ok (u, p))

unfoldable pub parse_inbound_auth : List ℕ → Result (List ℕ × List ℕ)
parse_inbound_auth raw = split_inbound (split_once b':' raw)

unfoldable pub normalize_path : List ℕ → List ℕ
normalize_path p =
    let q = trim p in
    if is_empty q || bytes_eq q (text "/")
    then text "/api/ppp"
    else if starts_with (text "/") q
    then q
    else b'/' ∷ q

-- `mb as u32 * 1024 * 1024`.
unfoldable pub recv_window_bytes : ℕ → Result ℕ
recv_window_bytes mb =
    ensure (leb 1 mb && leb mb 64) bad_recv_window >> ok ((mb % 2 ^ 32 * 1024 * 1024) % 2 ^ 32)

unfoldable pub max_frame_bytes : ℕ → Result ℕ
max_frame_bytes kb =
    ensure (leb 16 kb && leb kb (max_plaintext_cap / 1024)) bad_max_frame >> ok (kb * 1024)

unfoldable pub without_colons : List ℕ → List ℕ
without_colons [] = []
without_colons (c ∷ s) = if c == b':' then without_colons s else c ∷ without_colons s

-- The digits are read pair by pair, as in `unhex` of src/proto/crypto.rs.
unfoldable pub digits : Option (List ℕ) → Result (List ℕ)
digits none = err bad_fingerprint_digit
digits (some b) = ok b

unfoldable pub parse_fingerprint : List ℕ → Result (List ℕ)
unfolding digits
parse_fingerprint raw =
    ensure (length (without_colons raw) == 64) bad_fingerprint_length
    >> digits (unhex (without_colons raw))
