-- ===== src/Config/Fields/Bounds.antt =====
-- src/config.rs: what holds of an option that was accepted.
use newppp.Prelude.{
  ℕ, ◌*◌, ◌≤◌, ◌≡◌, inl, inr, true, not, ◌==◌, List, [], ◌∷◌, Option, Option-cases, none, some,
  length, arith,
}
use newppp.Prelude.Text.{trim, split_once}
use newppp.Proto.Error.{ok, ensure_then, bad_user_id, empty_password, bad_fingerprint_length}
use newppp.Proto.Hex.{unhex, length-unhex}
use newppp.Config.Fields.{
  is_empty, valid_uid, parse_auth, recv_window_bytes, max_frame_bytes, without_colons,
  parse_fingerprint, split_auth, digits,
}
use newppp.Handshake.Limits.{IsLimit}

pub not_empty : (s : List ℕ) → not (is_empty s) ≡ true → 1 ≤ length s
not_empty [] h = absurd (cc h)
not_empty (c ∷ s) h = omega arith

-- A user id of 1 to 32 characters and a password.
abbrev pub IsUser : List ℕ × List ℕ → Type 0
IsUser user = (valid_uid user.0 ≡ true) × (1 ≤ length user.1)

split_auth-IsUser :
    (s : Option (List ℕ × List ℕ)) (user : List ℕ × List ℕ) → split_auth s ≡ ok user → IsUser user
split_auth-IsUser none user e = cc
split_auth-IsUser (some (u, p)) user e =
    let (named, e1) = ensure_then (valid_uid (trim u)) bad_user_id _ e in
    let (filled, e2) = ensure_then (not (is_empty p)) empty_password _ e1 in
    let same : (trim u, p) ≡ user = cc e2 in rw (← same) (named, not_empty p filled)

pub parse_auth-IsUser :
    (raw : List ℕ) (user : List ℕ × List ℕ) → parse_auth raw ≡ ok user → IsUser user
unfolding parse_auth
parse_auth-IsUser raw user e = split_auth-IsUser (split_once b':' raw) user e

pub recv_window_bytes-bounds :
    (mb n : ℕ) → recv_window_bytes mb ≡ ok n → (1 ≤ mb) × (mb ≤ 64) × (n ≡ mb * 1024 * 1024)
unfolding recv_window_bytes
recv_window_bytes-bounds mb n e = ground arith

pub max_frame_bytes-IsLimit : (kb n : ℕ) → max_frame_bytes kb ≡ ok n → (n ≡ kb * 1024) × IsLimit n
unfolding max_frame_bytes
max_frame_bytes-IsLimit kb n e = ground arith

pub parse_fingerprint-length : (raw fp : List ℕ) → parse_fingerprint raw ≡ ok fp → length fp ≡ 32
unfolding parse_fingerprint digits
parse_fingerprint-length raw fp e =
    let (long, e1) = ensure_then (length (without_colons raw) == 64) bad_fingerprint_length _ e in
    elim (Option-cases (unhex (without_colons raw))) [
      | inl bad ↦ absurd (ground arith)
      | inr (b, good) ↦
          let same : ok b ≡ ok fp = rw good at e1 in
          let bytes : b ≡ fp = cc same in ground (arith, length-unhex (without_colons raw) b good)
    ]
