-- ===== src/Proto/Error.antt =====
-- What fallible code answers: a value, or an `anyhow` error with one constructor for each message.
use mathlib.Core.Path.{◌≡◌, refl}
use newppp.Prelude.{Bool, true, false}

pub data Error : Type 0 where
  -- src/proto/addr.rs
  read_past_end reserved_not_zero fragmented bad_address_type bad_utf8 : Error
  -- src/proto/crypto.rs
  ciphertext_too_short seal_failed open_failed auth_truncated : Error
  -- src/proto/frame.rs
  bad_version bad_frame_type invalid_length payload_too_large replayed : Error
  truncated_at_eof read_failed open_truncated open_host_invalid : Error
  -- src/config.rs, the options
  bad_credentials bad_user_id empty_password bad_inbound_user bad_inbound_password : Error
  bad_recv_window bad_max_frame bad_fingerprint_length bad_fingerprint_digit : Error
  bad_mode auth_missing no_server bad_conns pin_and_skip_verify : Error
  bad_sni_length bad_sni_dots bad_sni_characters sni_with_wss sni_unpinned : Error
  no_listener cert_not_found key_not_found no_certificate : Error
  -- src/config.rs, the configuration file
  bad_key unknown_option mode_without_value bad_mode_value switch_with_value value_missing : Error
  config_without_path config_twice : Error
  -- src/clock.rs
  bad_scheme bad_port empty_host : Error
  -- src/client/http_proxy.rs
  empty_target bad_ipv6_target bad_request_line missing_method missing_target missing_version :
      Error
  closed_early head_too_large only_http auth_required : Error

-- `Result<A>`.
pub data Result {ℓ} (A : Type ℓ) : Type ℓ where
  err : Error → Result A
  ok : A → Result A

-- `?`, with the rest of the function behind it.
infixl 5 ◌>>=◌ ◌>>◌
abbrev pub ◌>>=◌ {ℓ κ} : {A : Type ℓ} {B : Type κ} (m : Result A) (rest : A → Result B) → Result B
err stop >>= rest = err stop
ok found >>= rest = rest found

abbrev pub ◌>>◌ {ℓ} : {B : Type ℓ} (check : Result (Unit {0})) (rest : Result B) → Result B
err stop >> rest = err stop
ok passed >> rest = rest

-- `ensure!`.
abbrev pub ensure : Bool → Error → Result (Unit {0})
ensure false message = err message
ensure true message = ok tt

-- Where `?` went through, there was a value.
pub >>=-eq-ok {ℓ κ} :
    {B : Type κ} {A : Type ℓ} (m : Result A) (rest : A → Result B) {answer : B}
    → (m >>= rest) ≡ ok answer
    → (found : A) × (m ≡ ok found) × (rest found ≡ ok answer)
>>=-eq-ok (err stop) rest e = cc
>>=-eq-ok (ok found) rest e = (found, refl, e)

-- Where a check let the code go on, its test held.
pub ensure-ok : (b : Bool) (e : Error) {u : Unit {0}} → ensure b e ≡ ok u → b ≡ true
ensure-ok true e h = refl
ensure-ok false e h = absurd (cc h)

pub ensure_then {ℓ} :
    {B : Type ℓ} (b : Bool) (e : Error) (rest : Result B) {answer : B}
    → (ensure b e >> rest) ≡ ok answer
    → (b ≡ true) × (rest ≡ ok answer)
ensure_then true e rest h = (refl, h)
ensure_then false e rest h = cc

pub ok-eq {ℓ} : {A : Type ℓ} {a b : A} → ok a ≡ ok b → a ≡ b
ok-eq e = cc e
