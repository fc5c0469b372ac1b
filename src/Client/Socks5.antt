-- ===== src/Client/Socks5.antt =====
-- src/client/socks5.rs: what `handle` makes of the bytes of a local client, up to the command. The input
-- is all that the client sends; `read_exact` takes its bytes off the front, or fails at the end. How an
-- IP address is printed is the standard library's: `show_v4` and `show_v6` are parameters, and so is the
-- test for UTF-8.
use newppp.Prelude.{
  ℕ, ◌≡◌, Bool, true, false, not, ltb, ◌==◌, ◌&&◌, if◌then◌else◌, List, [], ◌∷◌, ◌++◌, Option, none,
  some, length, take, drop,
}
use newppp.Prelude.Bytes.{from_be}
use newppp.Prelude.Options.{◌>>=◌}
use newppp.Prelude.Text.{contains}
use newppp.Proto.Auth.{difference}
pub mod Login
mod Examples

-- `constant_time_eq` of src/client/mod.rs.
unfoldable pub constant_time_eq : List ℕ → List ℕ → Bool
constant_time_eq a b = if not (length a == length b) then false else difference 0 a b == 0

unfoldable pub read_exact : ℕ → List ℕ → Option (List ℕ × List ℕ)
read_exact n s = if ltb (length s) n then none else some (take n s, drop n s)

-- One byte.
unfoldable pub read_byte : List ℕ → Option (ℕ × List ℕ)
read_byte [] = none
read_byte (b ∷ s) = some (b, s)

-- A byte with a length, and so many bytes.
unfoldable pub read_sized : List ℕ → Option (List ℕ × List ℕ)
read_sized s = do l ← read_byte s; read_exact l.0 l.1

-- The commands that are carried out, with the target.
pub data Command : Type 0 where
  connect_cmd : List ℕ → ℕ → Command
  udp_cmd : List ℕ → ℕ → Command

abbrev pub method_reply : ℕ → List ℕ
method_reply m = 5 ∷ m ∷ []

-- `reply`.
abbrev pub reply : ℕ → List ℕ
reply code = 5 ∷ code ∷ 0 ∷ 1 ∷ 0 ∷ 0 ∷ 0 ∷ 0 ∷ 0 ∷ 0 ∷ []

abbrev pub credentials_reply : Bool → List ℕ
credentials_reply good = 1 ∷ (if good then 0 else 1) ∷ []

module _ (utf8 : List ℕ → Bool) where
  -- `String::from_utf8`.
  abbrev pub checked : List ℕ × List ℕ → Option (List ℕ × List ℕ)
  checked (b, s) = if utf8 b then some (b, s) else none

  unfoldable pub read_rfc1929 : List ℕ → Option ((List ℕ × List ℕ) × List ℕ)
  read_rfc1929 s = do
    ver ← read_byte s
    u ← (if ver.0 == 1 then read_sized ver.1 else none)
    p ← read_sized u.1
    user ← checked (u.0, p.1)
    pass ← checked (p.0, p.1)
    some ((user.0, pass.0), p.1)

  module _ (show_v4 show_v6 : List ℕ → List ℕ) where
    -- The host, by the type of the address.
    unfoldable pub read_host : ℕ → List ℕ → Option (List ℕ × List ℕ)
    read_host atyp s =
        if atyp == 1
        then (read_exact 4 s >>= λ b. some (show_v4 b.0, b.1))
        else if atyp == 3
        then (read_sized s >>= checked)
        else if atyp == 4
        then (read_exact 16 s >>= λ b. some (show_v6 b.0, b.1))
        else none

    unfoldable pub read_target : List ℕ → Option ((List ℕ × ℕ) × List ℕ)
    read_target s = do
      atyp ← read_byte s
      host ← read_host atyp.0 atyp.1
      port ← read_exact 2 host.1
      some ((host.0, from_be port.0), port.1)

    -- What is written, and the input behind the request where the command is carried out.
    abbrev by_cmd : ℕ → (List ℕ × ℕ) × List ℕ → List ℕ × Option (Command × List ℕ)
    by_cmd cmd ((host, port), s) =
        if cmd == 1
        then ([], some (connect_cmd host port, s))
        else if cmd == 3
        then ([], some (udp_cmd host port, s))
        else (reply 7, none)

    abbrev targeted : ℕ → Option ((List ℕ × ℕ) × List ℕ) → List ℕ × Option (Command × List ℕ)
    targeted cmd none = ([], none)
    targeted cmd (some t) = by_cmd cmd t

    unfoldable pub request : List ℕ → List ℕ × Option (Command × List ℕ)
    request (ver ∷ cmd ∷ rsv ∷ s) =
        if not (ver == 5) then ([], none) else targeted cmd (read_target s)
    request _ = ([], none)

    -- The credentials, compared with those that are asked for.
    abbrev matches : List ℕ × List ℕ → List ℕ × List ℕ → Bool
    matches (u, p) (user, pass) = constant_time_eq u user && constant_time_eq p pass

    unfoldable pub logged_in :
        List ℕ × List ℕ → Option ((List ℕ × List ℕ) × List ℕ) → List ℕ × Option (Command × List ℕ)
    logged_in asked none = (method_reply 2, none)
    logged_in asked (some (given, s)) =
        let (written, answer) = request s in
        if matches given asked
        then (method_reply 2 ++ (credentials_reply true ++ written), answer)
        else (method_reply 2 ++ credentials_reply false, none)

    unfoldable pub negotiated :
        Option (List ℕ × List ℕ) → List ℕ × List ℕ → List ℕ × Option (Command × List ℕ)
    negotiated none (methods, s) =
        let (written, answer) = request s in
        if contains 0 methods then (method_reply 0 ++ written, answer) else (method_reply 255, none)
    negotiated (some asked) (methods, s) =
        if not (contains 2 methods)
        then (method_reply 255, none)
        else logged_in asked (read_rfc1929 s)

    abbrev pub greeted :
        Option (List ℕ × List ℕ) → Option (List ℕ × List ℕ) → List ℕ × Option (Command × List ℕ)
    greeted auth none = ([], none)
    greeted auth (some offer) = negotiated auth offer

    -- All that is written, and the command with the input behind it.
    unfoldable pub handle : Option (List ℕ × List ℕ) → List ℕ → List ℕ × Option (Command × List ℕ)
    handle auth (ver ∷ count ∷ s) =
        if not (ver == 5) then ([], none) else greeted auth (read_exact count s)
    handle auth _ = ([], none)
