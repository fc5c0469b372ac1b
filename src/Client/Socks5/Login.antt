-- ===== src/Client/Socks5/Login.antt =====
-- src/client/socks5.rs: who gets a command carried out.
use newppp.Prelude.{
  ℕ, ◌^◌, ◌<◌, ◌≡◌, refl, Bool, true, false, ltb, ◌==◌, ◌&&◌, List, [], ◌∷◌, ◌++◌, some, length,
  take, drop, arith, ==→eq, Bool-cases, Option-cases, inl, inr, take-append, drop-append,
  length-append, append_assoc,
}
use newppp.Prelude.Bytes.{to_be, from_be-to_be, length-to_be}
use newppp.Prelude.Text.{contains}
use newppp.Proto.Auth.{difference}
use newppp.Proto.Auth.Verify.{difference-zero, difference_self}
use newppp.Client.Socks5.{
  constant_time_eq, read_exact, read_byte, read_sized, Command, connect_cmd, method_reply,
  credentials_reply, read_rfc1929, read_host, read_target, request, logged_in, negotiated, greeted,
  handle,
}

pub constant_time_eq→eq : (a b : List ℕ) → constant_time_eq a b ≡ true → a ≡ b
unfolding constant_time_eq
constant_time_eq→eq a b e =
    let size : length a ≡ length b = ground arith in
    let zero_difference : difference 0 a b ≡ 0 = ground arith in
    (difference-zero 0 a b size zero_difference).1

constant_time_eq_refl : (a : List ℕ) → constant_time_eq a a ≡ true
unfolding constant_time_eq
constant_time_eq_refl a = ground (arith, difference_self a)

-- A byte string behind its length.
abbrev pub with_length : List ℕ → List ℕ
with_length b = length b ∷ b

-- A domain as the target, and the port.
abbrev pub domain_target : List ℕ → ℕ → List ℕ
domain_target host port = 3 ∷ (with_length host ++ to_be 2 port)

read_sized-with_length : (b s : List ℕ) → read_sized (with_length b ++ s) ≡ some (b, s)
unfolding read_sized read_byte read_exact
read_sized-with_length b s =
    let room : ltb (length (b ++ s)) (length b) ≡ false = ground (arith, length-append b s) in
    rw (room, take-append (length b) b s refl, drop-append (length b) b s refl) refl

read_exact-append : (n : ℕ) (b s : List ℕ) → length b ≡ n → read_exact n (b ++ s) ≡ some (b, s)
unfolding read_exact
read_exact-append n b s l =
    let room : ltb (length (b ++ s)) n ≡ false = ground (arith, length-append b s) in
    rw (room, take-append n b s l, drop-append n b s l) refl

module _ (utf8 : List ℕ → Bool) (show_v4 show_v6 : List ℕ → List ℕ) where
  read_rfc1929-with_length :
      (u p s : List ℕ)
      → utf8 u ≡ true
      → utf8 p ≡ true
      → read_rfc1929 utf8 (1 ∷ (with_length u ++ (with_length p ++ s))) ≡ some ((u, p), s)
  unfolding read_rfc1929 read_byte
  read_rfc1929-with_length u p s hu hp =
      rw (read_sized-with_length u (with_length p ++ s), read_sized-with_length p s, hu, hp) refl

  read_target-domain :
      (host : List ℕ) (port : ℕ) (s : List ℕ)
      → utf8 host ≡ true
      → port < 2 ^ 16
      → read_target utf8 show_v4 show_v6 (domain_target host port ++ s) ≡ some ((host, port), s)
  unfolding read_target read_host read_byte
  read_target-domain host port s h small =
      let port_bytes : read_exact 2 (to_be 2 port ++ s) ≡ some (to_be 2 port, s) =
        read_exact-append 2 (to_be 2 port) s (length-to_be 2 port) in
      rw
        (
          append_assoc host (to_be 2 port) s,
          read_sized-with_length host (to_be 2 port ++ s),
          h,
          port_bytes,
          from_be-to_be 2 port (omega arith),
        )
        refl

  request-domain :
      (host : List ℕ) (port : ℕ) (s : List ℕ)
      → utf8 host ≡ true
      → port < 2 ^ 16
      → request utf8 show_v4 show_v6 (5 ∷ 1 ∷ 0 ∷ (domain_target host port ++ s))
        ≡ ([], some (connect_cmd host port, s))
  unfolding request
  request-domain host port s h small = rw (read_target-domain host port s h small) refl

  -- A client that offers the username and password method, among any others, gives the credentials that
  -- are asked for and then asks for a connection to a domain gets the two replies and its connection,
  -- and the input goes on behind its request.
  pub handle-conforming :
      (methods user pass host : List ℕ) (port : ℕ) (s : List ℕ)
      → contains 2 methods ≡ true
      → utf8 user ≡ true
      → utf8 pass ≡ true
      → utf8 host ≡ true
      → port < 2 ^ 16
      → handle utf8 show_v4 show_v6 (some (user, pass)) (
          5
          ∷ (with_length methods
              ++ (1
                  ∷ (with_length user
                      ++ (with_length pass ++ (5 ∷ 1 ∷ 0 ∷ (domain_target host port ++ s)))))))
        ≡ (method_reply 2 ++ credentials_reply true, some (connect_cmd host port, s))
  unfolding handle negotiated logged_in
  handle-conforming methods user pass host port s offers hu hp hh small =
      let rest = 5 ∷ 1 ∷ 0 ∷ (domain_target host port ++ s) in
      rw
        (
          read_exact-append (length methods) methods
              (1 ∷ (with_length user ++ (with_length pass ++ rest))) refl,
          offers,
          read_rfc1929-with_length user pass rest hu hp,
          request-domain host port s hh small,
          constant_time_eq_refl user,
          constant_time_eq_refl pass,
        )
        refl

  -- What the client has sent when its command is carried out although credentials are asked for.
  pub record IsLoggedIn (user pass input : List ℕ) (answer : Command × List ℕ) : Type 0 where
    pub count : ℕ
    pub behind : List ℕ
    pub greeting : input ≡ 5 ∷ count ∷ behind
    pub offered : contains 2 (take count behind) ≡ true
    pub after : List ℕ
    pub given : read_rfc1929 utf8 (drop count behind) ≡ some ((user, pass), after)
    pub asked : (request utf8 show_v4 show_v6 after).1 ≡ some answer

  negotiated-given :
      (user pass methods s : List ℕ) (answer : Command × List ℕ)
      → (negotiated utf8 show_v4 show_v6 (some (user, pass)) (methods, s)).1 ≡ some answer
      → (contains 2 methods ≡ true)
        × ((after : List ℕ) × (read_rfc1929 utf8 s ≡ some ((user, pass), after))
            × ((request utf8 show_v4 show_v6 after).1 ≡ some answer))
  unfolding negotiated logged_in
  negotiated-given user pass methods s answer e = elim (Bool-cases (contains 2 methods)) [
    | inr none_offered ↦ absurd (cc (rw none_offered at e))
    | inl offered ↦ elim (Option-cases (read_rfc1929 utf8 s)) [
      | inl failed ↦ absurd (cc (rw (offered, failed) at e))
      | inr (((u, p), after), given) ↦
          elim (Bool-cases (constant_time_eq u user && constant_time_eq p pass)) [
            | inr wrong ↦ absurd (cc (rw (offered, given, wrong) at e))
            | inl right ↦
                let same_user = constant_time_eq→eq u user (ground arith) in
                let same_pass = constant_time_eq→eq p pass (ground arith) in
                (
                  offered,
                  (after, rw (← same_user, ← same_pass) given, rw (offered, given, right) at e),
                )
          ]
    ]
  ]

  greeting-given :
      (user pass : List ℕ) (count : ℕ) (behind : List ℕ) (answer : Command × List ℕ)
      → (greeted utf8 show_v4 show_v6 (some (user, pass)) (read_exact count behind)).1 ≡ some answer
      → IsLoggedIn user pass (5 ∷ count ∷ behind) answer
  unfolding read_exact
  greeting-given user pass count behind answer e = elim (Bool-cases (ltb (length behind) count)) [
    | inl short ↦ absurd (cc (rw short at e))
    | inr whole ↦
        let (offered, (after, given, asked)) =
          negotiated-given user pass (take count behind) (drop count behind) answer
            (rw whole at e) in
        record {
          count = count;
          behind = behind;
          greeting = refl;
          offered = offered;
          after = after;
          given = given;
          asked = asked;
        }
  ]

  -- Where credentials are asked for, a command is carried out only for a client that offered the method,
  -- and then sent exactly these credentials before its request.
  pub handle-IsLoggedIn :
      (user pass input : List ℕ) (answer : Command × List ℕ)
      → (handle utf8 show_v4 show_v6 (some (user, pass)) input).1 ≡ some answer
      → IsLoggedIn user pass input answer
  unfolding handle
  handle-IsLoggedIn user pass [] answer e = absurd (cc e)
  handle-IsLoggedIn user pass (ver ∷ []) answer e = absurd (cc e)
  handle-IsLoggedIn user pass (ver ∷ count ∷ behind) answer e = elim (Bool-cases (ver == 5)) [
    | inr other ↦ absurd (cc (rw other at e))
    | inl five ↦ rw (==→eq ver 5 five) (greeting-given user pass count behind answer (rw five at e))
  ]
