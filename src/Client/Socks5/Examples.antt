-- ===== src/Client/Socks5/Examples.antt =====
-- A SOCKS5 client at work.
use newppp.Prelude.{ℕ, ◌≡◌, refl, Bool, true, List, [], ◌∷◌, ◌++◌, none, some, arith}
use newppp.Prelude.Bytes.{from_be, be_onto}
use newppp.Prelude.Text.{text, contains}
use newppp.Proto.Auth.{difference}
use newppp.Client.Socks5.{
  constant_time_eq, read_exact, read_byte, read_sized, connect_cmd, method_reply, credentials_reply,
  reply, read_rfc1929, read_host, read_target, request, logged_in, negotiated, handle,
}
use newppp.Client.Socks5.Login.{
  with_length, domain_target, handle-conforming, IsLoggedIn, handle-IsLoggedIn,
}

abbrev any_utf8 : List ℕ → Bool
any_utf8 b = true

abbrev as_is : List ℕ → List ℕ
as_is b = b

abbrev hello : List ℕ
hello =
    5
    ∷ 1
    ∷ 2
    ∷ 1
    ∷ (with_length (text "al")
        ++ (with_length (text "pw")
            ++ (5 ∷ 1 ∷ 0 ∷ 3 ∷ (with_length (text "h.x") ++ (1 ∷ 187 ∷ b'G' ∷ [])))))

is_connected :
    handle any_utf8 as_is as_is (some (text "al", text "pw")) hello
    ≡ (method_reply 2 ++ credentials_reply true, some (connect_cmd (text "h.x") 443, text "G"))
unfolding handle negotiated logged_in read_rfc1929 read_sized read_byte read_exact request
    read_target read_host contains constant_time_eq difference from_be be_onto
is_connected = refl

handle-conforming_example :
    handle any_utf8 as_is as_is (some (text "al", text "pw")) (
      5
      ∷ (with_length (0 ∷ 2 ∷ [])
          ++ (1
              ∷ (with_length (text "al")
                  ++ (with_length (text "pw")
                      ++ (5 ∷ 1 ∷ 0 ∷ (domain_target (text "h.x") 443 ++ text "G")))))))
    ≡ (method_reply 2 ++ credentials_reply true, some (connect_cmd (text "h.x") 443, text "G"))
unfolding contains
handle-conforming_example =
    handle-conforming any_utf8 as_is as_is (0 ∷ 2 ∷ []) (text "al") (text "pw") (text "h.x") 443
      (text "G") refl refl refl refl (omega arith)

handle-IsLoggedIn_example :
    IsLoggedIn any_utf8 as_is as_is
      (text "al")
      (text "pw")
      hello
      (connect_cmd (text "h.x") 443, text "G")
unfolding handle negotiated logged_in read_rfc1929 read_sized read_byte read_exact request
    read_target read_host contains constant_time_eq difference from_be be_onto
handle-IsLoggedIn_example =
    handle-IsLoggedIn any_utf8 as_is as_is (text "al") (text "pw") hello
      (connect_cmd (text "h.x") 443, text "G") refl

-- Without the method, and with an unknown command.
not_offered :
    handle any_utf8 as_is as_is (some (text "al", text "pw")) (5 ∷ 1 ∷ 0 ∷ [])
    ≡ (method_reply 255, none)
unfolding handle negotiated read_exact contains
not_offered = refl

unknown_command :
    handle any_utf8 as_is as_is none (5 ∷ 1 ∷ 0 ∷ 5 ∷ 2 ∷ 0 ∷ 1 ∷ 1 ∷ 2 ∷ 3 ∷ 4 ∷ 0 ∷ 80 ∷ [])
    ≡ (method_reply 0 ++ reply 7, none)
unfolding handle negotiated read_byte read_exact request read_target read_host contains from_be
    be_onto
unknown_command = refl
