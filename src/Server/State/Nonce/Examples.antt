-- ===== src/Server/State/Nonce/Examples.antt =====
-- A replayed authentication.
use newppp.Prelude.{ℕ, ◌≡◌, refl, true, false, List, [], ◌∷◌, arith}
use newppp.Server.State.Nonce.{check_and_remember_nonce, retain, contains_key}
use newppp.Server.State.Nonce.Replay.{Call, after_call, after_calls, no_replay}

-- Decimal digits are not needed here.
abbrev unary : ℕ → List ℕ
unary n = n ∷ []

abbrev first : Call
first = record { now = 1000; uid = b'a' ∷ []; nonce = 1 ∷ []; ts = 990 }

abbrev other : Call
other = record { now = 1010; uid = b'b' ∷ []; nonce = 2 ∷ []; ts = 1005 }

first_accepted :
    (check_and_remember_nonce unary first.now [] first.uid first.nonce first.ts).1 ≡ true
unfolding check_and_remember_nonce retain contains_key
first_accepted = refl

no_replay_example :
    (check_and_remember_nonce unary 1040
      (after_calls unary (after_call unary [] first) (other ∷ []))
      first.uid
      first.nonce
      first.ts).1
    ≡ false
no_replay_example =
    no_replay unary [] first (other ∷ []) 1040 first_accepted (omega arith, tt) (omega arith)
      (omega arith)
