-- ===== src/Server/State/Nonce.antt =====
-- The cache of authentication nonces in src/server/state.rs: `check_and_remember_nonce`. The clock is
-- an argument; how a `u64` is printed into the key is the standard library's, a parameter.
use newppp.Prelude.{
  ℕ, ◌+◌, ◌-◌, ◌*◌, ◌≤◌, ◌<◌, ◌≡◌, refl, Bool, true, false, ltb, leb, ◌==◌, ◌&&◌, ◌||◌,
  if◌then◌else◌, List, [], ◌∷◌, ◌++◌, length, arith, Bool-cases, inl, inr, bytes_eq, bytes_eq_refl,
  All,
}
use newppp.Proto.Hex.{hex}
use newppp.Proto.Auth.{auth_window}
pub mod Replay
mod Examples

abbrev pub nonce_cap : ℕ
nonce_cap = 50000

-- `seen_nonces`: the keys, with the time stamps of their payloads.
abbrev pub Seen : Type 0
Seen = List (List ℕ × ℕ)

unfoldable pub contains_key : List ℕ → Seen → Bool
contains_key key [] = false
contains_key key ((k, ts) ∷ seen) = bytes_eq k key || contains_key key seen

unfoldable pub retain : ℕ → Seen → Seen
retain cutoff [] = []
retain cutoff ((k, ts) ∷ seen) =
    let rest = retain cutoff seen in if ltb cutoff ts then (k, ts) ∷ rest else rest

module _ (print : ℕ → List ℕ) where
  -- `{uid}|{ts}|{hex(nonce)}`.
  abbrev pub nonce_key : List ℕ → List ℕ → ℕ → List ℕ
  nonce_key uid nonce ts = uid ++ (b'|' ∷ (print ts ++ (b'|' ∷ hex nonce)))

  -- The cache after the call, and whether the nonce is new.
  unfoldable pub check_and_remember_nonce : ℕ → Seen → List ℕ → List ℕ → ℕ → Seen × Bool
  check_and_remember_nonce now seen uid nonce ts =
      let key = nonce_key uid nonce ts in
      let kept = retain (now - 2 * auth_window) seen in
      if contains_key key seen
      then (seen, false)
      else if leb nonce_cap (length kept)
      then (kept, false)
      else ((key, ts) ∷ kept, true)
