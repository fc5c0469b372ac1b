-- ===== src/Proto/Auth/Verify.antt =====
-- src/proto/crypto.rs: `AuthPayload::verify`, the constant-time comparison and the time window.
use Prim.Native.Nat.{bit_or, bit_xor}
use newppp.Prelude.{ℕ, ◌+◌, ◌≤◌, ◌≡◌, ◌↔◌, refl, sym, ap, ◌∙◌, true, List, [], ◌∷◌, length, arith}
use newppp.Prelude.Bits.{bit_or-eq-zero, bit_xor-eq-zero, bit_xor_self}
use newppp.Proto.Auth.{AuthPayload, difference, auth_mac, verify}

pub difference-zero :
    (diff : ℕ) (xs ys : List ℕ)
    → length xs ≡ length ys
    → difference diff xs ys ≡ 0
    → (diff ≡ 0) × (xs ≡ ys)
unfolding difference
difference-zero diff [] [] l e = (e, refl)
difference-zero diff [] (y ∷ ys) l e = absurd (omega arith)
difference-zero diff (x ∷ xs) [] l e = absurd (omega arith)
difference-zero diff (x ∷ xs) (y ∷ ys) l e =
    let (both, rest) = difference-zero (bit_or diff (bit_xor x y)) xs ys (omega arith) e in
    let (none_so_far, bits) = bit_or-eq-zero diff (bit_xor x y) both in
    let head = bit_xor-eq-zero x y bits in (none_so_far, cc)

pub difference_self : (xs : List ℕ) → difference 0 xs xs ≡ 0
unfolding difference
difference_self [] = refl
difference_self (x ∷ xs) = rw (bit_xor_self x) (difference_self xs)

module _ (hmac : List ℕ → List ℕ → List ℕ) where
  -- The time stamp is at most `window` away from the clock, and the MAC is the right one.
  abbrev pub IsAuthentic : ℕ → AuthPayload → List ℕ → ℕ → Type 0
  IsAuthentic now a key window =
      (now ≤ a.ts + window) × (a.ts ≤ now + window) × (a.mac ≡ auth_mac hmac key a.uid a.ts a.nonce)

  -- With MACs of one length, `verify` accepts a payload exactly if its time stamp is within the window
  -- on either side of the clock and its MAC is that of its uid, time stamp and nonce under the key.
  pub verify_iff :
      (now : ℕ) (a : AuthPayload) (key : List ℕ) (window : ℕ)
      → length (auth_mac hmac key a.uid a.ts a.nonce) ≡ length a.mac
      → (verify hmac now a key window ≡ true) ↔ IsAuthentic now a key window
  unfolding verify
  verify_iff now a key window l =
      let expect = auth_mac hmac key a.uid a.ts a.nonce in
      (
        λ e.
            let zero_difference : difference 0 expect a.mac ≡ 0 = ground arith in
            (ground arith, ground arith, sym (difference-zero 0 expect a.mac l zero_difference).1),
        λ h.
            let zero_difference : difference 0 expect a.mac ≡ 0 =
              ap (difference 0 expect) h.2 ∙ difference_self expect in
            ground arith,
      )
