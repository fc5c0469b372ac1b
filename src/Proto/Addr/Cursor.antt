-- ===== src/Proto/Addr/Cursor.antt =====
-- Reading from a position: what is left of the bytes decides every read.
use newppp.Prelude.{
  ℕ, ◌+◌, ◌≤◌, ◌<◌, ◌≡◌, refl, ap, ◌∙◌, true, false, Bool, List, ◌∷◌, ◌++◌, length, drop,
  take-append, drop-append, length-append, length-drop, drop-add, append_assoc, arith, ◌^◌,
}
use newppp.Prelude.Bytes.{to_le, to_be, from_le-to_le, from_be-to_be, length-to_le, length-to_be}
use newppp.Proto.Error.{Result, ok, err}
use newppp.Proto.Addr.{
  Reader, new, read_bytes, read_u8, read_u16, read_u16_be, rest, read_port, put_port,
}

-- The position is within the bytes, and `xs` is left.
pub record At (r : Reader) (xs : List ℕ) : Type 0 where
  pub left : drop r.pos r.b ≡ xs
  pub within : r.pos ≤ length r.b

abbrev pub adv : Reader → ℕ → Reader
adv r n = record r { pos = r.pos + n }

pub new-At : (b : List ℕ) → At (new b) b
unfolding new
new-At b = record { left = refl; within = omega arith }

left_length : (r : Reader) (xs : List ℕ) → At r xs → length r.b ≡ r.pos + length xs
left_length r xs h = omega (arith, h.within, length-drop r.pos r.b, ap length h.left)

pub adv-At :
    (r : Reader) (xs ys : List ℕ) (n : ℕ) → At r (xs ++ ys) → length xs ≡ n → At (adv r n) ys
adv-At r xs ys n h e = record {
  left = drop-add r.pos n r.b ∙ rw h.left (drop-append n xs ys e);
  within = omega (arith, left_length r (xs ++ ys) h, length-append xs ys);
}

pub read_bytes-At :
    (r : Reader) (xs ys : List ℕ) (n : ℕ)
    → At r (xs ++ ys)
    → length xs ≡ n
    → read_bytes r n ≡ ok (xs, adv r n)
unfolding read_bytes
read_bytes-At r xs ys n h e =
    rw (h.left, take-append n xs ys e)
      (ground (arith, left_length r (xs ++ ys) h, length-append xs ys))

pub read_u8-At : (r : Reader) (x : ℕ) (ys : List ℕ) → At r (x ∷ ys) → read_u8 r ≡ ok (x, adv r 1)
unfolding read_u8
read_u8-At r x ys h = rw h.left (ground (arith, left_length r (x ∷ ys) h))

pub rest-At : (r : Reader) (xs : List ℕ) → At r xs → (rest r).0 ≡ xs
unfolding rest
rest-At r xs h = h.left

-- A read at the end fails.
pub read_u8-end :
    (r : Reader) → length r.b ≤ r.pos → read_u8 r ≡ err newppp.Proto.Error.read_past_end
unfolding read_u8
read_u8-end r h = ground arith

pub length-put_port : (be : Bool) (p : ℕ) → length (put_port be p) ≡ 2
length-put_port true p = length-to_be 2 p
length-put_port false p = length-to_le 2 p

pub read_port-At :
    (be : Bool) (r : Reader) (p : ℕ) (ys : List ℕ)
    → p < 2 ^ 16
    → At r (put_port be p ++ ys)
    → read_port be r ≡ ok (p, adv r 2)
unfolding read_u16 read_u16_be
read_port-At true r p ys h a =
    rw (read_bytes-At r (to_be 2 p) ys 2 a (length-to_be 2 p), from_be-to_be 2 p h)
read_port-At false r p ys h a =
    rw (read_bytes-At r (to_le 2 p) ys 2 a (length-to_le 2 p), from_le-to_le 2 p h)

-- A byte string of known length and the port behind it.
pub read_body :
    (r : Reader) (be : Bool) (xs : List ℕ) (p : ℕ) (more : List ℕ) (n : ℕ)
    → length xs ≡ n
    → p < 2 ^ 16
    → At r ((xs ++ put_port be p) ++ more)
    → (read_bytes r n ≡ ok (xs, adv r n))
      × (read_port be (adv r n) ≡ ok (p, adv (adv r n) 2))
      × At (adv (adv r n) 2) more
read_body r be xs p more n e hp h =
    let at : At r (xs ++ (put_port be p ++ more)) = record {
      left = h.left ∙ append_assoc xs (put_port be p) more;
      within = h.within;
    } in
    let next = adv-At r xs (put_port be p ++ more) n at e in
    (
      read_bytes-At r xs (put_port be p ++ more) n at e,
      read_port-At be (adv r n) p more hp next,
      adv-At (adv r n) (put_port be p) more 2 next (length-put_port be p),
    )
