-- ===== src/Proto/Mux/Sid.antt =====
-- How the client takes a session id: `alloc_sid` of src/proto/mux.rs and of src/client/wt.rs. The loop
-- runs on fuel; `next_sid` is a `u32` that wraps around.
use newppp.Prelude.{
  ℕ, zero, suc, ◌+◌, ◌%◌, ◌^◌, ◌≤◌, ◌<◌, ◌≡◌, ◌≢◌, refl, ap, Bool, true, false, not, ◌==◌, ◌&&◌,
  if◌then◌else◌, List, [], ◌∷◌, ◌++◌, Option, none, some, length, length-append, arith, Bool-cases,
  Option-cases, inl, inr,
}
use newppp.Prelude.Assoc.{has}
use newppp.Prelude.Pigeon.{mem, mem-append, pigeonhole}
use newppp.Proto.Mux.{MuxInner}

-- The loop: the next value of `next_sid`, and the id.
unfoldable pub search_sid : (ℕ → Bool) → ℕ → ℕ → Option (ℕ × ℕ)
search_sid free zero next = none
search_sid free (suc fuel) next =
    let rest = search_sid free fuel ((next + 1) % 2 ^ 32) in
    if free next then some ((next + 1) % 2 ^ 32, next) else rest

abbrev pub mux_free : MuxInner → ℕ → Bool
mux_free m v = not (v == 0) && (not (has v m.sessions) && not (has v m.udp))

unfoldable pub alloc_sid : ℕ → MuxInner → ℕ → Option (ℕ × ℕ)
unfolding search_sid
alloc_sid fuel m next = search_sid (mux_free m) fuel next

abbrev pub wt_free : List (ℕ × ℕ) → ℕ → Bool
wt_free udp v = not (v == 0) && not (has v udp)

unfoldable pub alloc_wt_sid : ℕ → List (ℕ × ℕ) → ℕ → Option (ℕ × ℕ)
unfolding search_sid
alloc_wt_sid fuel udp next = search_sid (wt_free udp) fuel next

abbrev keys : List (ℕ × ℕ) → List ℕ
keys [] = []
keys ((k, v) ∷ m) = k ∷ keys m

length-keys : (m : List (ℕ × ℕ)) → length (keys m) ≡ length m
length-keys [] = refl
length-keys ((k, v) ∷ m) = ap suc (length-keys m)

has-keys : (v : ℕ) (m : List (ℕ × ℕ)) → has v m ≡ mem v (keys m)
unfolding has mem
has-keys v [] = refl
has-keys v ((k, w) ∷ m) = ground (arith, has-keys v m)

-- The id that the loop took was free.
search_sid-free :
    (free : ℕ → Bool) (fuel next next' v : ℕ)
    → next < 2 ^ 32
    → search_sid free fuel next ≡ some (next', v)
    → (free v ≡ true) × (v < 2 ^ 32) × (next' ≡ (v + 1) % 2 ^ 32)
unfolding search_sid
search_sid-free free zero next next' v h e = absurd (cc e)
search_sid-free free (suc fuel) next next' v h e = elim (Bool-cases (free next)) [
  | inl hit ↦
      let here : ◌≡◌ {A = Option (ℕ × ℕ)} (some ((next + 1) % 2 ^ 32, next)) (some (next', v)) =
        rw hit at e in
      let id : next ≡ v = cc here in
      let after : (next + 1) % 2 ^ 32 ≡ next' = cc here in
      (rw (← id) hit, omega (arith, id), omega (arith, id, after))
  | inr miss ↦ search_sid-free free fuel ((next + 1) % 2 ^ 32) next' v (omega arith) (rw miss at e)
]

search_sid-miss :
    (free : ℕ → Bool) (fuel next : ℕ)
    → search_sid free (suc fuel) next ≡ none
    → (free next ≡ false) × (search_sid free fuel ((next + 1) % 2 ^ 32) ≡ none)
unfolding search_sid
search_sid-miss free fuel next e = elim (Bool-cases (free next)) [
  | inl hit ↦
      let here : ◌≡◌ {A = Option (ℕ × ℕ)} (some ((next + 1) % 2 ^ 32, next)) none = rw hit at e in
      absurd (cc here)
  | inr miss ↦ (miss, rw miss at e)
]

-- Where it found none, all that it looked at was taken.
search_sid-none :
    (free : ℕ → Bool) (fuel next : ℕ)
    → next < 2 ^ 32
    → search_sid free fuel next ≡ none
    → (k : ℕ) → k < fuel
    → free ((next + k) % 2 ^ 32) ≡ false
search_sid-none free zero next h e k l = absurd (omega arith)
search_sid-none free (suc fuel) next h e zero l =
    let same : (next + 0) % 2 ^ 32 ≡ next = omega arith in
    rw same (search_sid-miss free fuel next e).0
search_sid-none free (suc fuel) next h e (suc k) l =
    let same : (next + suc k) % 2 ^ 32 ≡ ((next + 1) % 2 ^ 32 + k) % 2 ^ 32 = omega arith in
    rw same (
      search_sid-none free fuel ((next + 1) % 2 ^ 32) (omega arith)
        (search_sid-miss free fuel next e).1 k (omega arith))

-- A loop that may look at more ids than are taken finds one.
search_sid_finds :
    (free : ℕ → Bool) (taken : List ℕ) (fuel next : ℕ)
    → ((v : ℕ) → free v ≡ false → mem v taken ≡ true)
    → length taken < 2 ^ 32
    → length taken < fuel
    → next < 2 ^ 32
    → (r : ℕ × ℕ) × (search_sid free fuel next ≡ some r)
search_sid_finds free taken fuel next all small enough h =
    elim (Option-cases (search_sid free fuel next)) [
      | inr found ↦ found
      | inl e ↦
          let misses = search_sid-none free fuel next h e in
          let long =
            pigeonhole (suc (length taken)) (λ k. (next + k) % 2 ^ 32) taken
              (λ k l. all ((next + k) % 2 ^ 32) (misses k (omega arith)))
              (λ j k l m same. omega (arith, same)) in
          absurd (omega arith)
    ]

mux_taken : MuxInner → List ℕ
mux_taken m = 0 ∷ (keys m.sessions ++ keys m.udp)

mux_free-taken : (m : MuxInner) (v : ℕ) → mux_free m v ≡ false → mem v (mux_taken m) ≡ true
unfolding mux_taken mem
mux_free-taken m v e =
    ground
      (arith, mem-append v (keys m.sessions) (keys m.udp), has-keys v m.sessions, has-keys v m.udp)

length-mux_taken : (m : MuxInner) → length (mux_taken m) ≡ suc (length m.sessions + length m.udp)
unfolding mux_taken
length-mux_taken m =
    omega (
      arith,
      length-append (keys m.sessions) (keys m.udp),
      length-keys m.sessions,
      length-keys m.udp,
    )

-- While fewer than 2^32 - 1 ids are taken, the loop of `alloc_sid` ends, after at most two turns more
-- than there are taken ids, with an id of 32 bits that is not 0 and that neither map has, and the next
-- search starts behind it.
pub alloc_sid_finds :
    (m : MuxInner) (fuel next : ℕ)
    → length m.sessions + length m.udp + 1 < 2 ^ 32
    → length m.sessions + length m.udp + 2 ≤ fuel
    → next < 2 ^ 32
    → (v : ℕ) × (alloc_sid fuel m next ≡ some ((v + 1) % 2 ^ 32, v))
      × (v ≢ 0)
      × (v < 2 ^ 32)
      × (has v m.sessions ≡ false)
      × (has v m.udp ≡ false)
unfolding alloc_sid
alloc_sid_finds m fuel next small enough h =
    let l = length-mux_taken m in
    let ((next', v), e) =
      search_sid_finds (mux_free m) (mux_taken m) fuel next (mux_free-taken m) (omega (arith, l))
        (omega (arith, l)) h in
    let (free, width, after) = search_sid-free (mux_free m) fuel next next' v h e in
    (v, rw (← after) e, ground arith, width, ground arith, ground arith)

wt_free-taken : (udp : List (ℕ × ℕ)) (v : ℕ) → wt_free udp v ≡ false → mem v (0 ∷ keys udp) ≡ true
unfolding mem
wt_free-taken udp v e = ground (arith, has-keys v udp)

-- So it is for the associations of a WebTransport connection.
pub alloc_wt_sid_finds :
    (udp : List (ℕ × ℕ)) (fuel next : ℕ)
    → length udp + 1 < 2 ^ 32
    → length udp + 2 ≤ fuel
    → next < 2 ^ 32
    → (v : ℕ) × (alloc_wt_sid fuel udp next ≡ some ((v + 1) % 2 ^ 32, v))
      × (v ≢ 0)
      × (v < 2 ^ 32)
      × (has v udp ≡ false)
unfolding alloc_wt_sid
alloc_wt_sid_finds udp fuel next small enough h =
    let l = length-keys udp in
    let ((next', v), e) =
      search_sid_finds (wt_free udp) (0 ∷ keys udp) fuel next (wt_free-taken udp) (omega (arith, l))
        (omega (arith, l)) h in
    let (free, width, after) = search_sid-free (wt_free udp) fuel next next' v h e in
    (v, rw (← after) e, ground arith, width, ground arith)
