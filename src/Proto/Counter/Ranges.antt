-- ===== src/Proto/Counter/Ranges.antt =====
-- src/proto/crypto.rs: the ranges that the generators of `CounterGen` draw from.
use newppp.Prelude.{
  ℕ, zero, suc, ◌+◌, ◌%◌, ◌^◌, ◌≤◌, ◌<◌, ◌≡◌, ◌≢◌, List, [], ◌∷◌, ◌++◌, arith, All,
}
use newppp.Proto.Counter.{CounterGen, stream, stream_server, datagram, datagram_server, next, draw}

-- Counters rise along the list, from `lo` on and below `hi`.
abbrev pub Rising : ℕ → ℕ → List ℕ → Type 0
Rising lo hi [] = Unit {0}
Rising lo hi (c ∷ cs) = (lo ≤ c) × (c < hi) × Rising (suc c) hi cs

-- No counter stands twice.
abbrev pub Distinct : List ℕ → Type 0
Distinct [] = Unit {0}
Distinct (c ∷ cs) = All (λ d. c ≢ d) cs × Distinct cs

draw-Rising :
    (n lo hi : ℕ) (g : CounterGen)
    → g.base + g.count ≡ lo
    → lo + n ≤ hi
    → hi ≤ 2 ^ 64
    → 1 ≤ g.base
    → Rising lo hi (draw n g)
unfolding draw next
draw-Rising zero lo hi g e h top b = tt
draw-Rising (suc n) lo hi g e h top b = (
  omega arith,
  omega arith,
  draw-Rising n (suc ((g.base + g.count) % 2 ^ 64)) hi _ (omega arith) (omega arith) top b,
)

Rising-mono :
    (lo mid hi top : ℕ) (cs : List ℕ) → lo ≤ mid → hi ≤ top → Rising mid hi cs → Rising lo top cs
Rising-mono lo mid hi top [] h t r = tt
Rising-mono lo mid hi top (c ∷ cs) h t r =
    (omega arith, omega arith, Rising-mono (suc c) (suc c) hi top cs (omega arith) t r.2)

Rising-append :
    (lo mid hi : ℕ) (xs ys : List ℕ)
    → lo ≤ mid
    → mid ≤ hi
    → Rising lo mid xs
    → Rising mid hi ys
    → Rising lo hi (xs ++ ys)
Rising-append lo mid hi [] ys h t r s = Rising-mono lo mid hi hi ys h (omega arith) s
Rising-append lo mid hi (x ∷ xs) ys h t r s =
    (omega arith, omega arith, Rising-append (suc x) mid hi xs ys (omega arith) t r.2 s)

Rising-above : (lo hi d : ℕ) (cs : List ℕ) → d < lo → Rising lo hi cs → All (λ c. d ≢ c) cs
Rising-above lo hi d [] h r = tt
Rising-above lo hi d (c ∷ cs) h r = (omega arith, Rising-above (suc c) hi d cs (omega arith) r.2)

Rising-Distinct : (lo hi : ℕ) (cs : List ℕ) → Rising lo hi cs → Distinct cs
Rising-Distinct lo hi [] r = tt
Rising-Distinct lo hi (c ∷ cs) r =
    (Rising-above (suc c) hi c cs (omega arith) r.2, Rising-Distinct (suc c) hi cs r.2)

-- All the counters of one session: `a` and `b` stream frames, `c` and `d` datagrams.
abbrev pub session_counters : ℕ → ℕ → ℕ → ℕ → List ℕ
session_counters a b c d =
    draw a stream ++ (draw b stream_server ++ (draw c datagram ++ draw d datagram_server))

session_Rising :
    (a b c d : ℕ)
    → a < 2 ^ 62
    → b ≤ 2 ^ 62
    → c ≤ 2 ^ 62
    → d ≤ 2 ^ 62
    → Rising 1 (2 ^ 64) (session_counters a b c d)
unfolding stream stream_server datagram datagram_server
session_Rising a b c d ha hb hc hd =
    Rising-append 1 (2 ^ 62) (2 ^ 64) (draw a stream) _ (omega arith) (omega arith)
      (draw-Rising a 1 (2 ^ 62) stream (omega arith) (omega arith) (omega arith) (omega arith))
      (Rising-append (2 ^ 62) (2 ^ 63) (2 ^ 64) (draw b stream_server) _ (omega arith) (omega arith)
        (draw-Rising b (2 ^ 62) (2 ^ 63) stream_server (omega arith) (omega arith) (omega arith)
          (omega arith))
        (Rising-append (2 ^ 63) (2 ^ 63 + 2 ^ 62) (2 ^ 64) (draw c datagram) _ (omega arith)
          (omega arith)
          (draw-Rising c (2 ^ 63) (2 ^ 63 + 2 ^ 62) datagram (omega arith) (omega arith)
            (omega arith) (omega arith))
          (draw-Rising d (2 ^ 63 + 2 ^ 62) (2 ^ 64) datagram_server (omega arith) (omega arith)
            (omega arith) (omega arith))))

-- What one generator of each of the four kinds hands out is all distinct, within a generator and between
-- them, as long as fewer than 2^62 counters are drawn from that of the client's stream frames and at most
-- 2^62 from each of the other three.
pub session_counters-Distinct :
    (a b c d : ℕ)
    → a < 2 ^ 62
    → b ≤ 2 ^ 62
    → c ≤ 2 ^ 62
    → d ≤ 2 ^ 62
    → Distinct (session_counters a b c d)
session_counters-Distinct a b c d ha hb hc hd =
    Rising-Distinct 1 (2 ^ 64) _ (session_Rising a b c d ha hb hc hd)
