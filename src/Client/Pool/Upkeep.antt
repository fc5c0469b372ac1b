-- ===== src/Client/Pool/Upkeep.antt =====
-- src/client/wt.rs: what one tick of the maintenance leaves of the pool.
use newppp.Prelude.{
  not, ◌&&◌, ℕ, zero, suc, ◌+◌, ◌-◌, ◌≤◌, ◌<◌, ◌≡◌, refl, ap, ◌∙◌, Bool, true, false, ltb, leb,
  ◌==◌, if◌then◌else◌, List, [], ◌∷◌, Option, none, some, length, arith, All, inl, inr, ◌⊎◌,
  Bool-cases,
}
use newppp.Client.Pool.{
  upkeep, Conn, WtPool, retain_alive, retire_idle, trim, redial, refilled, tick,
}

-- The connections that carry sessions.
abbrev pub busy : List Conn → List Conn
busy [] = []
busy (c ∷ g) = if c.sessions == 0 then busy g else c ∷ busy g

abbrev pub AllAlive : List Conn → Type 0
AllAlive g = All (λ (c : Conn). c.alive ≡ true) g

abbrev pub AllBusy : List Conn → Type 0
AllBusy g = All (λ (c : Conn). 0 < c.sessions) g

retain_alive-AllAlive : (g : List Conn) → AllAlive (retain_alive g)
unfolding retain_alive
retain_alive-AllAlive [] = tt
retain_alive-AllAlive (c ∷ g) = elim (Bool-cases c.alive) [
  | inl live ↦ rw live (refl, retain_alive-AllAlive g)
  | inr dead ↦ rw dead (retain_alive-AllAlive g)
]

-- What the pool may become without a loss.
record Kept (before after : List Conn) : Type 0 where
  still_alive : AllAlive before → AllAlive after
  same_busy : busy after ≡ busy before

Kept-refl : (g : List Conn) → Kept g g
Kept-refl g = record { still_alive = λ a. a; same_busy = refl }

Kept-trans : (g h k : List Conn) → Kept g h → Kept h k → Kept g k
Kept-trans g h k a b = record {
  still_alive = λ l. b.still_alive (a.still_alive l);
  same_busy = b.same_busy ∙ a.same_busy;
}

retire_idle-cases :
    (g : List Conn)
    → ((retire_idle g ≡ none) × AllBusy g)
      ⊎ ((left : List Conn) × (retire_idle g ≡ some left)
          × (length left + 1 ≡ length g)
          × Kept g left)
unfolding retire_idle
retire_idle-cases [] = inl (refl, tt)
retire_idle-cases (c ∷ g) = elim (Bool-cases (c.sessions == 0)) [
  | inl idle ↦
      inr
        (g, rw idle refl, omega arith, record { still_alive = λ a. a.1; same_busy = rw idle refl })
  | inr used ↦ elim (retire_idle-cases g) [
    | inl (none_idle, all) ↦ inl (rw (used, none_idle) refl, (ground arith, all))
    | inr (left, found, shorter, kept) ↦ inr (
      c ∷ left,
      rw (used, found) refl,
      omega (arith, shorter),
      record {
        still_alive = λ a. (a.0, kept.still_alive a.1);
        same_busy = rw used (ap (◌∷◌ c) kept.same_busy);
      },
    )
  ]
]

trim-Kept :
    (fuel size : ℕ) (g : List Conn)
    → length g ≤ fuel
    → Kept g (trim fuel size g) × ((length (trim fuel size g) ≤ size) ⊎ AllBusy (trim fuel size g))
unfolding trim
trim-Kept zero size g h = (Kept-refl g, inl (omega (arith, h)))
trim-Kept (suc fuel) size g h = elim (Bool-cases (leb (length g) size)) [
  | inl small ↦ rw small (Kept-refl g, inl (ground (arith, small)))
  | inr big ↦ elim (retire_idle-cases g) [
    | inl (none_idle, all) ↦ rw (big, none_idle) (Kept-refl g, inr all)
    | inr (left, found, shorter, kept) ↦
        let (later, bounded) = trim-Kept fuel size left (omega (arith, shorter, h)) in
        rw (big, found) (Kept-trans g left (trim fuel size left) kept later, bounded)
  ]
]

-- The live connections that carry sessions.
abbrev pub live_busy : List Conn → List Conn
live_busy [] = []
live_busy (c ∷ g) = if c.alive && not (c.sessions == 0) then c ∷ live_busy g else live_busy g

busy-retain_alive : (g : List Conn) → busy (retain_alive g) ≡ live_busy g
unfolding retain_alive
busy-retain_alive [] = refl
busy-retain_alive (c ∷ g) = elim (Bool-cases c.alive) [
  | inr dead ↦ ground (arith, dead, busy-retain_alive g)
  | inl live ↦ ground (arith, live, busy-retain_alive g)
]

-- The pauses stay within their bounds.
abbrev pub IsPause : ℕ → Type 0
IsPause backoff = (10 ≤ backoff) × (backoff ≤ 300)

refilled-IsPause :
    (r : List Conn × Bool) (p : WtPool) (later : ℕ)
    → IsPause p.backoff
    → IsPause (refilled r p later).backoff
refilled-IsPause (g, true) p later h = (omega arith, omega arith)
refilled-IsPause (g, false) p later h = (omega (arith, h.0), omega arith)

-- What a tick leaves of the pool under its first lock, before it dials: all connections are alive, they are
-- at most `size` or each of them carries sessions, and those that carry sessions are just the live ones
-- that did before. The pause after failed dials stays between 10 and 300 seconds over the whole tick.
pub tick-upkeep :
    (size : ℕ) (dial : ℕ → Option Conn) (p : WtPool) (now later : ℕ)
    → IsPause p.backoff
    → AllAlive (upkeep size p.conns)
      × ((length (upkeep size p.conns) ≤ size) ⊎ AllBusy (upkeep size p.conns))
      × (busy (upkeep size p.conns) ≡ live_busy p.conns)
      × IsPause (tick size dial p now later).backoff
unfolding upkeep tick
tick-upkeep size dial p now later pause =
    let alive = retain_alive p.conns in
    let g = trim (length alive) size alive in
    let (kept, bounded) = trim-Kept (length alive) size alive (omega arith) in
    (
      kept.still_alive (retain_alive-AllAlive p.conns),
      bounded,
      kept.same_busy ∙ busy-retain_alive p.conns,
      elim (Bool-cases ((size - length g) == 0)) [
        | inl enough ↦ rw enough (omega arith, omega arith)
        | inr short ↦ elim (Bool-cases (ltb now p.next_attempt)) [
          | inl cooling ↦ rw (short, cooling) pause
          | inr due ↦
              rw (short, due) (refilled-IsPause (redial dial 0 (size - length g) g) p later pause)
        ]
      ],
    )
