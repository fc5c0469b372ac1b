-- ===== src/Client/Pool.antt =====
-- src/client/wt.rs: `WtPool`, the connections that a client keeps. One tick of the maintenance task is
-- one step; the clock and what dialling answers are arguments. Times are seconds.
use newppp.Prelude.{
  ℕ, zero, suc, ◌+◌, ◌-◌, ◌*◌, ◌≤◌, ◌<◌, ◌≡◌, refl, Bool, true, false, not, ltb, leb, ◌==◌, ◌&&◌,
  ◌||◌, if◌then◌else◌, List, [], ◌∷◌, ◌++◌, Option, none, some, length, min,
}
pub mod Upkeep
pub mod Choice
mod Examples

-- `MAX_PER_CONN`, and the shortest and the longest pause after failed dials.
abbrev pub max_per_conn : ℕ
max_per_conn = 50

abbrev pub base_backoff : ℕ
base_backoff = 10

abbrev pub max_backoff : ℕ
max_backoff = 300

-- What the pool reads of a `WtConn`.
pub record Conn : Type 0 where
  pub id : ℕ
  pub alive : Bool
  pub sessions : ℕ

pub record WtPool : Type 0 where
  pub conns : List Conn
  pub backoff : ℕ
  pub next_attempt : ℕ

-- `g.retain(|c| c.alive)`.
unfoldable pub retain_alive : List Conn → List Conn
retain_alive [] = []
retain_alive (c ∷ g) = if c.alive then c ∷ retain_alive g else retain_alive g

-- Without the first connection that has no session, if there is one.
unfoldable pub retire_idle : List Conn → Option (List Conn)
retire_idle [] = none
retire_idle (c ∷ g) =
    let rest = retire_idle g in
    if c.sessions == 0 then some g else elim rest [ none ↦ none | some left ↦ some (c ∷ left) ]

-- The loop that retires; each turn takes one connection out, so one turn per connection is enough.
unfoldable pub trim : ℕ → ℕ → List Conn → List Conn
trim zero size g = g
trim (suc fuel) size g =
    if leb (length g) size
    then g
    else elim (retire_idle g) [ none ↦ g | some left ↦ trim fuel size left ]

-- `need` dials, from the one with the number `i` on, and whether one came about.
unfoldable pub redial : (ℕ → Option Conn) → ℕ → ℕ → List Conn → List Conn × Bool
redial dial i zero g = (g, false)
redial dial i (suc need) g = elim (dial i) [
  | none ↦ redial dial (suc i) need g
  | some c ↦ ((redial dial (suc i) need (g ++ (c ∷ []))).0, true)
]

-- `now` is the time of the check, `later` the time after the dials.
abbrev refilled : List Conn × Bool → WtPool → ℕ → WtPool
refilled (g, true) p later = record { conns = g; backoff = base_backoff; next_attempt = later }
refilled (g, false) p later =
    let backoff = min (p.backoff * 2) max_backoff in
    record { conns = g; backoff = backoff; next_attempt = later + backoff }

-- What is done under the first lock.
unfoldable pub upkeep : ℕ → List Conn → List Conn
upkeep size g = let alive = retain_alive g in trim (length alive) size alive

-- The other tasks do not come in between: between the lock and each push they may change the pool.
unfoldable pub tick : ℕ → (ℕ → Option Conn) → WtPool → ℕ → ℕ → WtPool
tick size dial p now later =
    let g = upkeep size p.conns in
    let need = size - length g in
    if need == 0
    then record { conns = g; backoff = base_backoff; next_attempt = now }
    else if ltb now p.next_attempt
    then record p { conns = g }
    else refilled (redial dial 0 need g) p later

abbrev pub usable : Conn → Bool
usable c = c.alive && ltb c.sessions max_per_conn

-- `filter` and `min_by_key`, which takes the first of several.
abbrev less_used : Conn → Option Conn → Conn
less_used c none = c
less_used c (some d) = if leb c.sessions d.sessions then c else d

unfoldable pub least_used : List Conn → Option Conn
least_used [] = none
least_used (c ∷ g) = let rest = least_used g in if usable c then some (less_used c rest) else rest

-- `dialled` is what connecting answers, if it comes to that.
unfoldable pub acquire : Option Conn → List Conn → List Conn × Option Conn
acquire dialled g = elim (least_used g) [
  | some c ↦ (g, some c)
  | none ↦ elim dialled [ none ↦ (g, none) | some c ↦ (retain_alive g ++ (c ∷ []), some c) ]
]
