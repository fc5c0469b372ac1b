-- ===== src/Client/Heartbeat.antt =====
-- src/client/wt.rs: the judge of the heartbeat task, which gives up a connection that does not answer.
use newppp.Prelude.{
  ℕ, suc, ◌+◌, ◌^◌, ◌%◌, ◌≡◌, refl, Bool, true, false, not, leb, ◌&&◌, ◌||◌, if◌then◌else◌, List,
  [], ◌∷◌,
}
mod Examples

abbrev pub pong_miss_limit : ℕ
pong_miss_limit = 2

-- What the judge reads of a `WtConn`.
pub record Link : Type 0 where
  pub pong_seen : Bool
  pub missed_pings : ℕ

abbrev pub connected : Link
connected = record { pong_seen = false; missed_pings = 0 }

-- A Pong arrives.
abbrev pub on_pong : Link → Link
on_pong l = record l { pong_seen = true }

-- One tick, and whether the connection expires.
unfoldable pub judge : Link → Link × Bool
judge l =
    let missed = (l.missed_pings + 1) % 2 ^ 64 in
    if l.pong_seen
    then (record { pong_seen = false; missed_pings = 0 }, false)
    else (record { pong_seen = false; missed_pings = missed }, leb pong_miss_limit missed)

-- The task: for each tick, whether a Pong arrived since the last one. How many pings are sent, one after
-- each tick, and whether the connection expires.
unfoldable pub heartbeat : List Bool → Link → ℕ × Bool
heartbeat [] l = (0, false)
heartbeat (answered ∷ ticks) l =
    let (l', expired) = judge (if answered then on_pong l else l) in
    let (pings, expires) = heartbeat ticks l' in if expired then (0, true) else (suc pings, expires)

-- Two ticks in a row without a Pong.
abbrev pub two_missed : List Bool → Bool
two_missed [] = false
two_missed (a ∷ []) = false
two_missed (a ∷ b ∷ ticks) = (not a && not b) || two_missed (b ∷ ticks)

two_missed-answered : (ticks : List Bool) → two_missed (true ∷ ticks) ≡ two_missed ticks
two_missed-answered [] = refl
two_missed-answered (b ∷ ticks) = refl

-- From no miss, and from one.
heartbeat-misses :
    (ticks : List Bool)
    → ((heartbeat ticks (record { pong_seen = false; missed_pings = 0 })).1 ≡ two_missed ticks)
      × ((heartbeat ticks (record { pong_seen = false; missed_pings = 1 })).1
          ≡ two_missed (false ∷ ticks))
unfolding heartbeat judge
heartbeat-misses [] = (refl, refl)
heartbeat-misses (true ∷ ticks) =
    rw (two_missed-answered ticks) (let h = heartbeat-misses ticks in (h.0, h.0))
heartbeat-misses (false ∷ ticks) = ((heartbeat-misses ticks).1, refl)

-- A connection is given up exactly if two ticks in a row saw no Pong.
pub heartbeat-two_missed : (ticks : List Bool) → (heartbeat ticks connected).1 ≡ two_missed ticks
heartbeat-two_missed ticks = (heartbeat-misses ticks).0
