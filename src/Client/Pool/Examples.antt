-- ===== src/Client/Pool/Examples.antt =====
-- A pool with a dead, a full, an idle and a busy connection.
use newppp.Prelude.{
  ℕ, zero, suc, ◌≤◌, ◌≡◌, refl, Bool, true, false, List, [], ◌∷◌, Option, none, some, length, arith,
  ◌⊎◌,
}
use newppp.Client.Pool.{
  upkeep, Conn, WtPool, tick, acquire, retain_alive, retire_idle, trim, redial, least_used,
}
use newppp.Client.Pool.Upkeep.{AllAlive, AllBusy, busy, IsPause, live_busy, tick-upkeep}
use newppp.Client.Pool.Choice.{IsLeastUsed, AllUnusable, acquire_least}

abbrev conn : ℕ → Bool → ℕ → Conn
conn id alive sessions = record { id = id; alive = alive; sessions = sessions }

abbrev conns : List Conn
conns = conn 1 false 3 ∷ conn 2 true 50 ∷ conn 3 true 0 ∷ conn 4 true 7 ∷ []

abbrev pool : ℕ → WtPool
pool backoff = record { conns = conns; backoff = backoff; next_attempt = 100 }

abbrev second_comes : ℕ → Option Conn
second_comes zero = none
second_comes (suc n) = some (conn 9 true 0)

tick-upkeep_example :
    AllAlive (upkeep 5 conns)
    × ((length (upkeep 5 conns) ≤ 5) ⊎ AllBusy (upkeep 5 conns))
    × (busy (upkeep 5 conns) ≡ live_busy conns)
    × IsPause (tick 5 second_comes (pool 160) 100 130).backoff
tick-upkeep_example = tick-upkeep 5 second_comes (pool 160) 100 130 (omega arith, omega arith)

-- The pause doubles when no dial comes about, up to five minutes.
doubled : (tick 5 (λ n. none) (pool 160) 100 130).backoff ≡ 300
unfolding upkeep tick retain_alive retire_idle trim redial
doubled = refl

retired : (tick 1 (λ n. none) (pool 10) 100 130).conns ≡ conn 2 true 50 ∷ conn 4 true 7 ∷ []
unfolding upkeep tick retain_alive retire_idle trim redial
retired = refl

acquire_least_example :
    ((c : Conn) × (acquire none conns ≡ (conns, some c)) × IsLeastUsed conns c)
    ⊎ (((acquire none conns).1 ≡ none) × AllUnusable conns)
acquire_least_example = acquire_least none conns

idle_is_taken : (acquire none conns).1 ≡ some (conn 3 true 0)
unfolding acquire least_used retain_alive
idle_is_taken = refl
