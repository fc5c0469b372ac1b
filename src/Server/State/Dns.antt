-- ===== src/Server/State/Dns.antt =====
-- src/server/state.rs: the cache of resolved UDP targets, `udp_dns_cached` and `udp_dns_store`. An
-- address is a number; the clock is an argument, and `duration_since` stops at 0.
use newppp.Prelude.{
  Bool, true, not, ℕ, ◌-◌, ◌≡◌, leb, ◌==◌, if◌then◌else◌, List, [], ◌∷◌, Option, none, some, length,
  bytes_eq, All, ◌⊎◌,
}

abbrev udp_dns_cap : ℕ
udp_dns_cap = 4096

-- `udp_dns`: the address, and when it was stored.
abbrev pub Cache : Type 0
Cache = List (List ℕ × (ℕ × ℕ))

unfoldable pub get : List ℕ → Cache → Option (ℕ × ℕ)
get key [] = none
get key ((k, (addr, at)) ∷ m) = if bytes_eq k key then some (addr, at) else get key m

unfoldable pub put : List ℕ → ℕ × ℕ → Cache → Cache
put key new [] = (key, new) ∷ []
put key new ((k, old) ∷ m) =
    let rest = put key new m in if bytes_eq k key then (key, new) ∷ m else (k, old) ∷ rest

-- `retain`, of the entries that have not expired.
unfoldable pub retain_fresh : ℕ → ℕ → Cache → Cache
retain_fresh now ttl [] = []
retain_fresh now ttl ((k, (addr, at)) ∷ m) =
    let rest = retain_fresh now ttl m in if leb (now - at) ttl then (k, (addr, at)) ∷ rest else rest

abbrev still_good : ℕ → ℕ → Option (ℕ × ℕ) → Option ℕ
still_good now ttl none = none
still_good now ttl (some (addr, at)) = if leb (now - at) ttl then some addr else none

-- `ttl` is the server's setting.
unfoldable pub udp_dns_cached : ℕ → Cache → List ℕ → ℕ → Option ℕ
udp_dns_cached ttl m key now = if ttl == 0 then none else still_good now ttl (get key m)

-- The first half of `udp_dns_store`: the cache, and whether the entry is to be inserted.
unfoldable pub make_room : ℕ → Cache → ℕ → Cache × Bool
make_room ttl m now =
    let kept = retain_fresh now ttl m in
    if leb udp_dns_cap (length m) then (kept, not (leb udp_dns_cap (length kept))) else (m, true)

unfoldable pub udp_dns_store : ℕ → Cache → List ℕ → ℕ → ℕ → Cache
udp_dns_store ttl m key addr now =
    let (kept, room) = make_room ttl m now in
    if ttl == 0 then m else if room then put key (addr, now) kept else kept

-- One call of `udp_dns_store`.
pub record Store : Type 0 where
  pub key : List ℕ
  pub addr : ℕ
  pub at : ℕ

-- The two halves, which run on a map that other tasks change in between.
pub data Op : Type 0 where
  checked : ℕ → Op
  inserted : Store → Op

-- After the halves of any calls, in any order.
abbrev pub after_ops : ℕ → Cache → List Op → Cache
after_ops ttl m [] = m
after_ops ttl m (checked now ∷ ops) = after_ops ttl (make_room ttl m now).0 ops
after_ops ttl m (inserted s ∷ ops) = after_ops ttl (put s.key (s.addr, s.at) m) ops

-- What an entry goes back to.
abbrev pub Stored : List ℕ → ℕ → ℕ → List Op → Type 0
Stored key addr at [] = ⊥
Stored key addr at (checked now ∷ ops) = Stored key addr at ops
Stored key addr at (inserted s ∷ ops) =
    ((s.key ≡ key) × (s.addr ≡ addr) × (s.at ≡ at)) ⊎ Stored key addr at ops

module _ (P : List ℕ → ℕ → ℕ → Type 0) where
  abbrev Each : Cache → Type 0
  Each m = All (λ (e : List ℕ × (ℕ × ℕ)). P e.0 e.1.0 e.1.1) m
