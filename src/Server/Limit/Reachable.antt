-- ===== src/Server/Limit/Reachable.antt =====
-- src/server/limit.rs: `UnauthGate` over sequences of arrivals and departures, half a call at a time.
use newppp.Prelude.{ℕ, ◌^◌, ◌<◌, ◌≡◌, refl, ◌∙◌, max, [], arith}
use newppp.Server.Limit.{
  new, take_slot, take_global, leave_global, World, Step, came, took_slot, turned_away, admitted,
  refused, dropped, left_slot, Reach, here, next,
}
use newppp.Server.Limit.Invariant.{Inv, new-Inv, Step-Inv, release_opt_keeps}

-- No step changes the caps.
Step_caps :
    {w u : World}
    → Step w u
    → (u.gate.max_global ≡ w.gate.max_global) × (u.gate.max_per_ip ≡ w.gate.max_per_ip)
unfolding take_slot take_global leave_global
Step_caps (came w) = (refl, refl)
Step_caps (took_slot w ip e) = ground arith
Step_caps (turned_away w ip e) = ground arith
Step_caps (admitted w front ip back split e) = ground arith
Step_caps (refused w front ip back split e) = ground arith
Step_caps (dropped w front ip back split) = (refl, refl)
Step_caps (left_slot w front ip back split) =
    let (same, cap, ip_cap) = release_opt_keeps w.gate ip in (cap, ip_cap)

-- The counters are right, and the caps are those of the configuration.
pub record Safe (max_global max_per_ip : ℕ) (w : World) : Type 0 where
  pub counts : Inv w
  pub global_cap : w.gate.max_global ≡ max max_global 1
  pub ip_cap : w.gate.max_per_ip ≡ max max_per_ip 1

abbrev pub start : ℕ → ℕ → World
start max_global max_per_ip = record {
  gate = new max_global max_per_ip;
  guards = [];
  trying = [];
  leaving = [];
}

-- With a global cap below 2^64: however the halves of the calls interleave, the global counter is the number
-- of guards that are out; the count of each address is the number of its guards, of its calls of
-- `try_admit` that have taken its slot only, and of its slots that are to be given back; and neither passes
-- its cap (a cap of 0 counts as 1).
pub Reach-Safe : (mg mi : ℕ) {w : World} → mg < 2 ^ 64 → Reach (start mg mi) w → Safe mg mi w
unfolding new
Reach-Safe mg mi h here = record { counts = new-Inv mg mi; global_cap = refl; ip_cap = refl }
Reach-Safe mg mi h (next r st) =
    let before = Reach-Safe mg mi h r in
    let (cap, ip_cap) = Step_caps st in
    record {
      counts = Step-Inv (omega (arith, before.global_cap)) st before.counts;
      global_cap = cap ∙ before.global_cap;
      ip_cap = ip_cap ∙ before.ip_cap;
    }
