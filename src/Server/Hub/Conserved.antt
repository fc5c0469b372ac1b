-- ===== src/Server/Hub/Conserved.antt =====
-- src/server/state.rs and src/server/hub.rs: the quota in use against the registered sessions.
use newppp.Prelude.{
  ℕ, suc, ◌+◌, ◌^◌, ◌≤◌, ◌<◌, ◌≡◌, refl, ap, ◌==◌, List, [], ◌∷◌, none, some, length, arith,
  Bool-cases, inl, inr,
}
use newppp.Prelude.Assoc.{lookup, insert}
use newppp.Server.State.{
  ConnState, session_count, try_register_with, drop_session, try_acquire_session, release_session,
}
use newppp.Server.State.Sessions.{register_count, drop_count, touch_count}
use newppp.Server.Hub.World.{
  World, Step, connected, unmapped, cancelled, acquired, registered, lost_race, tcp_routed,
  udp_routed, used, dropped, released, Reach, here, next,
}

-- The sessions of all the connections.
abbrev pub total : List (ℕ × ConnState) → ℕ
total [] = 0
total ((k, c) ∷ m) = session_count c + total m

some_eq : (c d : ConnState) → some c ≡ some d → c ≡ d
some_eq c d e = cc

total-insert_old :
    (k : ℕ) (c c' : ConnState) (m : List (ℕ × ConnState))
    → lookup k m ≡ some c
    → total (insert k c' m) + session_count c ≡ total m + session_count c'
unfolding lookup insert
total-insert_old k c c' [] e = cc
total-insert_old k c c' ((j, d) ∷ m) e = elim (Bool-cases (j == k)) [
  | inl hit ↦ let same : d ≡ c = some_eq d c (rw hit at e) in rw (hit, same) (omega arith)
  | inr miss ↦ rw miss (omega (arith, total-insert_old k c c' m (rw miss at e)))
]

total-insert_new :
    (k : ℕ) (c : ConnState) (m : List (ℕ × ConnState))
    → lookup k m ≡ none
    → total (insert k c m) ≡ total m + session_count c
unfolding lookup insert
total-insert_new k c [] e = omega arith
total-insert_new k c ((j, d) ∷ m) e = elim (Bool-cases (j == k)) [
  | inl hit ↦ absurd (cc (rw hit at e))
  | inr miss ↦ rw miss (omega (arith, total-insert_new k c m (rw miss at e)))
]

-- The quota in use is that of the registered sessions, of the tasks that are about to register and of
-- those that are about to release.
pub record Conserved (max_sessions : ℕ) (w : World) : Type 0 where
  pub exact : w.quota.active_sessions ≡ total w.conns + w.holding + w.releasing
  pub within : w.quota.active_sessions ≤ max_sessions
  pub cap : w.quota.max_sessions ≡ max_sessions

-- A step that keeps the count of one connection's sessions.
same_count :
    (mx : ℕ) (w : World) (k : ℕ) (c c' : ConnState)
    → lookup k w.conns ≡ some c
    → session_count c' ≡ session_count c
    → Conserved mx w
    → Conserved mx (record w { conns = insert k c' w.conns })
same_count mx w k c c' e n v = record {
  exact = omega (arith, v.exact, total-insert_old k c c' w.conns e, n);
  within = v.within;
  cap = v.cap;
}

Step-Conserved : (mx : ℕ) {w u : World} → mx < 2 ^ 64 → Step w u → Conserved mx w → Conserved mx u
unfolding try_acquire_session release_session
Step-Conserved mx h (connected w k c e n) v = record {
  exact = omega (arith, v.exact, total-insert_new k c w.conns e, ap length n);
  within = v.within;
  cap = v.cap;
}
Step-Conserved mx h (unmapped w k) v = record { exact = v.exact; within = v.within; cap = v.cap }
Step-Conserved mx h (cancelled w k c e) v = same_count mx w k c _ e refl v
Step-Conserved mx h (acquired w e) v = record {
  exact = ground (arith, v.exact, v.within, v.cap);
  within = ground (arith, v.exact, v.within, v.cap);
  cap = ground (arith, v.exact, v.within, v.cap);
}
Step-Conserved mx h (registered w k c n sid token now e held r) v =
    let c' = (try_register_with c sid token now).0 in
    let one : session_count c' ≡ suc (session_count c) =
      ground (arith, register_count c sid token now) in
    record {
      exact = omega (arith, v.exact, total-insert_old k c c' w.conns e, one, held);
      within = v.within;
      cap = v.cap;
    }
Step-Conserved mx h (lost_race w k c n sid token now e held r) v =
    let c' = (try_register_with c sid token now).0 in
    let same : session_count c' ≡ session_count c =
      ground (arith, register_count c sid token now) in
    record {
      exact = omega (arith, v.exact, total-insert_old k c c' w.conns e, same, held);
      within = v.within;
      cap = v.cap;
    }
Step-Conserved mx h (tcp_routed w k c sid channel e) v = same_count mx w k c _ e refl v
Step-Conserved mx h (udp_routed w k c sid relay e) v = same_count mx w k c _ e refl v
Step-Conserved mx h (used w k c sid now e) v = same_count mx w k c _ e (touch_count c sid now) v
Step-Conserved mx h (dropped w k c sid e) v =
    let c' = (drop_session c sid).0 in
    elim (Bool-cases (drop_session c sid).1) [
      | inl removed ↦
          let one : session_count c ≡ suc (session_count c') =
            ground (arith, removed, drop_count c sid) in
          rw removed (record {
            exact = omega (arith, v.exact, total-insert_old k c c' w.conns e, one);
            within = v.within;
            cap = v.cap;
          })
      | inr unknown ↦
          let same : session_count c ≡ session_count c' =
            ground (arith, unknown, drop_count c sid) in
          rw unknown (record {
            exact = omega (arith, v.exact, total-insert_old k c c' w.conns e, same);
            within = v.within;
            cap = v.cap;
          })
    ]
Step-Conserved mx h (released w n held) v = record {
  exact = omega (arith, v.exact, v.within, held);
  within = omega (arith, v.exact, v.within, held);
  cap = v.cap;
}

-- A server without connections.
abbrev pub idle_server : ℕ → World
idle_server mx = record {
  quota = record { active_sessions = 0; max_sessions = mx };
  conns = [];
  mapped = [];
  holding = 0;
  releasing = 0;
}

-- From an idle server with a maximum below 2^64: however the steps of the tasks interleave, and however
-- often a session is closed, the quota in use is exactly the number of registered sessions, also of
-- connections that have left the map, of tasks that are about to register one, and of tasks that are about
-- to release the unit of one that they removed or could not register; it never passes the configured
-- maximum, and so never wraps below 0.
pub Reach-Conserved : (mx : ℕ) {w : World} → mx < 2 ^ 64 → Reach (idle_server mx) w → Conserved mx w
Reach-Conserved mx h here = record { exact = omega arith; within = omega arith; cap = refl }
Reach-Conserved mx h (next r st) = Step-Conserved mx h st (Reach-Conserved mx h r)
