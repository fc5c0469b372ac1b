-- ===== src/Server/State/Reap.antt =====
-- src/server/state.rs: `reap_idle` over all connections, and `sweep_conns`. The connections are removed
-- after the iteration; each has its own key, so here each is left out at its turn.
use newppp.Prelude.{
  ℕ, ◌≡◌, refl, ◌∙◌, false, ltb, ◌==◌, if◌then◌else◌, List, [], ◌∷◌, Option, none, some, arith,
  Bool-cases, inl, inr, ==→eq,
}
use newppp.Prelude.Assoc.{lookup, has, remove, Distinct, has-Fresh, lookup-remove, remove-Distinct}
use newppp.Prelude.Pigeon.{mem}
use newppp.Server.State.{
  SessionHandle, ConnState, idle_for, Quota, drop_session, close_session, close_all, expired,
  reap_conn,
}

-- The quota, and the connections that stay.
unfoldable pub reap_idle : Quota → List (ℕ × ConnState) → ℕ → ℕ → Quota × List (ℕ × ConnState)
reap_idle q [] now idle = (q, [])
reap_idle q ((id, c) ∷ conns) now idle =
    let (q', c', dead) = reap_conn q c now idle in
    let (q'', conns') = reap_idle q' conns now idle in
    (q'', if dead then conns' else (id, c') ∷ conns')

-- Whether the connection's own token was cancelled.
unfoldable pub sweep_conns : List (ℕ × ConnState) → List (ℕ × ConnState)
sweep_conns [] = []
sweep_conns ((id, c) ∷ conns) =
    let rest = sweep_conns conns in if mem c.token c.cancelled_tokens then rest else (id, c) ∷ rest

-- A session that is not idle for too long.
abbrev pub keep_active : ℕ → ℕ → Option SessionHandle → Option SessionHandle
keep_active now idle none = none
keep_active now idle (some h) = if ltb idle (idle_for now h.last_active) then none else some h

close_session-sessions :
    (q : Quota) (c : ConnState) (sid : ℕ)
    → (close_session q c sid).1.sessions ≡ remove sid c.sessions
unfolding close_session drop_session
close_session-sessions q c sid = refl

lookup-close_all :
    (sids : List ℕ) (q : Quota) (c : ConnState) (k : ℕ)
    → Distinct c.sessions
    → lookup k (close_all q c sids).1.sessions ≡ (if mem k sids then none else lookup k c.sessions)
unfolding close_all mem
lookup-close_all [] q c k d = refl
lookup-close_all (sid ∷ sids) q c k d =
    let one = close_session-sessions q c sid in
    let d' : Distinct (close_session q c sid).1.sessions =
      rw one (remove-Distinct sid c.sessions d) in
    let rest = lookup-close_all sids (close_session q c sid).0 (close_session q c sid).1 k d' in
    rest ∙ rw one (ground (arith, lookup-remove sid k c.sessions d))

mem-expired :
    (now idle k : ℕ) (m : List (ℕ × SessionHandle))
    → has k m ≡ false
    → mem k (expired now idle m) ≡ false
unfolding expired mem has
mem-expired now idle k [] h = refl
mem-expired now idle k ((j, w) ∷ m) h = ground (arith, mem-expired now idle k m)

lookup-expired :
    (now idle k : ℕ) (m : List (ℕ × SessionHandle))
    → Distinct m
    → (if mem k (expired now idle m) then none else lookup k m) ≡ keep_active now idle (lookup k m)
unfolding expired mem lookup
lookup-expired now idle k [] d = refl
lookup-expired now idle k ((j, w) ∷ m) d = elim (Bool-cases (j == k)) [
  | inl this ↦
      let gone : mem k (expired now idle m) ≡ false =
        mem-expired now idle k m (rw (==→eq j k this) at (has-Fresh j m d.0)) in
      elim (Bool-cases (ltb idle (idle_for now w.last_active))) [
        | inl idle_one ↦ rw (this, idle_one, this) refl
        | inr active ↦ rw (this, active, gone) refl
      ]
  | inr other ↦ elim (Bool-cases (ltb idle (idle_for now w.last_active))) [
    | inl idle_one ↦ rw (other, idle_one, other) (lookup-expired now idle k m d.1)
    | inr active ↦ rw (other, active) (lookup-expired now idle k m d.1)
  ]
]

-- One connection's turn keeps just its active sessions.
pub lookup-reap_conn :
    (q : Quota) (c : ConnState) (now idle k : ℕ)
    → Distinct c.sessions
    → lookup k (reap_conn q c now idle).1.sessions ≡ keep_active now idle (lookup k c.sessions)
unfolding reap_conn
lookup-reap_conn q c now idle k d =
    let all =
      lookup-close_all (expired now idle c.sessions) q c k d
      ∙ lookup-expired now idle k c.sessions d in
    ground (arith, all)
