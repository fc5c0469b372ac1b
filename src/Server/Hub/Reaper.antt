-- ===== src/Server/Hub/Reaper.antt =====
-- src/server/state.rs: what `reap_idle` leaves of the connections, and of the quota.
use newppp.Prelude.{
  ℕ, ◌+◌, ◌^◌, ◌≤◌, ◌<◌, ◌≡◌, refl, ap, true, List, [], ◌∷◌, length, arith, Bool-cases, inl, inr,
  ◌⊎◌, All, ltb, ◌*◌, ◌&&◌,
}
use newppp.Prelude.Assoc.{lookup, Distinct}
use newppp.Server.State.{
  ConnState, session_count, SessionHandle, idle_for, Quota, reap_conn, is_empty, close_all, expired,
}
use newppp.Server.State.Reap.{reap_idle, keep_active, lookup-reap_conn}
use newppp.Server.Hub.Conserved.{total}
use newppp.Server.Hub.Balance.{reap-Balanced}

-- The active sessions of a connection, and no others.
abbrev pub KeepsActive : ℕ → ℕ → ConnState → List (ℕ × SessionHandle) → Type 0
KeepsActive now idle c sessions =
    (k : ℕ) → lookup k sessions ≡ keep_active now idle (lookup k c.sessions)

-- The connections in their order: each is gone and had no active session, or it has these left.
abbrev pub Reaped : ℕ → ℕ → List (ℕ × ConnState) → List (ℕ × ConnState) → Type 0
Reaped now idle [] left = left ≡ []
Reaped now idle ((id, c) ∷ conns) left =
    (KeepsActive now idle c [] × Reaped now idle conns left)
    ⊎ ((c' : ConnState) × (rest : List (ℕ × ConnState)) × (left ≡ (id, c') ∷ rest)
        × KeepsActive now idle c c'.sessions
        × Reaped now idle conns rest)

is_empty-nil : (m : List (ℕ × SessionHandle)) → is_empty m ≡ true → m ≡ []
is_empty-nil [] h = refl
is_empty-nil (e ∷ m) h = absurd (cc h)

dead-empty :
    (q : Quota) (c : ConnState) (now idle : ℕ)
    → (reap_conn q c now idle).2 ≡ true
    → (reap_conn q c now idle).1.sessions ≡ []
unfolding reap_conn
dead-empty q c now idle e =
    let c' = (close_all q c (expired now idle c.sessions)).1 in
    elim (Bool-cases (is_empty c'.sessions && ltb (idle * 3) (idle_for now c'.last_active))) [
      | inl dead ↦ rw dead (is_empty-nil c'.sessions (ground arith))
      | inr alive ↦ absurd (ground arith)
    ]

reap_idle-Reaped :
    (conns : List (ℕ × ConnState)) (q : Quota) (now idle : ℕ)
    → All (λ (e : ℕ × ConnState). Distinct e.1.sessions) conns
    → Reaped now idle conns (reap_idle q conns now idle).1
unfolding reap_idle
reap_idle-Reaped [] q now idle d = refl
reap_idle-Reaped ((id, c) ∷ conns) q now idle d =
    let rest = reap_idle-Reaped conns (reap_conn q c now idle).0 now idle d.1 in
    let kept : KeepsActive now idle c (reap_conn q c now idle).1.sessions =
      λ k. lookup-reap_conn q c now idle k d.0 in
    elim (Bool-cases (reap_conn q c now idle).2) [
      | inl dead ↦ rw dead (inl (rw (dead-empty q c now idle dead) at kept, rest))
      | inr alive ↦ rw alive (
          inr (
            (reap_conn q c now idle).1,
            (reap_idle (reap_conn q c now idle).0 conns now idle).1,
            refl,
            kept,
            rest,
          ))
    ]

reap_idle-total :
    (conns : List (ℕ × ConnState)) (q : Quota) (now idle : ℕ)
    → total conns ≤ q.active_sessions
    → q.active_sessions < 2 ^ 64
    → (reap_idle q conns now idle).0.active_sessions + total conns
      ≡ q.active_sessions + total (reap_idle q conns now idle).1
unfolding reap_idle
reap_idle-total [] q now idle h top = refl
reap_idle-total ((id, c) ∷ conns) q now idle h top =
    let one = reap-Balanced q c now idle (omega arith) top in
    let rest =
      reap_idle-total conns (reap_conn q c now idle).0 now idle (omega (arith, one.moved))
        (omega (arith, one.fewer)) in
    elim (Bool-cases (reap_conn q c now idle).2) [
      | inl dead ↦
          let gone : session_count (reap_conn q c now idle).1 ≡ 0 =
            ap length (dead-empty q c now idle dead) in
          rw dead (omega (arith, one.moved, rest, gone))
      | inr alive ↦ rw alive (omega (arith, one.moved, rest))
    ]

-- After `reap_idle`, each connection is gone, and had no session that was active within `idle`, or it
-- has just its sessions that were; and the quota in use has fallen by just as many as the sessions
-- have. The session ids of a connection are distinct, and the quota counts at least the sessions.
pub reap_idle_exact :
    (conns : List (ℕ × ConnState)) (q : Quota) (now idle : ℕ)
    → All (λ (e : ℕ × ConnState). Distinct e.1.sessions) conns
    → total conns ≤ q.active_sessions
    → q.active_sessions < 2 ^ 64
    → Reaped now idle conns (reap_idle q conns now idle).1
      × ((reap_idle q conns now idle).0.active_sessions + total conns
          ≡ q.active_sessions + total (reap_idle q conns now idle).1)
reap_idle_exact conns q now idle d h top =
    (reap_idle-Reaped conns q now idle d, reap_idle-total conns q now idle h top)
