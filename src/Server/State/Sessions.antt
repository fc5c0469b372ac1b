-- ===== src/Server/State/Sessions.antt =====
-- Registering and closing the sessions of one connection.
use newppp.Prelude.{
  ℕ, suc, ◌≡◌, refl, sym, ◌∙◌, true, false, ◌==◌, if◌then◌else◌, List, [], ◌∷◌, Option, none, some,
  length, arith, Bool-cases, inl, inr,
}
use newppp.Prelude.Assoc.{
  lookup, has, insert, Distinct, length-insert, length-remove, insert-Distinct, remove-Distinct,
  has-insert, lookup-remove,
}
use newppp.Server.State.{
  SessionHandle, ConnState, session_count, try_register_with, drop_session, found, touch, touched,
}

-- The maps of a connection have no key twice.
pub record IsConn (c : ConnState) : Type 0 where
  pub sessions : Distinct c.sessions
  pub tcp : Distinct c.tcp_routes
  pub udp : Distinct c.udp_routes

pub register-IsConn :
    (c : ConnState) (sid token now : ℕ) → IsConn c → IsConn (try_register_with c sid token now).0
unfolding try_register_with
register-IsConn c sid token now v = elim (Bool-cases (has sid c.sessions)) [
  | inl taken ↦ rw taken (record { sessions = v.sessions; tcp = v.tcp; udp = v.udp })
  | inr free ↦
      rw free (record {
        sessions = insert-Distinct sid _ c.sessions v.sessions;
        tcp = v.tcp;
        udp = v.udp;
      })
]

pub drop-IsConn : (c : ConnState) (sid : ℕ) → IsConn c → IsConn (drop_session c sid).0
unfolding drop_session
drop-IsConn c sid v = record {
  sessions = remove-Distinct sid c.sessions v.sessions;
  tcp = remove-Distinct sid c.tcp_routes v.tcp;
  udp = remove-Distinct sid c.udp_routes v.udp;
}

-- A registration is counted exactly if it succeeds.
pub register_count :
    (c : ConnState) (sid token now : ℕ)
    → session_count (try_register_with c sid token now).0
      ≡ (if (try_register_with c sid token now).1 then suc (session_count c) else session_count c)
unfolding try_register_with
register_count c sid token now =
    ground (arith, length-insert sid (record { token = token; last_active = now }) c.sessions)

found-has : (sid : ℕ) (m : List (ℕ × SessionHandle)) → found (lookup sid m) ≡ has sid m
unfolding lookup has
found-has sid [] = refl
found-has sid ((j, h) ∷ m) = ground (arith, found-has sid m)

-- Closing a session takes one from the count exactly if it answers that it removed a handle.
pub drop_count :
    (c : ConnState) (sid : ℕ)
    → session_count c ≡ (
        if (drop_session c sid).1
        then suc (session_count (drop_session c sid).0)
        else session_count (drop_session c sid).0)
unfolding drop_session
drop_count c sid = ground (arith, length-remove sid c.sessions, found-has sid c.sessions)

-- With no key twice in its maps: after `drop_session` the connection knows nothing of the session
-- id, in none of its three maps; a second call answers `false`; and every other session id is where
-- it was.
pub drop_session_clears :
    (c : ConnState) (sid other : ℕ)
    → IsConn c
    → ((drop_session (drop_session c sid).0 sid).1 ≡ false)
      × (lookup other (drop_session c sid).0.sessions
          ≡ (if sid == other then none else lookup other c.sessions))
      × (lookup other (drop_session c sid).0.tcp_routes
          ≡ (if sid == other then none else lookup other c.tcp_routes))
      × (lookup other (drop_session c sid).0.udp_routes
          ≡ (if sid == other then none else lookup other c.udp_routes))
unfolding drop_session
drop_session_clears c sid other v = (
  ground (arith, lookup-remove sid sid c.sessions v.sessions),
  lookup-remove sid other c.sessions v.sessions,
  lookup-remove sid other c.tcp_routes v.tcp,
  lookup-remove sid other c.udp_routes v.udp,
)

-- A session id can be registered once: until it is dropped, a second registration is refused and
-- leaves the handle of the first.
pub register_twice :
    (c : ConnState) (sid t1 t2 n1 n2 : ℕ)
    → let c1 = (try_register_with c sid t1 n1).0 in
      ((try_register_with c1 sid t2 n2).1 ≡ false)
      × ((try_register_with c1 sid t2 n2).0.sessions ≡ c1.sessions)
unfolding try_register_with
register_twice c sid t1 t2 n1 n2 = elim (Bool-cases (has sid c.sessions)) [
  | inl taken ↦ (rw (taken, taken), rw (taken, taken))
  | inr free ↦
      let h : SessionHandle = record { token = t1; last_active = n1 } in
      let there : has sid (insert sid h c.sessions) ≡ true =
        ground (arith, has-insert sid sid h c.sessions) in
      (rw (free, there), rw (free, there))
]

touched_count :
    (sid now : ℕ) (o : Option SessionHandle) (m : List (ℕ × SessionHandle))
    → lookup sid m ≡ o
    → length (touched sid now o m) ≡ length m
unfolding touched
touched_count sid now none m e = refl
touched_count sid now (some h) m e =
    let here : has sid m ≡ true = sym (found-has sid m) ∙ rw e in
    length-insert sid (record h { last_active = now }) m ∙ rw here

pub touch_count : (c : ConnState) (sid now : ℕ) → session_count (touch c sid now) ≡ session_count c
unfolding touch
touch_count c sid now = touched_count sid now (lookup sid c.sessions) c.sessions refl
