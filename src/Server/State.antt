-- ===== src/Server/State.antt =====
-- src/server/state.rs: the sessions of a connection, the server-wide session quota and the idle reaper.
-- `now_millis` is an argument. A cancellation token is a number, and `cancelled_tokens` lists those
-- that were cancelled; channels and sockets are numbers too.
use newppp.Prelude.{
  ℕ, zero, suc, ◌+◌, ◌-◌, ◌*◌, ◌%◌, ◌^◌, ◌≤◌, ◌<◌, ◌≡◌, Bool, true, false, not, ltb, leb, ◌==◌,
  ◌&&◌, if◌then◌else◌, List, [], ◌∷◌, ◌++◌, Option, none, some, length,
}
use newppp.Prelude.Assoc.{lookup, has, insert, remove, retain}
pub mod Sessions
pub mod Nonce
pub mod Dns
pub mod Reap
mod Tests
mod Examples

pub record SessionHandle : Type 0 where
  pub token : ℕ
  pub last_active : ℕ

pub record ConnState : Type 0 where
  pub id : ℕ
  pub token : ℕ
  pub sessions : List (ℕ × SessionHandle)
  pub tcp_routes : List (ℕ × ℕ)
  pub udp_routes : List (ℕ × ℕ)
  pub max_per_conn : ℕ
  pub last_active : ℕ
  pub cancelled_tokens : List ℕ

-- `now.saturating_sub(last)`; the clock is monotonic and starts at 0.
abbrev pub idle_for : ℕ → ℕ → ℕ
idle_for now last = now - last

abbrev pub session_count : ConnState → ℕ
session_count c = length c.sessions

-- Whether a handle was registered: not if the session id is taken.
unfoldable pub try_register_with : ConnState → ℕ → ℕ → ℕ → ConnState × Bool
try_register_with c sid token now =
    if has sid c.sessions then (record c { last_active = now }, false) else (
      record c {
        last_active = now;
        sessions = insert sid (record { token = token; last_active = now }) c.sessions;
      },
      true,
    )

-- The tokens that removing an entry cancels.
abbrev relay_token : Option ℕ → List ℕ
relay_token none = []
relay_token (some t) = t ∷ []

abbrev handle_token : Option SessionHandle → List ℕ
handle_token none = []
handle_token (some h) = h.token ∷ []

abbrev found : Option SessionHandle → Bool
found none = false
found (some h) = true

-- Whether a registered handle was removed, so that its quota is to be released.
unfoldable pub drop_session : ConnState → ℕ → ConnState × Bool
drop_session c sid = (
  record c {
    tcp_routes = remove sid c.tcp_routes;
    udp_routes = remove sid c.udp_routes;
    sessions = remove sid c.sessions;
    cancelled_tokens =
        relay_token (lookup sid c.udp_routes)
        ++ (handle_token (lookup sid c.sessions) ++ c.cancelled_tokens);
  },
  found (lookup sid c.sessions),
)

touched : ℕ → ℕ → Option SessionHandle → List (ℕ × SessionHandle) → List (ℕ × SessionHandle)
touched sid now none m = m
touched sid now (some h) m = insert sid (record h { last_active = now }) m

unfoldable pub touch : ConnState → ℕ → ℕ → ConnState
unfolding touched
touch c sid now = record c {
  last_active = now;
  sessions = touched sid now (lookup sid c.sessions) c.sessions;
}

-- The server's quota of sessions.
pub record Quota : Type 0 where
  pub active_sessions : ℕ
  pub max_sessions : ℕ

unfoldable pub try_acquire_session : Quota → Quota × Bool
try_acquire_session q =
    if leb q.max_sessions q.active_sessions
    then (q, false)
    else (record q { active_sessions = q.active_sessions + 1 }, true)

-- `fetch_sub(1)`, which wraps; that there is one to release is asserted in debug builds only.
unfoldable pub release_session : Quota → Quota
release_session q = record q { active_sessions = (q.active_sessions + 2 ^ 64 - 1) % 2 ^ 64 }

-- `if c.drop_session(sid) { st.release_session() }`.
unfoldable pub close_session : Quota → ConnState → ℕ → Quota × ConnState
close_session q c sid =
    let (c', dropped) = drop_session c sid in (if dropped then release_session q else q, c')

-- The sessions idle for longer than `idle`.
unfoldable pub expired : ℕ → ℕ → List (ℕ × SessionHandle) → List ℕ
expired now idle [] = []
expired now idle ((sid, h) ∷ m) =
    let rest = expired now idle m in
    if ltb idle (idle_for now h.last_active) then sid ∷ rest else rest

unfoldable pub close_all : Quota → ConnState → List ℕ → Quota × ConnState
close_all q c [] = (q, c)
close_all q c (sid ∷ sids) = close_all (close_session q c sid).0 (close_session q c sid).1 sids

abbrev pub is_empty : List (ℕ × SessionHandle) → Bool
is_empty [] = true
is_empty (h ∷ hs) = false

-- One connection's turn in `reap_idle`: its idle sessions are closed, and a connection without
-- sessions that is idle three times as long is cancelled. Whether it is to leave the map.
unfoldable pub reap_conn : Quota → ConnState → ℕ → ℕ → Quota × ConnState × Bool
unfolding expired close_all
reap_conn q c now idle =
    let (q', c') = close_all q c (expired now idle c.sessions) in
    if is_empty c'.sessions && ltb (idle * 3) (idle_for now c'.last_active)
    then (q', record c' { cancelled_tokens = c'.token ∷ c'.cancelled_tokens }, true)
    else (q', c', false)
