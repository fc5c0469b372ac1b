-- ===== src/Server/Hub.antt =====
-- The admission and the end of sessions in src/server/hub.rs: `Hooks::admit`, the quota side of
-- `open_tcp`, `udp_associate`, `feed_tcp`, `close_tcp` and of the pumps. Dialling, sockets and channels
-- are outside: whether they work is an argument.
use newppp.Prelude.{
  ℕ, zero, suc, ◌+◌, ◌-◌, ◌%◌, ◌^◌, ◌≤◌, ◌<◌, ◌≡◌, ◌≢◌, Bool, true, false, ltb, leb, ◌==◌, ◌||◌,
  if◌then◌else◌, List, [], ◌∷◌, ◌++◌, Option, none, some, length,
}
use newppp.Prelude.Assoc.{lookup, has, insert}
use newppp.Proto.OpenError.{OpenError, denied, limit, dial_failed}
use newppp.Server.State.{
  SessionHandle, ConnState, session_count, try_register_with, drop_session, touch, Quota,
  try_acquire_session, release_session, close_session, reap_conn,
}
pub mod Admit
pub mod World
pub mod Conserved
pub mod Balance
pub mod Reaper
pub mod Stream
pub mod Opened
mod Examples

pub data Outcome : Type 0 where
  ok : Outcome
  err : OpenError → Outcome

-- `admit`, and the same steps in `udp_associate`, up to the registration: the quota, the connection and
-- the answer. `known` says whether the session id is in use.
admit_with : Bool → Quota → ConnState → ℕ → ℕ → ℕ → Quota × ConnState × Outcome
admit_with known q c sid token now =
    if known
    then (q, c, err denied)
    else if leb c.max_per_conn (session_count c)
    then (q, c, err limit)
    else if (try_acquire_session q).1
    then (let (c', registered) = try_register_with c sid token now in
        let q' = (try_acquire_session q).0 in
        if registered then (q', c', ok) else (release_session q', c', err denied))
    else (q, c, err limit)

unfoldable pub admit : Quota → ConnState → ℕ → ℕ → ℕ → Quota × ConnState × Outcome
unfolding admit_with
admit q c sid token now = admit_with (has sid c.sessions) q c sid token now

-- `open_tcp`: `dial` is what dialling the target answers. On success the pumps are spawned, and the
-- route of the session is a new channel.
after_admit : Outcome → Quota × ConnState × Outcome → ℕ → ℕ → Quota × ConnState × Outcome
after_admit dial (q, c, err e) sid channel = (q, c, err e)
after_admit (err e) (q, c, ok) sid channel =
    ((close_session q c sid).0, (close_session q c sid).1, err e)
after_admit ok (q, c, ok) sid channel =
    (q, record c { tcp_routes = insert sid channel c.tcp_routes }, ok)

unfoldable pub open_tcp : Outcome → Quota → ConnState → ℕ → ℕ → ℕ → ℕ → Quota × ConnState × Outcome
unfolding after_admit
open_tcp dial q c sid token channel now = after_admit dial (admit q c sid token now) sid channel

after_register : Quota × ConnState × Outcome → ℕ → ℕ → Quota × ConnState × Outcome
after_register (q, c, err e) sid relay = (q, c, err e)
after_register (q, c, ok) sid relay =
    (q, record c { udp_routes = insert sid relay c.udp_routes }, ok)

-- `udp_associate`: the session id must be free among the relays too.
unfoldable pub udp_associate : Quota → ConnState → ℕ → ℕ → ℕ → ℕ → Quota × ConnState × Outcome
unfolding admit_with after_register
udp_associate q c sid token relay now =
    after_register (admit_with (has sid c.sessions || has sid c.udp_routes) q c sid token now) sid
      relay

-- `feed_tcp`: what goes into the session's channel, if anything. `open` says of a channel whether its
-- pump still takes data.
feed_route : (ℕ → Bool) → Quota → ConnState → ℕ → Option ℕ → Quota × ConnState × Option ℕ
feed_route open_channel q c sid none = (q, c, none)
feed_route open_channel q c sid (some tx) =
    if open_channel tx
    then (q, c, some tx)
    else ((close_session q c sid).0, (close_session q c sid).1, none)

unfoldable pub feed_tcp :
    (ℕ → Bool) → Quota → ConnState → ℕ → Bool → ℕ → Quota × ConnState × Option ℕ
unfolding feed_route
feed_tcp open_channel q c sid rst now =
    if rst
    then ((close_session q c sid).0, (close_session q c sid).1, none)
    else feed_route open_channel q (touch c sid now) sid (lookup sid c.tcp_routes)

-- `close_tcp`, and the end of a pump or of a UDP relay.
unfoldable pub close_tcp : Quota → ConnState → ℕ → Quota × ConnState
close_tcp q c sid = close_session q c sid
