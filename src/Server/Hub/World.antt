-- ===== src/Server/Hub/World.antt =====
-- The tasks of the server as interleaved steps on the quota and on the connections. A task that has
-- acquired quota holds it until it has registered its session, or lost the race for the session id; a
-- task that removed a session, or lost the race, has one unit to release in a step of its own. The
-- reaper is such steps in a row. Tasks are aborted only where they wait, between two steps, with nothing
-- held: an aborted task takes no further step.
use newppp.Prelude.{ℕ, suc, ◌≡◌, true, false, ◌==◌, if◌then◌else◌, List, [], ◌∷◌, none, some}
use newppp.Prelude.Assoc.{lookup, insert}
use newppp.Server.State.{
  ConnState, try_register_with, drop_session, touch, Quota, try_acquire_session, release_session,
}

abbrev pub without : ℕ → List ℕ → List ℕ
without k [] = []
without k (j ∷ js) = if j == k then without k js else j ∷ without k js

-- Every connection that there has been, by number, and which of them the map of the server has.
pub record World : Type 0 where
  pub quota : Quota
  pub conns : List (ℕ × ConnState)
  pub mapped : List ℕ
  pub holding : ℕ
  pub releasing : ℕ

pub data Step : World → World → Type 0 where
  -- An authenticated connection.
  connected :
      (w : World) (k : ℕ) (c : ConnState)
      → lookup k w.conns ≡ none
      → c.sessions ≡ []
      → Step w (record w { conns = insert k c w.conns; mapped = k ∷ w.mapped })
  -- The connection leaves the map; tasks may still have a handle on it.
  unmapped : (w : World) (k : ℕ) → Step w (record w { mapped = without k w.mapped })
  -- The reaper cancels a connection, or its transport ends.
  cancelled :
      (w : World) (k : ℕ) (c : ConnState)
      → lookup k w.conns ≡ some c
      → Step w (record w {
        conns = insert k (record c { cancelled_tokens = c.token ∷ c.cancelled_tokens }) w.conns;
      })
  acquired :
      (w : World)
      → (try_acquire_session w.quota).1 ≡ true
      → Step w (record w { quota = (try_acquire_session w.quota).0; holding = suc w.holding })
  registered :
      (w : World) (k : ℕ) (c : ConnState) (n sid token now : ℕ)
      → lookup k w.conns ≡ some c
      → w.holding ≡ suc n
      → (try_register_with c sid token now).1 ≡ true
      → Step w
          (record w { conns = insert k (try_register_with c sid token now).0 w.conns; holding = n })
  lost_race :
      (w : World) (k : ℕ) (c : ConnState) (n sid token now : ℕ)
      → lookup k w.conns ≡ some c
      → w.holding ≡ suc n
      → (try_register_with c sid token now).1 ≡ false
      → Step w (record w {
        conns = insert k (try_register_with c sid token now).0 w.conns;
        holding = n;
        releasing = suc w.releasing;
      })
  -- A route for an open session.
  tcp_routed :
      (w : World) (k : ℕ) (c : ConnState) (sid channel : ℕ)
      → lookup k w.conns ≡ some c
      → Step w (record w {
        conns = insert k (record c { tcp_routes = insert sid channel c.tcp_routes }) w.conns;
      })
  udp_routed :
      (w : World) (k : ℕ) (c : ConnState) (sid relay : ℕ)
      → lookup k w.conns ≡ some c
      → Step w (record w {
        conns = insert k (record c { udp_routes = insert sid relay c.udp_routes }) w.conns;
      })
  used :
      (w : World) (k : ℕ) (c : ConnState) (sid now : ℕ)
      → lookup k w.conns ≡ some c
      → Step w (record w { conns = insert k (touch c sid now) w.conns })
  -- The end of a session: a CLOSE or RST frame, a failed dial, the end of a pump, the reaper, or any
  -- repetition; the task goes on to release the quota exactly if `drop_session` answers true.
  dropped :
      (w : World) (k : ℕ) (c : ConnState) (sid : ℕ)
      → lookup k w.conns ≡ some c
      → Step w (record w {
        conns = insert k (drop_session c sid).0 w.conns;
        releasing = if (drop_session c sid).1 then suc w.releasing else w.releasing;
      })
  released :
      (w : World) (n : ℕ)
      → w.releasing ≡ suc n
      → Step w (record w { quota = release_session w.quota; releasing = n })

pub data Reach (s : World) : World → Type 0 where
  here : Reach s s
  next : {t u : World} → Reach s t → Step t u → Reach s u
