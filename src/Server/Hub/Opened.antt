-- ===== src/Server/Hub/Opened.antt =====
-- src/server/hub.rs: what `handle_wt_stream` leaves of the quota and of the sessions.
use newppp.Prelude.{
  ℕ, ◌+◌, ◌^◌, ◌<◌, ◌≡◌, refl, Bool, false, leb, ◌==◌, if◌then◌else◌, List, some, arith, Bool-cases,
  inl, inr, ◌⊎◌,
}
use newppp.Prelude.Assoc.{
  lookup, has, insert, Distinct, lookup-insert, lookup-remove, lookup-none, insert-Distinct,
}
use newppp.Proto.Error.{Result}
use newppp.Proto.Error
use newppp.Proto.OpenError.{OpenError, bad_target}
use newppp.Proto.Frame.{Frame, decode_open}
use newppp.Proto.Frame
use newppp.Server.State.{
  ConnState, session_count, try_register_with, drop_session, Quota, try_acquire_session,
  release_session, close_session,
}
use newppp.Server.Hub.{Outcome, ok, err}
use newppp.Server.Hub.Admit.{handle}
use newppp.Server.Hub.Stream.{
  Reply, silent, open_err, open_ok, give_up, decoded, open_stream, stream_by_type, handle_wt_stream,
}

-- No trace of the attempt.
abbrev pub Unchanged : Quota → ConnState → Quota × ConnState × Reply → Type 0
Unchanged q c r =
    (r.0.active_sessions ≡ q.active_sessions)
    × ((other : ℕ) → lookup other r.1.sessions ≡ lookup other c.sessions)

-- One unit of the quota, and the new session, whose id was free.
abbrev pub Admitted : Quota → ConnState → ℕ → ℕ → ℕ → Quota × ConnState × Reply → Type 0
Admitted q c sid token now r =
    (r.2 ≡ open_ok)
    × (has sid c.sessions ≡ false)
    × (r.0.active_sessions ≡ q.active_sessions + 1)
    × ((other : ℕ)
        → lookup other r.1.sessions
          ≡ (if sid == other then some (handle token now) else lookup other c.sessions))

abbrev taken : Quota → Quota
taken q = record q { active_sessions = q.active_sessions + 1 }

abbrev with_session : ConnState → ℕ → ℕ → ℕ → ConnState
with_session c sid token now = record c {
  last_active = now;
  sessions = insert sid (handle token now) c.sessions;
}

give_up-Unchanged :
    (q : Quota) (c : ConnState) (sid token now : ℕ) (reply : Reply)
    → has sid c.sessions ≡ false
    → Distinct c.sessions
    → q.active_sessions + 1 < 2 ^ 64
    → Unchanged q c (give_up (taken q) (with_session c sid token now) sid reply)
unfolding close_session release_session drop_session
give_up-Unchanged q c sid token now reply free d top = (
  ground (arith, lookup-insert sid sid (handle token now) c.sessions),
  λ other. ground (
    arith,
    lookup-insert sid other (handle token now) c.sessions,
    lookup-none sid c.sessions free,
    lookup-remove sid other (insert sid (handle token now) c.sessions)
        (insert-Distinct sid (handle token now) c.sessions d),
  ),
)

Outcome-cases : (o : Outcome) → (o ≡ ok) ⊎ ((e : OpenError) × (o ≡ err e))
Outcome-cases ok = inl refl
Outcome-cases (err e) = inr (e, refl)

decoded-Admitted :
    (writes : Bool) (dial : List ℕ → ℕ → Outcome) (r : Result (List ℕ × ℕ)) (q : Quota)
    (c : ConnState) (sid token now : ℕ)
    → has sid c.sessions ≡ false
    → Distinct c.sessions
    → q.active_sessions + 1 < 2 ^ 64
    → Unchanged q c (decoded writes dial r (taken q) (with_session c sid token now) sid)
      ⊎ Admitted q c sid token now
          (decoded writes dial r (taken q) (with_session c sid token now) sid)
decoded-Admitted writes dial (Error.err e) q c sid token now free d top =
    inl (give_up-Unchanged q c sid token now (open_err bad_target) free d top)
decoded-Admitted writes dial (Error.ok (host, port)) q c sid token now free d top =
    elim (Outcome-cases (dial host port)) [
      | inr (e, failed) ↦
          rw failed (inl (give_up-Unchanged q c sid token now (open_err e) free d top))
      | inl connected ↦ elim (Bool-cases writes) [
        | inr lost ↦
            rw (connected, lost) (inl (give_up-Unchanged q c sid token now silent free d top))
        | inl sent ↦
            rw (connected, sent)
              (inr
                (refl, free, refl, λ other. lookup-insert sid other (handle token now) c.sessions))
      ]
    ]

module _ (utf8 : List ℕ → Bool) (dial : List ℕ → ℕ → Outcome) (writes : Bool) where
  open_stream-decoded :
      (q : Quota) (c : ConnState) (sid : ℕ) (payload : List ℕ) (token now : ℕ)
      → has sid c.sessions ≡ false
      → leb c.max_per_conn (session_count c) ≡ false
      → leb q.max_sessions q.active_sessions ≡ false
      → open_stream utf8 dial writes q c sid payload token now
        ≡ decoded writes dial
            (decode_open utf8 payload)
            (taken q)
            (with_session c sid token now)
            sid
  unfolding open_stream try_acquire_session try_register_with
  open_stream-decoded q c sid payload token now free room left = rw (free, room, left) refl

  open_stream-Admitted :
      (q : Quota) (c : ConnState) (sid : ℕ) (payload : List ℕ) (token now : ℕ)
      → Distinct c.sessions
      → q.max_sessions < 2 ^ 64
      → Unchanged q c (open_stream utf8 dial writes q c sid payload token now)
        ⊎ Admitted q c sid token now (open_stream utf8 dial writes q c sid payload token now)
  unfolding open_stream try_acquire_session try_register_with
  open_stream-Admitted q c sid payload token now d max_fits =
      elim (Bool-cases (has sid c.sessions)) [
        | inl known ↦ rw known (inl (refl, λ other. refl))
        | inr free ↦ elim (Bool-cases (leb c.max_per_conn (session_count c))) [
          | inl full ↦ rw (free, full) (inl (refl, λ other. refl))
          | inr room ↦ elim (Bool-cases (leb q.max_sessions q.active_sessions)) [
            | inl spent ↦ rw (free, room, spent) (inl (refl, λ other. refl))
            | inr left ↦ rw (open_stream-decoded q c sid payload token now free room left) (
                decoded-Admitted writes dial (decode_open utf8 payload) q c sid token now free d
                  (ground (arith, max_fits)))
          ]
        ]
      ]

  stream_by_type-Admitted :
      (t : Frame.FrameType) (q : Quota) (c : ConnState) (f : Frame) (token now : ℕ)
      → Distinct c.sessions
      → q.max_sessions < 2 ^ 64
      → Unchanged q c (stream_by_type utf8 dial writes t q c f token now)
        ⊎ Admitted q c f.sid token now (stream_by_type utf8 dial writes t q c f token now)
  stream_by_type-Admitted Frame.open_req q c f token now d max_fits =
      open_stream-Admitted q c f.sid f.payload token now d max_fits
  stream_by_type-Admitted _ q c f token now d max_fits = inl (refl, λ other. refl)

  -- A stream either is answered with OPEN_OK, and then its session, whose id was free, is registered and
  -- takes one unit of the quota; or, whatever its first frame, its target and the writing of the answer,
  -- the quota and the sessions are as they were. The maximum is below 2^64, and no session id is
  -- registered twice.
  pub handle_wt_stream-Admitted :
      (f : Frame) (q : Quota) (c : ConnState) (token now : ℕ)
      → Distinct c.sessions
      → q.max_sessions < 2 ^ 64
      → Unchanged q c (handle_wt_stream utf8 dial writes (Error.ok (some f)) q c token now)
        ⊎ Admitted q c f.sid token now
            (handle_wt_stream utf8 dial writes (Error.ok (some f)) q c token now)
  unfolding handle_wt_stream
  handle_wt_stream-Admitted f q c token now d max_fits =
      stream_by_type-Admitted f.ftype q c f token now d max_fits
