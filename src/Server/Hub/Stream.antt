-- ===== src/Server/Hub/Stream.antt =====
-- src/server/hub.rs: `handle_wt_stream` up to its pumps, a TCP session on a WebTransport stream of its
-- own. The first frame, the answer of dialling and whether OPEN_OK could be written are arguments.
use newppp.Prelude.{ℕ, Bool, not, leb, if◌then◌else◌, List, Option, some}
use newppp.Prelude.Assoc.{has}
use newppp.Proto.Error.{Result}
use newppp.Proto.Error
use newppp.Proto.OpenError.{OpenError, denied, limit, bad_target}
use newppp.Proto.Frame.{Frame, decode_open}
use newppp.Proto.Frame
use newppp.Server.State.{
  ConnState, session_count, try_register_with, Quota, try_acquire_session, release_session,
  close_session,
}
use newppp.Server.Hub.{Outcome, ok, err}

-- What the stream carries back.
pub data Reply : Type 0 where
  silent : Reply
  open_err : OpenError → Reply
  open_ok : Reply

-- The end of a session that did not come about.
abbrev pub give_up : Quota → ConnState → ℕ → Reply → Quota × ConnState × Reply
give_up q c sid reply = ((close_session q c sid).0, (close_session q c sid).1, reply)

abbrev pub dialled : Bool → Outcome → Quota → ConnState → ℕ → Quota × ConnState × Reply
dialled writes (err e) q c sid = give_up q c sid (open_err e)
dialled writes ok q c sid = if writes then (q, c, open_ok) else give_up q c sid silent

-- `dial` answers for a host and a port.
abbrev pub decoded :
    Bool
    → (List ℕ → ℕ → Outcome)
    → Result (List ℕ × ℕ)
    → Quota
    → ConnState
    → ℕ
    → Quota × ConnState × Reply
decoded writes dial (Error.err e) q c sid = give_up q c sid (open_err bad_target)
decoded writes dial (Error.ok (host, port)) q c sid = dialled writes (dial host port) q c sid

module _ (utf8 : List ℕ → Bool) (dial : List ℕ → ℕ → Outcome) (writes : Bool) where
  unfoldable pub open_stream : Quota → ConnState → ℕ → List ℕ → ℕ → ℕ → Quota × ConnState × Reply
  open_stream q c sid payload token now =
      if has sid c.sessions
      then (q, c, silent)
      else if leb c.max_per_conn (session_count c)
      then (q, c, open_err limit)
      else if not (try_acquire_session q).1
      then (q, c, open_err limit)
      else (let (c', registered) = try_register_with c sid token now in
          let q' = (try_acquire_session q).0 in
          if registered
          then decoded writes dial (decode_open utf8 payload) q' c' sid
          else (release_session q', c', open_err denied))

  abbrev pub stream_by_type :
      Frame.FrameType → Quota → ConnState → Frame → ℕ → ℕ → Quota × ConnState × Reply
  stream_by_type Frame.open_req q c f token now = open_stream q c f.sid f.payload token now
  stream_by_type _ q c f token now = (q, c, silent)

  -- What the first read of the stream answered.
  unfoldable pub handle_wt_stream :
      Result (Option Frame) → Quota → ConnState → ℕ → ℕ → Quota × ConnState × Reply
  handle_wt_stream (Error.ok (some f)) q c token now = stream_by_type f.ftype q c f token now
  handle_wt_stream _ q c token now = (q, c, silent)
