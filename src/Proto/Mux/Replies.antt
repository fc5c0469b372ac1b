-- ===== src/Proto/Mux/Replies.antt =====
-- src/proto/mux.rs: `handle_server_frame` on an OPEN frame, and `handle_client_frame` on the reply.
use newppp.Prelude.{if◌then◌else◌, ℕ, ◌≡◌, refl, Bool, List, [], ◌∷◌, ◌++◌, none, some, arith}
use newppp.Prelude.Assoc.{lookup, remove, Distinct, lookup-remove}
use newppp.Proto.Error.{Result, ok, err}
use newppp.Proto.OpenError.{bad_target, code_to_open_error-to_code}
use newppp.Proto.Frame.{Frame, decode_open, open_req, open_ok}
use newppp.Proto.Mux.{
  MuxInner, OutFrame, Opening, opened, refused, ClientEvent, replied, resolve_open, resolve_either,
  handle_client_frame, ServerEvent, sent, reply, open_frame, handle_server_frame,
}

-- A sent frame as the peer decodes it; its counter and additional data are of no account here.
abbrev pub arrived : OutFrame → Frame
arrived o = record {
  ftype = o.ftype;
  flags = o.flags;
  sid = o.sid;
  counter = 0;
  aad = [];
  payload = o.payload;
}

module _ (utf8 : List ℕ → Bool) (takes : ℕ → Bool) where
  -- The client handles the frames that the server sent, in their order, until one tears the connection
  -- down.
  abbrev pub receive : MuxInner → List ServerEvent → MuxInner × List ClientEvent
  receive m [] = (m, [])
  receive m (sent o ∷ es) =
      let (m1, e1, torn_down) = handle_client_frame utf8 takes m (arrived o) in
      let (m2, e2) = receive m1 es in if torn_down then (m1, e1) else (m2, e1 ++ e2)
  receive m (e ∷ es) = receive m es

  -- What the client is to hear: a payload that does not decode is a bad target.
  abbrev pub heard : Result (List ℕ × ℕ) → Opening → Opening
  heard (ok target) answer = answer
  heard (err e) answer = refused bad_target

  receive-reply :
      (m : MuxInner) (sid w : ℕ) (answer : Opening)
      → lookup sid m.pending_open ≡ some w
      → receive m (reply open_ok sid answer ∷ [])
        ≡ (record m { pending_open = remove sid m.pending_open }, replied w answer ∷ [])
  unfolding reply handle_client_frame resolve_either resolve_open
  receive-reply m sid w opened e = rw e
  receive-reply m sid w (refused x) e = rw (e, code_to_open_error-to_code x [])

  receive-open_frame :
      (m : MuxInner) (sid w : ℕ) (target : Result (List ℕ × ℕ)) (answer : Opening)
      → lookup sid m.pending_open ≡ some w
      → receive m (open_frame sid target answer) ≡ (
        record m { pending_open = remove sid m.pending_open },
        replied w (heard target answer) ∷ [],
      )
  unfolding open_frame
  receive-open_frame m sid w (ok (host, port)) answer e = receive-reply m sid w answer e
  receive-open_frame m sid w (err x) answer e = receive-reply m sid w (refused bad_target) e

  -- When the client handles what the server sends for an OPEN frame, the one event is that its waiter
  -- for the session gets the hook's answer, or `bad_target` where the payload does not decode; the
  -- waiter is then gone.
  pub receive-handle_server_frame :
      (m : MuxInner) (f : Frame) (w : ℕ) (answer : Opening)
      → f.ftype ≡ open_req
      → Distinct m.pending_open
      → lookup f.sid m.pending_open ≡ some w
      → ((receive m (handle_server_frame utf8 answer f)).1
          ≡ replied w (heard (decode_open utf8 f.payload) answer) ∷ [])
        × (lookup f.sid (receive m (handle_server_frame utf8 answer f)).0.pending_open ≡ none)
  unfolding handle_server_frame
  receive-handle_server_frame m f w answer t v e =
      rw (t, receive-open_frame m f.sid w (decode_open utf8 f.payload) answer e)
        (refl, ground (arith, lookup-remove f.sid f.sid m.pending_open v))
