-- ===== src/Proto/Mux.antt =====
-- src/proto/mux.rs: how the client and the server of a multiplexed channel handle a frame. Channels and
-- waiters are numbers. What a handler sends, or calls, is the list of its events; the answer of a hook
-- and whether a channel still takes data are arguments.
use Prim.Native.Nat.{bit_and}
use newppp.Prelude.{
  ℕ, ◌≡◌, Bool, true, false, not, ◌==◌, ◌&&◌, if◌then◌else◌, List, [], ◌∷◌, ◌++◌, Option, none,
  some,
}
use newppp.Prelude.Assoc.{lookup, remove}
use newppp.Proto.Error.{Result, ok, err}
use newppp.Proto.OpenError.{OpenError, bad_target, to_code, code_to_open_error}
use newppp.Proto.Addr.{UdpAddr, Reader, new, decode, rest}
use newppp.Proto.Frame.{FrameType, Frame, flag_fin, flag_rst, decode_open}
use newppp.Proto.Frame
pub mod Isolated
pub mod Replies
pub mod Sid
mod Examples

-- The answer to an OPEN or a UDP_ASSOCIATE.
pub data Opening : Type 0 where
  opened : Opening
  refused : OpenError → Opening

pub record OutFrame : Type 0 where
  pub ftype : FrameType
  pub flags : ℕ
  pub sid : ℕ
  pub payload : List ℕ

abbrev pub has_flag : ℕ → ℕ → Bool
has_flag flags flag = not (bit_and flags flag == 0)

-- The client's maps: channels to the pumps, and the waiters for an answer.
pub record MuxInner : Type 0 where
  pub sessions : List (ℕ × ℕ)
  pub udp : List (ℕ × ℕ)
  pub pending_open : List (ℕ × ℕ)
  pub pending_udp : List (ℕ × ℕ)
  pub closed : Bool

-- `teardown_all`: dropping the senders makes the waiters fail.
unfoldable pub teardown_all : MuxInner → MuxInner
teardown_all m = record {
  sessions = [];
  udp = [];
  pending_open = [];
  pending_udp = [];
  closed = true;
}

pub data ClientEvent : Type 0 where
  replied : ℕ → Opening → ClientEvent
  delivered : ℕ → List ℕ → ClientEvent
  delivered_udp : ℕ → UdpAddr → List ℕ → ClientEvent
  commanded : OutFrame → ClientEvent

resolve_udp : Option ℕ → MuxInner → ℕ → Opening → MuxInner × List ClientEvent
resolve_udp none m sid r = (m, [])
resolve_udp (some tx) m sid r =
    (record m { pending_udp = remove sid m.pending_udp }, replied tx r ∷ [])

resolve_open : Option ℕ → MuxInner → ℕ → Opening → MuxInner × List ClientEvent
resolve_open none m sid r = (m, [])
resolve_open (some tx) m sid r =
    (record m { pending_open = remove sid m.pending_open }, replied tx r ∷ [])

-- The waiter may live in either map.
resolve_either : Option ℕ → MuxInner → ℕ → Opening → MuxInner × List ClientEvent
unfolding resolve_open resolve_udp
resolve_either none m sid r = resolve_udp (lookup sid m.pending_udp) m sid r
resolve_either (some tx) m sid r = resolve_open (some tx) m sid r

-- The first half of a DATA frame.
route_data : (ℕ → Bool) → Option ℕ → MuxInner → ℕ → List ℕ → MuxInner × List ClientEvent
route_data takes none m sid payload = (m, [])
route_data takes (some tx) m sid payload =
    if takes tx
    then (m, delivered tx payload ∷ [])
    else (record m { sessions = remove sid m.sessions }, [])

route_udp : Option ℕ → Result (UdpAddr × Reader) → List ClientEvent
route_udp (some tx) (ok (src, r)) = delivered_udp tx src (rest r).0 ∷ []
route_udp _ _ = []

drop_route : Bool → MuxInner → ℕ → MuxInner
drop_route b m sid = if b then record m { sessions = remove sid m.sessions } else m

-- `false`: the connection is not to be torn down.
abbrev pub goes_on : MuxInner × List ClientEvent → MuxInner × List ClientEvent × Bool
goes_on r = (r.0, r.1, false)

module _ (utf8 : List ℕ → Bool) where
  -- `handle_client_frame`; the last component is its answer, whether the connection must be torn down.
  unfoldable pub handle_client_frame :
      (ℕ → Bool) → MuxInner → Frame → MuxInner × List ClientEvent × Bool
  unfolding resolve_either route_data route_udp drop_route
  handle_client_frame takes m f = elim f.ftype [
    | Frame.open_ok ↦ goes_on (resolve_open (lookup f.sid m.pending_open) m f.sid opened)
    | Frame.open_err ↦ goes_on (
        resolve_either (lookup f.sid m.pending_open) m f.sid
          (refused (code_to_open_error f.payload)))
    | Frame.udp_ok ↦ goes_on (resolve_udp (lookup f.sid m.pending_udp) m f.sid opened)
    | Frame.error ↦
        let (m', events) =
          resolve_either (lookup f.sid m.pending_open) m f.sid
            (refused (code_to_open_error f.payload)) in
        (drop_route true m' f.sid, events, false)
    | Frame.data_frame ↦
        let (m', events) = route_data takes (lookup f.sid m.sessions) m f.sid f.payload in
        (drop_route (has_flag f.flags flag_fin) m' f.sid, events, false)
    | Frame.close ↦
        (record m { sessions = remove f.sid m.sessions; udp = remove f.sid m.udp }, [], false)
    | Frame.udp_data ↦ (m, route_udp (lookup f.sid m.udp) (decode utf8 (new f.payload)), false)
    | Frame.pong ↦ (m, [], false)
    | Frame.ping ↦
        (m, commanded (record { ftype = Frame.pong; flags = 0; sid = 0; payload = [] }) ∷ [], false)
    | _ ↦ (m, [], false)
  ]

pub data ServerEvent : Type 0 where
  open_tcp : ℕ → List ℕ → ℕ → ServerEvent
  feed_tcp : ℕ → List ℕ → Bool → Bool → ServerEvent
  close_tcp : ℕ → Bool → ServerEvent
  udp_associate : ℕ → ServerEvent
  udp_feed : ℕ → UdpAddr → List ℕ → ServerEvent
  touch : ℕ → ServerEvent
  sent : OutFrame → ServerEvent

-- The reply to an OPEN or a UDP_ASSOCIATE.
reply : FrameType → ℕ → Opening → ServerEvent
reply t sid opened = sent (record { ftype = t; flags = 0; sid = sid; payload = [] })
reply t sid (refused e) =
    sent (record { ftype = Frame.open_err; flags = 0; sid = sid; payload = to_code e ∷ [] })

open_frame : ℕ → Result (List ℕ × ℕ) → Opening → List ServerEvent
unfolding reply
open_frame sid (ok (host, port)) answer =
    open_tcp sid host port ∷ reply Frame.open_ok sid answer ∷ []
open_frame sid (err e) answer = reply Frame.open_ok sid (refused bad_target) ∷ []

udp_frame : ℕ → Result (UdpAddr × Reader) → List ServerEvent
udp_frame sid (ok (dst, r)) = touch sid ∷ udp_feed sid dst (rest r).0 ∷ []
udp_frame sid (err e) = []

module _ (utf8 : List ℕ → Bool) where
  -- `handle_server_frame`; `answer` is what the hook `open_tcp` or `udp_associate` answers.
  unfoldable pub handle_server_frame : Opening → Frame → List ServerEvent
  unfolding open_frame udp_frame
  handle_server_frame answer f = elim f.ftype [
    | Frame.open_req ↦ open_frame f.sid (decode_open utf8 f.payload) answer
    | Frame.data_frame ↦
        touch f.sid
        ∷ feed_tcp f.sid f.payload (has_flag f.flags flag_fin) (has_flag f.flags flag_rst)
        ∷ []
    | Frame.close ↦
        (if has_flag f.flags flag_fin && not (has_flag f.flags flag_rst)
          then feed_tcp f.sid [] true false ∷ []
          else close_tcp f.sid (has_flag f.flags flag_rst) ∷ [])
    | Frame.ping ↦ sent (record { ftype = Frame.pong; flags = 0; sid = 0; payload = [] }) ∷ []
    | Frame.udp_associate ↦ udp_associate f.sid ∷ reply Frame.udp_ok f.sid answer ∷ []
    | Frame.udp_data ↦ udp_frame f.sid (decode utf8 (new f.payload))
    | Frame.error ↦ close_tcp f.sid true ∷ []
    | _ ↦ []
  ]
