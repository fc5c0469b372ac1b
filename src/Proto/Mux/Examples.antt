-- ===== src/Proto/Mux/Examples.antt =====
-- A client with two sessions.
use newppp.Prelude.{
  some, ℕ, ◌+◌, ◌%◌, ◌^◌, ◌<◌, ◌≢◌, ◌≡◌, refl, Bool, true, false, List, [], ◌∷◌, none, arith,
}
use newppp.Prelude.Assoc.{lookup, has}
use newppp.Proto.OpenError.{limit}
use newppp.Proto.Frame.{Frame, open_req, close, decode_open}
use newppp.Proto.Mux.{
  MuxInner, refused, replied, handle_client_frame, handle_server_frame, teardown_all,
}
use newppp.Proto.Mux.Isolated.{SameFor, handle_client_frame-SameFor}
use newppp.Proto.Mux.Sid.{search_sid, alloc_sid, alloc_wt_sid, alloc_sid_finds}
use newppp.Proto.Mux.Replies.{receive, heard, receive-handle_server_frame}

abbrev any_utf8 : List ℕ → Bool
any_utf8 b = true

abbrev any_channel : ℕ → Bool
any_channel tx = true

abbrev client : MuxInner
client = record {
  sessions = (5, 50) ∷ (6, 60) ∷ [];
  udp = [];
  pending_open = (6, 61) ∷ [];
  pending_udp = [];
  closed = false;
}

abbrev close_five : Frame
close_five = record { ftype = close; flags = 0; sid = 5; counter = 1; aad = []; payload = [] }

abbrev open_six : Frame
open_six = record {
  ftype = open_req;
  flags = 0;
  sid = 6;
  counter = 2;
  aad = [];
  payload = 1 ∷ 0 ∷ b'a' ∷ 80 ∷ 0 ∷ [];
}

handle_client_frame-SameFor_example :
    SameFor 6 client (handle_client_frame any_utf8 any_channel client close_five).0
    × ((handle_client_frame any_utf8 any_channel client close_five).2 ≡ false)
handle_client_frame-SameFor_example =
    handle_client_frame-SameFor any_utf8 any_channel client close_five 6 (λ e. omega (arith, e))

a_waiter : lookup 6 client.pending_open ≡ some 61
unfolding lookup
a_waiter = refl

receive-handle_server_frame_example :
    ((receive any_utf8 any_channel client (handle_server_frame any_utf8 (refused limit) open_six)).1
      ≡ replied 61
          (heard any_utf8 any_channel (decode_open any_utf8 open_six.payload) (refused limit))
        ∷ [])
    × (lookup 6
          (receive any_utf8 any_channel client
            (handle_server_frame any_utf8 (refused limit) open_six)).0.pending_open
        ≡ none)
receive-handle_server_frame_example =
    receive-handle_server_frame any_utf8 any_channel client open_six 61 (refused limit) refl
      (tt, tt) a_waiter

no_session_after_teardown : lookup 5 (teardown_all client).sessions ≡ none
unfolding teardown_all lookup
no_session_after_teardown = refl

alloc_sid_finds_example :
    (v : ℕ) × (alloc_sid 4 client 5 ≡ some ((v + 1) % 2 ^ 32, v))
    × (v ≢ 0)
    × (v < 2 ^ 32)
    × (has v client.sessions ≡ false)
    × (has v client.udp ≡ false)
alloc_sid_finds_example = alloc_sid_finds client 4 5 (omega arith) (omega arith) (omega arith)

-- 5 and 6 are taken.
the_next_is_seven : alloc_sid 4 client 5 ≡ some (8, 7)
unfolding alloc_sid search_sid has
the_next_is_seven = refl

-- The counter wraps around, and 0 is passed over.
after_the_last : alloc_wt_sid 3 ((4294967295, 9) ∷ []) 4294967295 ≡ some (2, 1)
unfolding alloc_wt_sid search_sid has
after_the_last = refl
