-- ===== src/Proto/Adapter.antt =====
-- src/proto/stream.rs: `StreamAsRead`. The stream is the list of what its polls answer; behind it, the
-- stream has ended.
use newppp.Prelude.{
  ℕ, suc, ◌+◌, ◌≤◌, ◌<◌, ◌≡◌, refl, sym, ap, ◌∙◌, Bool, true, false, if◌then◌else◌, List, [], ◌∷◌,
  ◌++◌, length, take, drop, arith, All, append_assoc, length-append, length-drop, inl, inr, ◌⊎◌,
  zero, ◌-◌,
}
pub mod Delivered
mod Examples

-- `Pending`, `Ready(Some(Ok(b)))` and `Ready(Some(Err(e)))`.
pub data Item : Type 0 where
  not_yet : Item
  chunk : List ℕ → Item
  broken : Item

-- `ready []` is the end of the input.
pub data Poll : Type 0 where
  pending : Poll
  ready : List ℕ → Poll
  failed : Poll

pub record StreamAsRead : Type 0 where
  pub stream : List Item
  pub buf : List ℕ
  pub done : Bool

abbrev pub new : List Item → StreamAsRead
new stream = record { stream = stream; buf = []; done = false }

-- The buffer has bytes: `remaining` of them, or all.
abbrev pub hand_out : ℕ → List Item → List ℕ → Bool → StreamAsRead × Poll
hand_out remaining stream buf done =
    (record { stream = stream; buf = drop remaining buf; done = done }, ready (take remaining buf))

-- The loop with an empty buffer, before the end of the stream.
unfoldable pub poll_stream : ℕ → List Item → StreamAsRead × Poll
poll_stream remaining [] = (record { stream = []; buf = []; done = true }, ready [])
poll_stream remaining (not_yet ∷ stream) = (new stream, pending)
poll_stream remaining (broken ∷ stream) = (new stream, failed)
poll_stream remaining (chunk [] ∷ stream) = poll_stream remaining stream
poll_stream remaining (chunk (b ∷ bs) ∷ stream) = hand_out remaining stream (b ∷ bs) false

abbrev pub from_buf : ℕ → List Item → List ℕ → Bool → StreamAsRead × Poll
from_buf remaining stream (b ∷ bs) done = hand_out remaining stream (b ∷ bs) done
from_buf remaining stream [] true = (record { stream = stream; buf = []; done = true }, ready [])
from_buf remaining stream [] false = poll_stream remaining stream

unfoldable pub poll_read : ℕ → StreamAsRead → StreamAsRead × Poll
poll_read remaining a = from_buf remaining a.stream a.buf a.done

abbrev pub handed_out : Poll → List ℕ
handed_out (ready b) = b
handed_out _ = []

-- All that polls with these rooms hand out, one behind the other.
unfoldable pub polls : List ℕ → StreamAsRead → List ℕ × StreamAsRead
polls [] a = ([], a)
polls (n ∷ ns) a =
    let (a', p) = poll_read n a in let (out, last) = polls ns a' in (handed_out p ++ out, last)

-- The bytes that the stream still has.
abbrev pub bytes_of : List Item → List ℕ
bytes_of [] = []
bytes_of (chunk b ∷ stream) = b ++ bytes_of stream
bytes_of (_ ∷ stream) = bytes_of stream

abbrev pub content : StreamAsRead → List ℕ
content a = a.buf ++ (if a.done then [] else bytes_of a.stream)

-- One for each byte, and one for each item.
abbrev pub weight_of : List Item → ℕ
weight_of [] = 0
weight_of (chunk b ∷ stream) = length b + 1 + weight_of stream
weight_of (_ ∷ stream) = 1 + weight_of stream

abbrev pub weight : StreamAsRead → ℕ
weight a = length a.buf + (if a.done then 0 else weight_of a.stream)
