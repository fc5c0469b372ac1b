-- ===== src/Proto/Adapter/Examples.antt =====
-- A stream with a waiting poll, an empty chunk and an error.
use newppp.Prelude.{ℕ, ◌≡◌, refl, List, [], ◌∷◌, arith, inl}
use newppp.Proto.Adapter.{
  Item, not_yet, chunk, broken, ready, new, poll_stream, poll_read, polls, bytes_of,
}
use newppp.Proto.Adapter.Delivered.{polls-whole}

abbrev items : List Item
items = chunk (1 ∷ 2 ∷ 3 ∷ []) ∷ not_yet ∷ chunk [] ∷ broken ∷ chunk (4 ∷ []) ∷ []

abbrev rooms : List ℕ
rooms = 2 ∷ 2 ∷ 2 ∷ 2 ∷ 2 ∷ 2 ∷ 2 ∷ 2 ∷ 2 ∷ []

polls-whole_example : (polls rooms (new items)).0 ≡ bytes_of items
polls-whole_example = polls-whole rooms items 2 (ground arith) (omega arith) (inl (omega arith))

ends_at_last : (poll_read 2 (polls rooms (new items)).1).1 ≡ ready []
unfolding poll_read poll_stream polls
ends_at_last = refl
