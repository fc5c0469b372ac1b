-- ===== src/Proto/Adapter/Delivered.antt =====
-- src/proto/stream.rs: no byte of the stream is lost, repeated or moved, and the end comes last.
use newppp.Prelude.{
  ℕ, suc, ◌+◌, ◌≤◌, ◌<◌, ◌≡◌, refl, sym, ap, ◌∙◌, Bool, true, false, if◌then◌else◌, List, [], ◌∷◌,
  ◌++◌, length, take, drop, arith, All, append_assoc, append-nil, length-drop, inl, inr, ◌⊎◌, zero,
}
use newppp.Proto.Adapter.{
  Item, not_yet, chunk, broken, Poll, ready, StreamAsRead, new, hand_out, poll_stream, from_buf,
  poll_read, handed_out, polls, bytes_of, content, weight_of, weight,
}

-- What one poll does: no byte is lost, and it goes on, or there is nothing left.
record Advances (before : List ℕ) (heavy : ℕ) (r : StreamAsRead × Poll) : Type 0 where
  kept : handed_out r.1 ++ content r.0 ≡ before
  lighter : (weight r.0 < heavy) ⊎ (before ≡ [])
  ends : r.1 ≡ ready [] → before ≡ []

take-drop : (n : ℕ) (b : List ℕ) → take n b ++ drop n b ≡ b
take-drop zero b = refl
take-drop (suc n) [] = refl
take-drop (suc n) (x ∷ b) = ap (◌∷◌ x) (take-drop n b)

take-some : (n b : ℕ) (bs : List ℕ) → 0 < n → ¬ (take n (b ∷ bs) ≡ [])
take-some zero b bs h e = omega (arith, h)
take-some (suc n) b bs h e = cc e

ready_bytes : {xs ys : List ℕ} → ready xs ≡ ready ys → xs ≡ ys
ready_bytes e = ap handed_out e

hand_out-Advances :
    (n : ℕ) (stream : List Item) (b : ℕ) (bs : List ℕ) (done : Bool) (rest : List ℕ)
    → 0 < n
    → rest ≡ (if done then [] else bytes_of stream)
    → Advances
        ((b ∷ bs) ++ rest)
        (suc (length bs) + (if done then 0 else weight_of stream))
        (hand_out n stream (b ∷ bs) done)
hand_out-Advances n stream b bs done rest h e = record {
  kept = rw e (
      sym (append_assoc (take n (b ∷ bs)) (drop n (b ∷ bs)) (if done then [] else bytes_of stream))
      ∙ ap (λ l. l ++ (if done then [] else bytes_of stream)) (take-drop n (b ∷ bs)));
  lighter = inl (ground (arith, length-drop n (b ∷ bs)));
  ends = λ no_bytes. absurd (take-some n b bs h (ready_bytes no_bytes));
}

poll_stream-Advances :
    (n : ℕ) (stream : List Item)
    → 0 < n
    → Advances (bytes_of stream) (weight_of stream) (poll_stream n stream)
unfolding poll_stream
poll_stream-Advances n [] h = record { kept = refl; lighter = inr refl; ends = λ e. refl }
poll_stream-Advances n (not_yet ∷ stream) h = record {
  kept = refl;
  lighter = inl (omega arith);
  ends = λ e. absurd (cc e);
}
poll_stream-Advances n (broken ∷ stream) h = record {
  kept = refl;
  lighter = inl (omega arith);
  ends = λ e. absurd (cc e);
}
poll_stream-Advances n (chunk [] ∷ stream) h =
    let later = poll_stream-Advances n stream h in
    record { kept = later.kept; lighter = ground (arith, later.lighter); ends = later.ends }
poll_stream-Advances n (chunk (b ∷ bs) ∷ stream) h =
    let here = hand_out-Advances n stream b bs false (bytes_of stream) h refl in
    record { kept = here.kept; lighter = ground (arith, here.lighter); ends = here.ends }

from_buf-Advances :
    (n : ℕ) (stream : List Item) (buf : List ℕ) (done : Bool)
    → 0 < n
    → Advances
        (content (record { stream = stream; buf = buf; done = done }))
        (weight (record { stream = stream; buf = buf; done = done }))
        (from_buf n stream buf done)
from_buf-Advances n stream (b ∷ bs) done h =
    hand_out-Advances n stream b bs done (if done then [] else bytes_of stream) h refl
from_buf-Advances n stream [] true h = record { kept = refl; lighter = inr refl; ends = λ e. refl }
from_buf-Advances n stream [] false h =
    let later = poll_stream-Advances n stream h in
    record { kept = later.kept; lighter = ground (arith, later.lighter); ends = later.ends }

poll_read-Advances :
    (n : ℕ) (a : StreamAsRead) → 0 < n → Advances (content a) (weight a) (poll_read n a)
unfolding poll_read
poll_read-Advances n a h = from_buf-Advances n a.stream a.buf a.done h

append-empty : (xs ys : List ℕ) → xs ++ ys ≡ [] → (xs ≡ []) × (ys ≡ [])
append-empty [] ys h = (refl, h)
append-empty (x ∷ xs) ys h = absurd (cc h)

-- Each poll makes the adapter lighter, or it has nothing left.
empty-polls :
    (ns : List ℕ) (a : StreamAsRead)
    → All (λ n. 0 < n) ns
    → content a ≡ []
    → content (polls ns a).1 ≡ []
unfolding polls
empty-polls [] a h e = e
empty-polls (n ∷ ns) a h e =
    let now = poll_read-Advances n a h.0 in
    empty-polls ns (poll_read n a).0 h.1
      (append-empty (handed_out (poll_read n a).1) (content (poll_read n a).0) (now.kept ∙ e)).1

weightless : (stream : List Item) → weight_of stream ≡ 0 → bytes_of stream ≡ []
weightless [] h = refl
weightless (chunk b ∷ stream) h = absurd (omega (arith, h))
weightless (not_yet ∷ stream) h = absurd (omega (arith, h))
weightless (broken ∷ stream) h = absurd (omega (arith, h))

weightless-content :
    (stream : List Item) (buf : List ℕ) (done : Bool)
    → weight (record { stream = stream; buf = buf; done = done }) ≡ 0
    → content (record { stream = stream; buf = buf; done = done }) ≡ []
weightless-content stream (b ∷ bs) done h = absurd (omega (arith, h))
weightless-content stream [] true h = refl
weightless-content stream [] false h = weightless stream (omega (arith, h))

polls-content :
    (ns : List ℕ) (a : StreamAsRead)
    → All (λ n. 0 < n) ns
    → ((polls ns a).0 ++ content (polls ns a).1 ≡ content a)
      × (weight a ≤ length ns → content (polls ns a).1 ≡ [])
unfolding polls
polls-content [] a h = (refl, λ few. weightless-content a.stream a.buf a.done (omega (arith, few)))
polls-content (n ∷ ns) a h =
    let now = poll_read-Advances n a h.0 in
    let rest = polls-content ns (poll_read n a).0 h.1 in
    (
      append_assoc (handed_out (poll_read n a).1) (polls ns (poll_read n a).0).0
            (content (polls ns (poll_read n a).0).1)
          ∙ (ap (λ l. handed_out (poll_read n a).1 ++ l) rest.0 ∙ now.kept),
      λ enough. elim now.lighter [
        | inl less ↦ rest.1 (omega (arith, less, enough))
        | inr nothing ↦
            empty-polls ns (poll_read n a).0 h.1
              (append-empty (handed_out (poll_read n a).1) (content (poll_read n a).0)
                (now.kept ∙ nothing)).1
      ],
    )

-- With room in every poll, and whatever the cuts, the waiting and the errors of the stream: after as many
-- polls as the stream has bytes and items, or once a further poll answers the end of the input, what
-- the polls have handed out, in their order, is all that the stream had.
pub polls-whole :
    (ns : List ℕ) (stream : List Item) (next : ℕ)
    → All (λ n. 0 < n) ns
    → 0 < next
    → (weight_of stream ≤ length ns) ⊎ ((poll_read next (polls ns (new stream)).1).1 ≡ ready [])
    → (polls ns (new stream)).0 ≡ bytes_of stream
polls-whole ns stream next h room over =
    let (whole, none_left) = polls-content ns (new stream) h in
    let nothing : content (polls ns (new stream)).1 ≡ [] = elim over [
      | inl enough ↦ none_left (omega (arith, enough))
      | inr end ↦ (poll_read-Advances next (polls ns (new stream)).1 room).ends end
    ] in
    sym (append-nil (polls ns (new stream)).0)
    ∙ (ap (λ l. (polls ns (new stream)).0 ++ l) (sym nothing) ∙ whole)
