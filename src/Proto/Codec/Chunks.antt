-- ===== src/Proto/Codec/Chunks.antt =====
-- src/proto/frame.rs: `FrameReader::read` over the chunks of a transport.
use newppp.Prelude.{
  ℕ, ◌+◌, ◌≤◌, ◌≡◌, ◌≢◌, refl, ap, Bool, true, false, not, ltb, leb, ◌&&◌, if◌then◌else◌, List, [],
  ◌∷◌, ◌++◌, length, take, drop, take-append_le, drop-append_le, length-append, length-drop,
  append_assoc, append-nil, Option, none, some, Bool-cases, inl, inr, ◌⊎◌, arith, ltb→ge, ge→ltb,
}
use newppp.Proto.Error.{Error, Result, ok, err, truncated_at_eof}
use newppp.Proto.Cipher.{FrameCipher, decipher}
use newppp.Proto.Frame.{Frame, HeaderInfo, parse_header}
use newppp.Proto.Codec.{
  FrameDecoder, feed, after_open, decrypt, unseal, with_header, next_frame, Script, at_eof, read,
  max_ct,
}

-- The answer of a call on a decoder that holds `more` bytes behind.
abbrev fed : List ℕ → FrameDecoder × Result (Option Frame) → FrameDecoder × Result (Option Frame)
fed more r = (feed r.0 more, r.1)

after_open-feed :
    (d : FrameDecoder) (info : HeaderInfo) (r : Result (List ℕ)) (more : List ℕ)
    → after_open (feed d more) info r ≡ fed more (after_open d info r)
unfolding after_open feed
after_open-feed d info (err e) more = refl
after_open-feed d info (ok p) more = ground arith

decrypt-feed :
    (c : Option FrameCipher) (d : FrameDecoder) (info : HeaderInfo) (ct more : List ℕ)
    → decrypt c (feed d more) info ct ≡ fed more (decrypt c d info ct)
unfolding decrypt
decrypt-feed none d info ct more = refl
decrypt-feed (some c) d info ct more =
    after_open-feed d info (decipher c info.counter info.aad ct) more

if-fed :
    (more : List ℕ) (b : Bool) (x y x' y' : FrameDecoder × Result (Option Frame))
    → x' ≡ fed more x
    → y' ≡ fed more y
    → (if b then x' else y') ≡ fed more (if b then x else y)
if-fed more true x y x' y' p q = p
if-fed more false x y x' y' p q = q

unseal-feed :
    (d : FrameDecoder) (info : HeaderInfo) (ct more : List ℕ)
    → unseal (feed d more) info ct ≡ fed more (unseal d info ct)
unfolding unseal feed
unseal-feed d info ct more = if-fed more d.raw _ _ _ _ refl (decrypt-feed d.cipher d info ct more)

-- `none` answers that bytes are missing.
abbrev pub Answered : FrameDecoder × Result (Option Frame) → Type 0
Answered r = r.1 ≢ ok none

-- The frame's bytes are all there.
whole-feed :
    (d : FrameDecoder) (info : HeaderInfo) (more : List ℕ)
    → 20 + info.ct_len ≤ length d.buf
    → unseal
        (record (feed d more) { buf = drop info.ct_len (drop 20 (feed d more).buf) })
        info
        (take info.ct_len (drop 20 (feed d more).buf))
      ≡ fed more (
          unseal
            (record d { buf = drop info.ct_len (drop 20 d.buf) })
            info
            (take info.ct_len (drop 20 d.buf)))
unfolding feed
whole-feed d info more h =
    let body = drop 20 d.buf in
    let long : info.ct_len ≤ length body = omega (arith, length-drop 20 d.buf) in
    rw
      (
        drop-append_le 20 d.buf more (omega arith),
        drop-append_le info.ct_len body more long,
        take-append_le info.ct_len body more long,
      )
      (unseal-feed (record d { buf = drop info.ct_len body }) info (take info.ct_len body) more)

with_header-feed :
    (h : Result HeaderInfo) (d : FrameDecoder) (more : List ℕ)
    → Answered (with_header d h)
    → with_header (feed d more) h ≡ fed more (with_header d h)
unfolding with_header feed
with_header-feed (err e) d more a = refl
with_header-feed (ok info) d more a = elim (Bool-cases (ltb (length d.buf) (20 + info.ct_len))) [
  | inl short ↦ elim (Bool-cases (leb 16 info.ct_len && leb info.ct_len (max_ct d))) [
    | inl good ↦ absurd (a (rw (good, short)))
    | inr bad ↦ rw bad
  ]
  | inr enough ↦
      let there : 20 + info.ct_len ≤ length d.buf = ltb→ge _ _ enough in
      let still : ltb (length (d.buf ++ more)) (20 + info.ct_len) ≡ false =
        ge→ltb _ _ (omega (arith, length-append d.buf more)) in
      if-fed more (not (leb 16 info.ct_len && leb info.ct_len (max_ct d))) _ _ _ _ refl
        (rw (still, enough) (whole-feed d info more there))
]

-- Once the decoder answers with a frame or an error, bytes that come later do not change the answer:
-- they stand behind the rest of the buffer.
pub next_frame-feed :
    (d : FrameDecoder) (more : List ℕ)
    → Answered (next_frame d)
    → next_frame (feed d more) ≡ fed more (next_frame d)
unfolding next_frame feed
next_frame-feed d more a = elim (Bool-cases (ltb (length d.buf) 20)) [
  | inl short ↦ absurd (a (rw short))
  | inr enough ↦
      let there : 20 ≤ length d.buf = ltb→ge _ _ enough in
      let still : ltb (length (d.buf ++ more)) 20 ≡ false =
        ge→ltb _ _ (omega (arith, length-append d.buf more)) in
      rw (still, enough, take-append_le 20 d.buf more there)
        (with_header-feed (parse_header (take 20 d.buf)) d more (rw enough at a))
]

-- Where bytes are missing, the call leaves the decoder as it was.
pub next_frame-none : (d : FrameDecoder) → (next_frame d).1 ≡ ok none → (next_frame d).0 ≡ d
unfolding next_frame with_header unseal decrypt after_open
next_frame-none d e = ground arith

-- What `read` answers when the stream ends behind the call.
abbrev pub finish : FrameDecoder × Result (Option Frame) → Result (Option Frame)
finish (d, ok none) = elim d.buf [ [] ↦ ok none | b ∷ bs ↦ err truncated_at_eof ]
finish (d, ok (some f)) = ok (some f)
finish (d, err e) = err e

-- A transport that delivers these chunks, none of them empty, and then ends.
abbrev pub delivers : List (List ℕ) → Script
delivers [] = []
delivers (c ∷ cs) = ok c ∷ delivers cs

abbrev pub joined : List (List ℕ) → List ℕ
joined [] = []
joined (c ∷ cs) = c ++ joined cs

abbrev pub NoEmpty : List (List ℕ) → Type 0
NoEmpty [] = Unit {0}
NoEmpty (c ∷ cs) = (c ≢ []) × NoEmpty cs

Answer-cases :
    (r : Result (Option Frame))
    → (r ≡ ok none) ⊎ ((f : Frame) × (r ≡ ok (some f))) ⊎ ((e : Error) × (r ≡ err e))
Answer-cases (ok none) = inl refl
Answer-cases (ok (some f)) = inr (inl (f, refl))
Answer-cases (err e) = inr (inr (e, refl))

feed-nil : (d : FrameDecoder) → feed d [] ≡ d
unfolding feed
feed-nil d = ap (λ (b : List ℕ). record d { buf = b }) (append-nil d.buf)

feed-feed : (d : FrameDecoder) (xs ys : List ℕ) → feed (feed d xs) ys ≡ feed d (xs ++ ys)
unfolding feed
feed-feed d xs ys = ap (λ (b : List ℕ). record d { buf = b }) (append_assoc d.buf xs ys)

-- The answer of `read`, the chunks `rest` that it leaves and the decoder agree with one call of
-- `next_frame` on all the bytes.
abbrev pub Agrees : FrameDecoder → List (List ℕ) → List (List ℕ) → Type 0
Agrees d cs rest =
    ((read d (delivers cs)).1 ≡ delivers rest)
    × ((read d (delivers cs)).2 ≡ finish (next_frame (feed d (joined cs))))
    × (feed (read d (delivers cs)).0 (joined rest) ≡ (next_frame (feed d (joined cs))).0)

read_nil : (d : FrameDecoder) → Agrees d [] []
unfolding read at_eof
read_nil d = rw (feed-nil d) (elim (Answer-cases (next_frame d).1) [
  | inl e ↦ rw (e, read) (refl, refl, feed-nil (next_frame d).0)
  | inr (inl (f, e)) ↦ rw (e, read) (refl, refl, feed-nil (next_frame d).0)
  | inr (inr (x, e)) ↦ rw (e, read) (refl, refl, feed-nil (next_frame d).0)
])

-- The decoder answers from its buffer, and reads no chunk.
read-Answered :
    (d : FrameDecoder) (c : List ℕ) (cs : List (List ℕ))
    → Answered (next_frame d)
    → Agrees d (c ∷ cs) (c ∷ cs)
unfolding read
read-Answered d c cs a =
    rw (next_frame-feed d (joined (c ∷ cs)) a) (elim (Answer-cases (next_frame d).1) [
      | inl e ↦ absurd (a e)
      | inr (inl (f, e)) ↦ rw (e, read) (refl, refl, refl)
      | inr (inr (x, e)) ↦ rw (e, read) (refl, refl, refl)
    ])

-- Bytes are missing: the next chunk goes into the buffer.
read_chunk :
    (d : FrameDecoder) (b : ℕ) (bs : List ℕ) (cs rest : List (List ℕ))
    → (next_frame d).1 ≡ ok none
    → Agrees (feed d (b ∷ bs)) cs rest
    → Agrees d ((b ∷ bs) ∷ cs) rest
unfolding read
read_chunk d b bs cs rest e h =
    rw (← feed-feed d (b ∷ bs) (joined cs)) (rw (e, read, next_frame-none d e) h)

-- Whatever the chunks in which the transport delivers the bytes, none of them empty, `read` answers
-- what one call of `next_frame` answers on all the bytes at once (or, where that misses bytes, the end
-- of the stream: clean, or a truncated frame), and the bytes that it does not use are the same.
pub read-joined :
    (d : FrameDecoder) (cs : List (List ℕ)) → NoEmpty cs → (rest : List (List ℕ)) × Agrees d cs rest
read-joined d [] h = ([], read_nil d)
read-joined d ([] ∷ cs) h = absurd (h.0 refl)
read-joined d ((b ∷ bs) ∷ cs) h =
    let (rest, agrees) = read-joined (feed d (b ∷ bs)) cs h.1 in
    elim (Answer-cases (next_frame d).1) [
      | inl e ↦ (rest, read_chunk d b bs cs rest e agrees)
      | inr (inl (f, e)) ↦ ((b ∷ bs) ∷ cs, read-Answered d (b ∷ bs) cs (λ n. cc))
      | inr (inr (x, e)) ↦ ((b ∷ bs) ∷ cs, read-Answered d (b ∷ bs) cs (λ n. cc))
    ]
