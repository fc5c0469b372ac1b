-- ===== src/Client/HttpProxy/Forward.antt =====
-- src/client/http_proxy.rs: the lines of the head that is forwarded.
use newppp.Prelude.{
  Option, none, some, bytes_eq, not, ◌&&◌, ◌==◌, ℕ, ◌≡◌, refl, ap, ◌∙◌, Bool, true, false,
  if◌then◌else◌, List, [], ◌∷◌, ◌++◌, arith, All, Bool-cases, inl, inr, append_assoc,
}
use newppp.Prelude.Text.{text, split_once}
use newppp.Client.HttpProxy.{
  to_ascii_lowercase, eq_ignore_ascii_case, split_crlf, onto_head, crlf, behind_first, held_back,
  forward_lines, forward_http_head,
}

-- No line break inside.
abbrev pub no_crlf : List ℕ → Bool
no_crlf [] = true
no_crlf (c ∷ []) = true
no_crlf (c ∷ d ∷ s) = not ((c == 13) && (d == 10)) && no_crlf (d ∷ s)

abbrev pub IsLine : List ℕ → Type 0
IsLine l = no_crlf l ≡ true

split_crlf-line :
    (l rest : List ℕ) → IsLine l → split_crlf (l ++ (crlf ++ rest)) ≡ l ∷ split_crlf rest
unfolding split_crlf onto_head
split_crlf-line [] rest h = refl
split_crlf-line (c ∷ []) rest h =
    let stays : ((c == 13) && (13 == 10)) ≡ false = ground arith in rw (split_crlf, stays) refl
split_crlf-line (c ∷ d ∷ l) rest h =
    let stays : ((c == 13) && (d == 10)) ≡ false = ground arith in
    rw (split_crlf, stays, split_crlf-line (d ∷ l) rest (ground arith)) refl

-- What the first line begins with.
abbrev Begins : ℕ → List (List ℕ) → Type 0
Begins d [] = ⊥
Begins d ([] ∷ ls) = Unit {0}
Begins d ((e ∷ l) ∷ ls) = e ≡ d

onto_head-Begins : (d : ℕ) (ls : List (List ℕ)) → Begins d (onto_head d ls)
unfolding onto_head
onto_head-Begins d [] = refl
onto_head-Begins d (l ∷ ls) = refl

split_crlf-Begins : (d : ℕ) (s : List ℕ) → Begins d (split_crlf (d ∷ s))
unfolding split_crlf
split_crlf-Begins d [] = refl
split_crlf-Begins d (e ∷ s) = elim (Bool-cases ((d == 13) && (e == 10))) [
  | inl break ↦ rw (split_crlf, break) tt
  | inr stays ↦ rw (split_crlf, stays) (onto_head-Begins d (split_crlf (e ∷ s)))
]

onto_head-IsLine :
    (c d : ℕ) (ls : List (List ℕ))
    → ((c == 13) && (d == 10)) ≡ false
    → Begins d ls
    → All IsLine ls
    → All IsLine (onto_head c ls)
unfolding onto_head
onto_head-IsLine c d [] h b a = (refl, tt)
onto_head-IsLine c d ([] ∷ ls) h b a = (refl, a.1)
onto_head-IsLine c d ((e ∷ l) ∷ ls) h b a =
    let stays : ((c == 13) && (e == 10)) ≡ false = rw b h in (rw stays a.0, a.1)

split_crlf-IsLine : (s : List ℕ) → All IsLine (split_crlf s)
unfolding split_crlf
split_crlf-IsLine [] = (refl, tt)
split_crlf-IsLine (c ∷ []) = (refl, tt)
split_crlf-IsLine (c ∷ d ∷ s) = elim (Bool-cases ((c == 13) && (d == 10))) [
  | inl break ↦ rw (split_crlf, break) (refl, split_crlf-IsLine s)
  | inr stays ↦
      rw (split_crlf, stays)
        (onto_head-IsLine c d (split_crlf (d ∷ s)) stays (split_crlf-Begins d s)
          (split_crlf-IsLine (d ∷ s)))
]

-- ASCII letters made small.
abbrev pub lowered : List ℕ → List ℕ
lowered [] = []
lowered (c ∷ s) = to_ascii_lowercase c ∷ lowered s

eq_ignore_ascii_case-lowered :
    (a b : List ℕ) → eq_ignore_ascii_case a b ≡ bytes_eq (lowered a) (lowered b)
unfolding eq_ignore_ascii_case
eq_ignore_ascii_case-lowered [] [] = refl
eq_ignore_ascii_case-lowered [] (y ∷ b) = refl
eq_ignore_ascii_case-lowered (x ∷ a) [] = refl
eq_ignore_ascii_case-lowered (x ∷ a) (y ∷ b) = rw (eq_ignore_ascii_case-lowered a b) refl

-- A line that the destination is to see: a header whose name, in small letters, is neither
-- `proxy-authorization` nor `proxy-connection`.
abbrev pub goes_on : Option (List ℕ × List ℕ) → Bool
goes_on none = false
goes_on (some (name, value)) =
    not (bytes_eq (lowered name) (text "proxy-authorization"))
    && not (bytes_eq (lowered name) (text "proxy-connection"))

held_back-goes_on : (o : Option (List ℕ × List ℕ)) → held_back o ≡ not (goes_on o)
held_back-goes_on none = refl
held_back-goes_on (some (name, value)) = ground (
  arith,
  eq_ignore_ascii_case-lowered name (text "proxy-authorization"),
  eq_ignore_ascii_case-lowered name (text "proxy-connection"),
)

-- The header lines that the destination is to see, in their order.
abbrev pub kept : List (List ℕ) → List (List ℕ)
kept [] = []
kept (line ∷ lines) = if goes_on (split_once b':' line) then line ∷ kept lines else kept lines

split_crlf-forward_lines :
    (lines : List (List ℕ))
    → All IsLine lines
    → split_crlf (forward_lines lines) ≡ kept lines ++ ([] ∷ [] ∷ [])
unfolding forward_lines split_crlf
split_crlf-forward_lines [] h = refl
split_crlf-forward_lines (line ∷ lines) h = elim (Bool-cases (goes_on (split_once b':' line))) [
  | inr back ↦
      rw (held_back-goes_on (split_once b':' line), back) (split_crlf-forward_lines lines h.1)
  | inl on ↦
      rw (held_back-goes_on (split_once b':' line), on)
        (split_crlf-line line (forward_lines lines) h.0
          ∙ ap (◌∷◌ line) (split_crlf-forward_lines lines h.1))
]

behind_first-IsLine : (ls : List (List ℕ)) → All IsLine ls → All IsLine (behind_first ls)
behind_first-IsLine [] h = tt
behind_first-IsLine (l ∷ ls) h = h.1

abbrev pub origin_line : List ℕ → List ℕ → List ℕ → List ℕ
origin_line method origin version = method ++ (text " " ++ (origin ++ (text " " ++ version)))

-- The forwarded head, cut at its line breaks, is the new request line, then in their order the lines of
-- the client's head that have a colon and whose name before it, in small letters but with its blanks, is
-- neither `proxy-authorization` nor `proxy-connection`, and then the empty line.
pub forward_http_head-kept :
    (head method origin version : List ℕ)
    → IsLine (origin_line method origin version)
    → split_crlf (forward_http_head head method origin version)
      ≡ origin_line method origin version
        ∷ (kept (behind_first (split_crlf head)) ++ ([] ∷ [] ∷ []))
unfolding forward_http_head
forward_http_head-kept head method origin version h =
    let lines = behind_first (split_crlf head) in
    let joined : method
          ++ (text " " ++ (origin ++ (text " " ++ (version ++ (crlf ++ forward_lines lines)))))
        ≡ origin_line method origin version ++ (crlf ++ forward_lines lines) =
      simp append_assoc in
    rw joined (
      split_crlf-line (origin_line method origin version) (forward_lines lines) h
      ∙ ap (◌∷◌ (origin_line method origin version)) (
          split_crlf-forward_lines lines
            (behind_first-IsLine (split_crlf head) (split_crlf-IsLine head))))
