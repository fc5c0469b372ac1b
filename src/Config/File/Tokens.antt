-- ===== src/Config/File/Tokens.antt =====
-- src/config.rs: the argument list of a configuration file as the list of what it sets, and
-- `remove_earlier_option` on it.
use newppp.Prelude.{
  ℕ, zero, suc, ◌≡◌, refl, sym, ap, ◌∙◌, Bool, true, false, not, ◌&&◌, if◌then◌else◌, List, [], ◌∷◌,
  ◌++◌, length, take, bytes_eq, bytes_eq→eq, arith, All, Bool-cases, inl, inr, append_assoc,
}
use newppp.Prelude.Text.{text, starts_with, contains}
use newppp.Config.File.{dashed, has_dash, remove_from, remove_earlier_option, is_mode_flag}

-- What one option of the file sets.
pub data Setting : Type 0 where
  mode_set : List ℕ → Setting
  switch_set : List ℕ → Setting
  value_set : List ℕ → List ℕ → Setting

abbrev pub tokens : Setting → List (List ℕ)
tokens (mode_set flag) = flag ∷ []
tokens (switch_set k) = dashed k ∷ []
tokens (value_set k v) = dashed k ∷ v ∷ []

abbrev pub render : List Setting → List (List ℕ)
render [] = []
render (s ∷ ss) = tokens s ++ render ss

abbrev pub sets : List ℕ → Setting → Bool
sets key (mode_set flag) = false
sets key (switch_set k) = bytes_eq k key
sets key (value_set k v) = bytes_eq k key

-- What is left when the option `key` is taken out.
abbrev pub drop_key : List ℕ → List Setting → List Setting
drop_key key [] = []
drop_key key (s ∷ ss) = if sets key s then drop_key key ss else s ∷ drop_key key ss

-- The name of an option has no `=` in it, and its value does not begin with a dash.
abbrev pub NoEquals : List ℕ → Type 0
NoEquals k = contains b'=' k ≡ false

abbrev pub IsPlain : Setting → Type 0
IsPlain (mode_set flag) = is_mode_flag flag ≡ true
IsPlain (switch_set k) = NoEquals k
IsPlain (value_set k v) = NoEquals k × (has_dash v ≡ false)

no_inline : (key k : List ℕ) (n : ℕ) → NoEquals k → bytes_eq (take n k) (key ++ text "=") ≡ false
unfolding contains
no_inline [] k zero h = refl
no_inline [] [] (suc n) h = refl
no_inline [] (c ∷ k) (suc n) h = ground arith
no_inline (x ∷ key) k zero h = refl
no_inline (x ∷ key) [] (suc n) h = refl
no_inline (x ∷ key) (c ∷ k) (suc n) h = ground (arith, no_inline key k n)

option-no_inline :
    (key k : List ℕ) → NoEquals k → starts_with (dashed key ++ text "=") (dashed k) ≡ false
option-no_inline key k h = no_inline key k (length (key ++ text "=")) h

-- A token without a dash is no option.
plain-no_option :
    (key v : List ℕ)
    → has_dash v ≡ false
    → (bytes_eq v (dashed key) ≡ false) × (starts_with (dashed key ++ text "=") v ≡ false)
plain-no_option key [] h = (refl, refl)
plain-no_option key (c ∷ v) h = (ground arith, ground arith)

flag-no_option :
    (key flag : List ℕ)
    → is_mode_flag flag ≡ true
    → (has_dash flag ≡ true)
      × (bytes_eq flag (dashed key) ≡ false)
      × (starts_with (dashed key ++ text "=") flag ≡ false)
flag-no_option key flag h = elim (Bool-cases (bytes_eq flag (text "-c"))) [
  | inl is_client ↦ rw (bytes_eq→eq flag (text "-c") is_client) (refl, refl, refl)
  | inr other ↦ elim (Bool-cases (bytes_eq flag (text "-s"))) [
    | inl is_server ↦ rw (bytes_eq→eq flag (text "-s") is_server) (refl, refl, refl)
    | inr neither ↦ absurd (ground arith)
  ]
]

keeps :
    (key : List ℕ) (pending : Bool) (a : List ℕ) (rest : List (List ℕ))
    → (pending && not (has_dash a)) ≡ false
    → bytes_eq a (dashed key) ≡ false
    → starts_with (dashed key ++ text "=") a ≡ false
    → remove_from key pending (a ∷ rest) ≡ a ∷ remove_from key false rest
unfolding remove_from
keeps key true a rest stays other inline = rw (stays, other, inline) refl
keeps key false a rest stays other inline = rw (remove_from, other, inline) refl

removes :
    (key : List ℕ) (pending : Bool) (a : List ℕ) (rest : List (List ℕ))
    → (pending && not (has_dash a)) ≡ false
    → bytes_eq a (dashed key) ≡ true
    → remove_from key pending (a ∷ rest) ≡ remove_from key true rest
unfolding remove_from
removes key true a rest stays this = rw (stays, this) refl
removes key false a rest stays this = rw (remove_from, this) refl

removes_value :
    (key v : List ℕ) (rest : List (List ℕ))
    → has_dash v ≡ false
    → remove_from key true (v ∷ rest) ≡ remove_from key false rest
unfolding remove_from
removes_value key v rest h = rw h refl

with_dash :
    (pending : Bool) (a : List ℕ) → has_dash a ≡ true → (pending && not (has_dash a)) ≡ false
with_dash pending a h = ground arith

remove-tokens :
    (key : List ℕ) (pending : Bool) (s : Setting) (rest : List (List ℕ)) (left : List (List ℕ))
    → IsPlain s
    → ((p : Bool) → remove_from key p rest ≡ left)
    → remove_from key pending (tokens s ++ rest) ≡ (if sets key s then left else tokens s ++ left)
remove-tokens key pending (mode_set flag) rest left h rec =
    let (dash, other, inline) = flag-no_option key flag h in
    keeps key pending flag rest (with_dash pending flag dash) other inline
    ∙ ap (◌∷◌ flag) (rec false)
remove-tokens key pending (switch_set k) rest left h rec = elim (Bool-cases (bytes_eq k key)) [
  | inl this ↦
      removes key pending (dashed k) rest (with_dash pending (dashed k) refl) this
      ∙ rw this (rec true)
  | inr other ↦
      keeps key pending (dashed k) rest (with_dash pending (dashed k) refl) other
        (option-no_inline key k h)
      ∙ rw other (ap (◌∷◌ (dashed k)) (rec false))
]
remove-tokens key pending (value_set k v) rest left h rec = elim (Bool-cases (bytes_eq k key)) [
  | inl this ↦
      removes key pending (dashed k) (v ∷ rest) (with_dash pending (dashed k) refl) this
      ∙ (removes_value key v rest h.1 ∙ rw this (rec false))
  | inr other ↦
      let (value_other, value_inline) = plain-no_option key v h.1 in
      keeps key pending (dashed k) (v ∷ rest) (with_dash pending (dashed k) refl) other
        (option-no_inline key k h.0)
      ∙ rw other (
          ap (◌∷◌ (dashed k))
            (keeps key false v rest refl value_other value_inline ∙ ap (◌∷◌ v) (rec false)))
]

nothing : (key : List ℕ) (pending : Bool) → remove_from key pending [] ≡ []
unfolding remove_from
nothing key pending = refl

choose :
    (key : List ℕ) (s : Setting) (ss : List Setting)
    → (if sets key s then render (drop_key key ss) else tokens s ++ render (drop_key key ss))
      ≡ render (drop_key key (s ∷ ss))
choose key s ss = elim (Bool-cases (sets key s)) [
  | inl this ↦ rw this refl
  | inr other ↦ rw other refl
]

remove-render :
    (key : List ℕ) (pending : Bool) (ss : List Setting)
    → All IsPlain ss
    → remove_from key pending (render ss) ≡ render (drop_key key ss)
remove-render key pending [] h = nothing key pending
remove-render key pending (s ∷ ss) h =
    remove-tokens key pending s (render ss) (render (drop_key key ss)) h.0
      (λ p. remove-render key p ss h.1)
    ∙ choose key s ss

-- `remove_earlier_option` takes the option's settings out, and nothing else.
pub remove_earlier_option-render :
    (key : List ℕ) (ss : List Setting)
    → All IsPlain ss
    → remove_earlier_option (render ss) key ≡ render (drop_key key ss)
unfolding remove_earlier_option
remove_earlier_option-render key ss h = remove-render key false ss h

pub drop_key-IsPlain :
    (key : List ℕ) (ss : List Setting) → All IsPlain ss → All IsPlain (drop_key key ss)
drop_key-IsPlain key [] h = tt
drop_key-IsPlain key (s ∷ ss) h = elim (Bool-cases (sets key s)) [
  | inl this ↦ rw this (drop_key-IsPlain key ss h.1)
  | inr other ↦ rw other (h.0, drop_key-IsPlain key ss h.1)
]

pub render-append : (ss ts : List Setting) → render (ss ++ ts) ≡ render ss ++ render ts
render-append [] ts = refl
render-append (s ∷ ss) ts =
    ap (◌++◌ (tokens s)) (render-append ss ts)
    ∙ sym (append_assoc (tokens s) (render ss) (render ts))
