-- ===== src/Config/File/Overrides.antt =====
-- src/config.rs: what `strip_cli_overridden` finds on the command line.
use newppp.Prelude.{
  ℕ, ◌≡◌, refl, ap, ◌∙◌, Bool, true, false, ◌==◌, if◌then◌else◌, List, [], ◌∷◌, ◌++◌, none, some,
  bytes_eq, bytes_eq→eq, arith, All, Bool-cases, inl, inr,
}
use newppp.Prelude.Text.{text, split_once, contains, strip_prefix}
use newppp.Config.File.{
  among, bools, appends, longs, singles, dashed, has_dash, is_mode_flag, override_keys, any_mode,
}
use newppp.Config.File.Tokens.{NoEquals}

-- What one option of the command line sets: a mode flag, a switch, or a value, as a token of its own
-- or in that of the option, behind `=`.
pub data Given : Type 0 where
  mode_given : List ℕ → Given
  switch_given : List ℕ → Given
  value_given : List ℕ → List ℕ → Given
  inline_given : List ℕ → List ℕ → Given

abbrev words : Given → List (List ℕ)
words (mode_given flag) = flag ∷ []
words (switch_given k) = dashed k ∷ []
words (value_given k v) = dashed k ∷ v ∷ []
words (inline_given k v) = (dashed k ++ (b'=' ∷ v)) ∷ []

abbrev pub command_line : List Given → List (List ℕ)
command_line [] = []
command_line (c ∷ cs) = words c ++ command_line cs

-- A switch or a valued option of the program, whose value, where it is a token, begins with no dash.
abbrev pub IsKnown : Given → Type 0
IsKnown (mode_given flag) = is_mode_flag flag ≡ true
IsKnown (switch_given k) = NoEquals k × (among k bools ≡ true) × (among k appends ≡ false)
IsKnown (value_given k v) =
    NoEquals k × (has_dash v ≡ false) × (among k longs ≡ true) × (among k bools ≡ false)
IsKnown (inline_given k v) = NoEquals k × (among k longs ≡ true)

-- The names of the options that are set, `auth` left out.
abbrev pub keys_of : List Given → List (List ℕ)
keys_of [] = []
keys_of (mode_given flag ∷ cs) = keys_of cs
keys_of (switch_given k ∷ cs) = k ∷ keys_of cs
keys_of (value_given k v ∷ cs) = if bytes_eq (text "auth") k then keys_of cs else k ∷ keys_of cs
keys_of (inline_given k v ∷ cs) = if bytes_eq (text "auth") k then keys_of cs else k ∷ keys_of cs

abbrev pub has_mode : List Given → Bool
has_mode [] = false
has_mode (mode_given flag ∷ cs) = true
has_mode (switch_given k ∷ cs) = has_mode cs
has_mode (value_given k v ∷ cs) = has_mode cs
has_mode (inline_given k v ∷ cs) = has_mode cs

split_once-NoEquals : (k : List ℕ) → NoEquals k → split_once b'=' k ≡ none
unfolding split_once contains
split_once-NoEquals [] h = refl
split_once-NoEquals (c ∷ k) h = elim (Bool-cases (c == b'=')) [
  | inl eq_sign ↦ absurd (ground arith)
  | inr other ↦ rw (other, split_once-NoEquals k (ground arith)) refl
]

-- A token that is no long option is passed over.
passed_over :
    (tok : List ℕ) (rest : List (List ℕ))
    → strip_prefix (text "--") tok ≡ none
    → override_keys (tok ∷ rest) ≡ override_keys rest
unfolding override_keys
passed_over tok [] h = rw h refl
passed_over tok (next ∷ args) h = rw h refl

plain-no_long : (v : List ℕ) → has_dash v ≡ false → strip_prefix (text "--") v ≡ none
plain-no_long [] h = refl
plain-no_long (c ∷ v) h = ground arith

flag-no_long : (flag : List ℕ) → is_mode_flag flag ≡ true → strip_prefix (text "--") flag ≡ none
flag-no_long flag h = elim (Bool-cases (bytes_eq flag (text "-c"))) [
  | inl is_client ↦ rw (bytes_eq→eq flag (text "-c") is_client) refl
  | inr other ↦ elim (Bool-cases (bytes_eq flag (text "-s"))) [
    | inl is_server ↦ rw (bytes_eq→eq flag (text "-s") is_server) refl
    | inr neither ↦ absurd (ground arith)
  ]
]

among-left :
    (k : List ℕ) (ks more : List (List ℕ)) → among k ks ≡ true → among k (ks ++ more) ≡ true
unfolding among
among-left k [] more h = absurd (cc h)
among-left k (j ∷ ks) more h = elim (Bool-cases (bytes_eq j k)) [
  | inl this ↦ rw this refl
  | inr other ↦ rw other (among-left k ks more (rw other at h))
]

switch_long : (k : List ℕ) → among k bools ≡ true → among k longs ≡ true
switch_long k h = among-left k bools (appends ++ singles) h

switch_key :
    (k : List ℕ) (rest : List (List ℕ))
    → NoEquals k
    → among k bools ≡ true
    → among k appends ≡ false
    → override_keys (dashed k ∷ rest) ≡ k ∷ override_keys rest
unfolding override_keys
switch_key k [] plain switch single =
    rw (split_once-NoEquals k plain, single, switch_long k switch) refl
switch_key k (next ∷ args) plain switch single =
    rw
      (
        override_keys,
        split_once-NoEquals k plain,
        single,
        switch_long k switch,
        split_once-NoEquals k plain,
        switch,
        split_once-NoEquals k plain,
      )
      refl

value_key :
    (k v : List ℕ) (rest : List (List ℕ))
    → NoEquals k
    → has_dash v ≡ false
    → among k longs ≡ true
    → among k bools ≡ false
    → override_keys (dashed k ∷ v ∷ rest)
      ≡ (if bytes_eq (text "auth") k then override_keys rest else k ∷ override_keys rest)
unfolding override_keys among
value_key [] v rest plain value known no_switch = absurd (cc known)
value_key (c ∷ k1) v rest plain value known no_switch =
    let k = c ∷ k1 in
    elim (Bool-cases (bytes_eq (text "auth") k)) [
      | inl auth ↦
          rw (override_keys, split_once-NoEquals k plain, known, auth)
            (passed_over v rest (plain-no_long v value))
      | inr other ↦
          rw
            (
              override_keys,
              split_once-NoEquals k plain,
              known,
              other,
              split_once-NoEquals k plain,
              no_switch,
              value,
              split_once-NoEquals k plain,
            )
            refl
    ]

split_once-inline : (k v : List ℕ) → NoEquals k → split_once b'=' (k ++ (b'=' ∷ v)) ≡ some (k, v)
unfolding split_once contains
split_once-inline [] v h = refl
split_once-inline (c ∷ k) v h = elim (Bool-cases (c == b'=')) [
  | inl eq_sign ↦ absurd (ground arith)
  | inr other ↦ rw (other, split_once-inline k v (ground arith)) refl
]

inline_key :
    (k v : List ℕ) (rest : List (List ℕ))
    → NoEquals k
    → among k longs ≡ true
    → override_keys ((dashed k ++ (b'=' ∷ v)) ∷ rest)
      ≡ (if bytes_eq (text "auth") k then override_keys rest else k ∷ override_keys rest)
unfolding override_keys among
inline_key k v [] plain known = elim (Bool-cases (bytes_eq (text "auth") k)) [
  | inl auth ↦ rw (override_keys, split_once-inline k v plain, known, auth) refl
  | inr other ↦ rw (override_keys, split_once-inline k v plain, known, other) refl
]
inline_key k v (next ∷ args) plain known = elim (Bool-cases (bytes_eq (text "auth") k)) [
  | inl auth ↦ rw (override_keys, split_once-inline k v plain, known, auth) refl
  | inr other ↦
      let split = split_once-inline k v plain in
      rw (override_keys, split, known, other, split, split) refl
]

-- The code finds these names, ...
pub override_keys-command_line :
    (cs : List Given) → All IsKnown cs → override_keys (command_line cs) ≡ keys_of cs
unfolding override_keys
override_keys-command_line [] h = refl
override_keys-command_line (mode_given flag ∷ cs) h =
    passed_over flag (command_line cs) (flag-no_long flag h.0) ∙ override_keys-command_line cs h.1
override_keys-command_line (switch_given k ∷ cs) h =
    switch_key k (command_line cs) h.0.0 h.0.1 h.0.2
    ∙ ap (◌∷◌ k) (override_keys-command_line cs h.1)
override_keys-command_line (value_given k v ∷ cs) h =
    value_key k v (command_line cs) h.0.0 h.0.1 h.0.2 h.0.3
    ∙ rw (override_keys-command_line cs h.1) refl
override_keys-command_line (inline_given k v ∷ cs) h =
    inline_key k v (command_line cs) h.0.0 h.0.1 ∙ rw (override_keys-command_line cs h.1) refl

pub plain-no_mode : (v : List ℕ) → has_dash v ≡ false → is_mode_flag v ≡ false
plain-no_mode [] h = refl
plain-no_mode (c ∷ v) h = ground arith

-- ... and the mode.
pub any_mode-command_line :
    (cs : List Given) → All IsKnown cs → any_mode (command_line cs) ≡ has_mode cs
unfolding any_mode
any_mode-command_line [] h = refl
any_mode-command_line (mode_given flag ∷ cs) h = rw h.0 refl
any_mode-command_line (switch_given k ∷ cs) h = any_mode-command_line cs h.1
any_mode-command_line (value_given k v ∷ cs) h =
    rw (plain-no_mode v h.0.1) (any_mode-command_line cs h.1)
any_mode-command_line (inline_given k v ∷ cs) h = any_mode-command_line cs h.1
