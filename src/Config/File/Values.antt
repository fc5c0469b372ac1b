-- ===== src/Config/File/Values.antt =====
-- src/config.rs: the values that a configuration file leaves for an option.
use newppp.Prelude.{
  ℕ, ◌≡◌, refl, sym, ◌∙◌, Bool, true, false, if◌then◌else◌, List, [], ◌∷◌, ◌++◌, Option, none, some,
  bytes_eq, bytes_eq→eq, bytes_eq_refl, arith, Bool-cases, inl, inr, append-nil,
}
use newppp.Prelude.Text.{text}
use newppp.Proto.Error.{Result, ok, >>=-eq-ok, ok-eq}
use newppp.Config.File.{among, bools, appends, mode_flag, switch_flag, parse_line}
use newppp.Config.File.Tokens.{Setting, mode_set, switch_set, value_set, drop_key}
use newppp.Config.File.Merge.{setting_of, value_setting, assign}

-- The values that stand for an option, in their order.
abbrev pub values_of : List ℕ → List Setting → List (List ℕ)
values_of key [] = []
values_of key (mode_set flag ∷ ss) = values_of key ss
values_of key (switch_set k ∷ ss) = values_of key ss
values_of key (value_set k v ∷ ss) =
    if bytes_eq k key then v ∷ values_of key ss else values_of key ss

-- The value that the last line for an option gives, where there is one; `seen` is that of the lines before.
abbrev pub line_value :
    List ℕ → List (List ℕ) → Result (Option (List ℕ × Option (List ℕ))) → List (List ℕ)
line_value key seen (ok (some (k, some v))) = if bytes_eq k key then v ∷ [] else seen
line_value key seen _ = seen

abbrev pub last_value : List ℕ → List (List ℕ) → List (List ℕ) → List (List ℕ)
last_value key seen [] = seen
last_value key seen (raw ∷ raws) = last_value key (line_value key seen (parse_line raw)) raws

-- An option with one value.
abbrev pub IsSingle : List ℕ → Type 0
IsSingle key =
    (among key bools ≡ false) × (among key appends ≡ false) × (bytes_eq key (text "mode") ≡ false)

values_of-append :
    (key : List ℕ) (ss ts : List Setting)
    → values_of key (ss ++ ts) ≡ values_of key ss ++ values_of key ts
values_of-append key [] ts = refl
values_of-append key (mode_set flag ∷ ss) ts = values_of-append key ss ts
values_of-append key (switch_set k ∷ ss) ts = values_of-append key ss ts
values_of-append key (value_set k v ∷ ss) ts = ground (arith, values_of-append key ss ts)

pub values_of-drop_key_same :
    (key : List ℕ) (ss : List Setting) → values_of key (drop_key key ss) ≡ []
values_of-drop_key_same key [] = refl
values_of-drop_key_same key (mode_set flag ∷ ss) = values_of-drop_key_same key ss
values_of-drop_key_same key (switch_set k ∷ ss) = ground (arith, values_of-drop_key_same key ss)
values_of-drop_key_same key (value_set k v ∷ ss) = elim (Bool-cases (bytes_eq k key)) [
  | inl this ↦ rw this (values_of-drop_key_same key ss)
  | inr other ↦ rw other (rw other (values_of-drop_key_same key ss))
]

pub values_of-drop_key_other :
    (key other : List ℕ) (ss : List Setting)
    → bytes_eq other key ≡ false
    → values_of key (drop_key other ss) ≡ values_of key ss
values_of-drop_key_other key other [] h = refl
values_of-drop_key_other key other (mode_set flag ∷ ss) h = values_of-drop_key_other key other ss h
values_of-drop_key_other key other (switch_set k ∷ ss) h =
    ground (arith, values_of-drop_key_other key other ss)
values_of-drop_key_other key other (value_set k v ∷ ss) h = elim (Bool-cases (bytes_eq k other)) [
  | inl this ↦
      let apart : bytes_eq k key ≡ false = rw (bytes_eq→eq k other this) h in
      rw (this, apart) (values_of-drop_key_other key other ss h)
  | inr kept ↦ ground (arith, values_of-drop_key_other key other ss)
]

-- A setting that is no value does not matter to the values.
values_of-base :
    (key : List ℕ) (ss : List Setting) (k : List ℕ)
    → bytes_eq k key ≡ false
    → values_of key (if among k appends then ss else drop_key k ss) ≡ values_of key ss
values_of-base key ss k other = elim (Bool-cases (among k appends)) [
  | inl many ↦ rw many refl
  | inr one ↦ rw one (values_of-drop_key_other key k ss other)
]

-- One option of the file: it replaces what stood for it, and leaves the others.
values_of-assign :
    (key : List ℕ) (ss : List Setting) (k v : List ℕ)
    → IsSingle key
    → values_of key (assign ss k (value_set k v))
      ≡ (if bytes_eq k key then v ∷ [] else values_of key ss)
values_of-assign key ss k v single = elim (Bool-cases (bytes_eq k key)) [
  | inl this ↦
      let same : k ≡ key = bytes_eq→eq k key this in
      rw
        (
          values_of-append key (if among k appends then ss else drop_key k ss) (value_set k v ∷ []),
          same,
          single.1,
          bytes_eq_refl key,
          values_of-drop_key_same key ss,
        )
        refl
  | inr other ↦
      rw
        (
          values_of-append key (if among k appends then ss else drop_key k ss) (value_set k v ∷ []),
          values_of-base key ss k other,
          other,
        )
        (append-nil (values_of key ss))
]

-- The same for any option of the file.
value_setting-values :
    (key : List ℕ) (ss : List Setting) (k : List ℕ) (value : Option (List ℕ)) (st : Setting)
    → IsSingle key
    → value_setting k value ≡ ok st
    → values_of key (assign ss k st) ≡ line_value key (values_of key ss) (ok (some (k, value)))
value_setting-values key ss k none st single e = absurd (cc e)
value_setting-values key ss k (some v) st single e =
    rw (← ok-eq e) (values_of-assign key ss k v single)

line_value-other :
    (key : List ℕ) (seen : List (List ℕ)) (k : List ℕ) (value : Option (List ℕ))
    → bytes_eq k key ≡ false
    → line_value key seen (ok (some (k, value))) ≡ seen
line_value-other key seen k none other = refl
line_value-other key seen k (some v) other = rw other refl

-- The name differs from that of a switch and from `mode`.
apart :
    (k key : List ℕ)
    → (test : List ℕ → Bool) → test k ≡ true
    → test key ≡ false
    → bytes_eq k key ≡ false
apart k key test h g = elim (Bool-cases (bytes_eq k key)) [
  | inl same ↦ let e : test key ≡ true = rw (← bytes_eq→eq k key same) h in absurd (cc (sym e ∙ g))
  | inr other ↦ other
]

pub setting_of-values :
    (key : List ℕ) (ss : List Setting) (k : List ℕ) (value : Option (List ℕ)) (st : Setting)
    → IsSingle key
    → setting_of k value ≡ ok st
    → values_of key (assign ss k st) ≡ line_value key (values_of key ss) (ok (some (k, value)))
unfolding setting_of
setting_of-values key ss k value st single e = elim (Bool-cases (bytes_eq k (text "mode"))) [
  | inl mode ↦
      let (flag, found, e1) =
        >>=-eq-ok (mode_flag value) (λ flag. ok (mode_set flag)) (rw mode at e) in
      let other = apart k key (λ x. bytes_eq x (text "mode")) mode single.2 in
      rw
        (
          ← ok-eq e1,
          values_of-append key (if among k appends then ss else drop_key k ss) (mode_set flag ∷ []),
          values_of-base key ss k other,
          line_value-other key (values_of key ss) k value other,
        )
        (append-nil (values_of key ss))
  | inr no_mode ↦ elim (Bool-cases (among k bools)) [
    | inl switch ↦
        let (flag, found, e1) =
          >>=-eq-ok (switch_flag k value) (λ flag. ok (switch_set k)) (rw (no_mode, switch) at e) in
        let other = apart k key (λ x. among x bools) switch single.0 in
        rw
          (
            ← ok-eq e1,
            values_of-append key (if among k appends then ss else drop_key k ss)
                (switch_set k ∷ []),
            values_of-base key ss k other,
            line_value-other key (values_of key ss) k value other,
          )
          (append-nil (values_of key ss))
    | inr valued_one ↦ value_setting-values key ss k value st single (rw (no_mode, valued_one) at e)
  ]
]
