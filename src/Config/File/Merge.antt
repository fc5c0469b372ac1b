-- ===== src/Config/File/Merge.antt =====
-- src/config.rs: the lines of a configuration file merged, the last one for an option winning, and the
-- argument list that `parse_config_file` edits.
use newppp.Prelude.{
  ℕ, ◌≡◌, refl, sym, ap, ◌∙◌, true, false, if◌then◌else◌, List, [], ◌∷◌, ◌++◌, Option, none, some,
  bytes_eq, arith, All, Bool-cases, inl, inr, append-nil,
}
use newppp.Prelude.Text.{text}
use newppp.Proto.Error.{Result, ok, err, ◌>>=◌, >>=-eq-ok, ok-eq, value_missing}
use newppp.Config.File.{
  among, bools, appends, dashed, has_dash, remove_earlier_option, is_mode_flag, mode_flag,
  switch_flag, valued, put_option,
}
use newppp.Config.File.Tokens.{
  Setting, mode_set, switch_set, value_set, tokens, render, drop_key, NoEquals, IsPlain,
  remove_earlier_option-render, render-append,
}

abbrev pub value_setting : List ℕ → Option (List ℕ) → Result Setting
value_setting key none = err value_missing
value_setting key (some v) = ok (value_set key v)

unfoldable pub setting_of : List ℕ → Option (List ℕ) → Result Setting
setting_of key value =
    if bytes_eq key (text "mode")
    then (mode_flag value >>= λ flag. ok (mode_set flag))
    else if among key bools
    then (switch_flag key value >>= λ flag. ok (switch_set key))
    else value_setting key value

-- The option's earlier settings go, unless it may be repeated.
abbrev pub assign : List Setting → List ℕ → Setting → List Setting
assign ss key st = (if among key appends then ss else drop_key key ss) ++ (st ∷ [])

abbrev pub IsPlainValue : Option (List ℕ) → Type 0
IsPlainValue none = Unit {0}
IsPlainValue (some v) = has_dash v ≡ false

base-render :
    (ss : List Setting) (key : List ℕ)
    → All IsPlain ss
    → (if among key appends then render ss else remove_earlier_option (render ss) key)
      ≡ render (if among key appends then ss else drop_key key ss)
base-render ss key h = elim (Bool-cases (among key appends)) [
  | inl many ↦ rw many refl
  | inr one ↦ rw one (remove_earlier_option-render key ss h)
]

render-snoc : (ss : List Setting) (st : Setting) → render (ss ++ (st ∷ [])) ≡ render ss ++ tokens st
render-snoc ss st = render-append ss (st ∷ []) ∙ ap (◌++◌ (render ss)) (append-nil (tokens st))

switch_flag-dashed :
    (key : List ℕ) (value : Option (List ℕ)) (flag : List ℕ)
    → switch_flag key value ≡ ok flag
    → flag ≡ dashed key
unfolding switch_flag
switch_flag-dashed key none flag e = sym (ok-eq e)
switch_flag-dashed key (some v) flag e = ground (arith, e)

put_mode :
    (base : List Setting) (r : Result (List ℕ))
    → (r >>= λ flag. ok (render base ++ (flag ∷ [])))
      ≡ ((r >>= λ flag. ok (mode_set flag)) >>= λ st. ok (render (base ++ (st ∷ []))))
put_mode base (err e) = refl
put_mode base (ok flag) = ap ok (sym (render-snoc base (mode_set flag)))

put_switch :
    (base : List Setting) (key : List ℕ) (r : Result (List ℕ))
    → ((flag : List ℕ) → r ≡ ok flag → flag ≡ dashed key)
    → (r >>= λ flag. ok (render base ++ (flag ∷ [])))
      ≡ ((r >>= λ flag. ok (switch_set key)) >>= λ st. ok (render (base ++ (st ∷ []))))
put_switch base key (err e) h = refl
put_switch base key (ok flag) h = rw (h flag refl) (ap ok (sym (render-snoc base (switch_set key))))

put_value :
    (base : List Setting) (key : List ℕ) (value : Option (List ℕ))
    → (valued key value >>= λ ts. ok (render base ++ ts))
      ≡ (value_setting key value >>= λ st. ok (render (base ++ (st ∷ []))))
unfolding valued
put_value base key none = refl
put_value base key (some v) = ap ok (sym (render-snoc base (value_set key v)))

put_base :
    (base : List Setting) (key : List ℕ) (value : Option (List ℕ))
    → (if bytes_eq key (text "mode")
        then (mode_flag value >>= λ flag. ok (render base ++ (flag ∷ [])))
        else if among key bools
        then (switch_flag key value >>= λ flag. ok (render base ++ (flag ∷ [])))
        else (valued key value >>= λ ts. ok (render base ++ ts)))
      ≡ (setting_of key value >>= λ st. ok (render (base ++ (st ∷ []))))
unfolding setting_of
put_base base key value = elim (Bool-cases (bytes_eq key (text "mode"))) [
  | inl mode ↦ rw mode (put_mode base (mode_flag value))
  | inr other ↦ elim (Bool-cases (among key bools)) [
    | inl switch ↦
        rw (other, switch)
          (put_switch base key (switch_flag key value) (switch_flag-dashed key value))
    | inr single ↦ rw (other, single) (put_value base key value)
  ]
]

-- What one option of the file does to the argument list.
pub put_option-render :
    (ss : List Setting) (key : List ℕ) (value : Option (List ℕ))
    → All IsPlain ss
    → put_option (render ss) key value
      ≡ (setting_of key value >>= λ st. ok (render (assign ss key st)))
unfolding put_option
put_option-render ss key value h =
    rw (base-render ss key h)
      (put_base (if among key appends then ss else drop_key key ss) key value)

mode_flag-is_mode_flag :
    (value : Option (List ℕ)) (flag : List ℕ) → mode_flag value ≡ ok flag → is_mode_flag flag ≡ true
unfolding mode_flag
mode_flag-is_mode_flag none flag e = absurd (cc e)
mode_flag-is_mode_flag (some v) flag e = elim (Bool-cases (bytes_eq v (text "server"))) [
  | inl server ↦ let same : ok (text "-s") ≡ ok flag = rw server at e in rw (← ok-eq same) refl
  | inr other ↦ elim (Bool-cases (bytes_eq v (text "client"))) [
    | inl client ↦
        let same : ok (text "-c") ≡ ok flag = rw (other, client) at e in rw (← ok-eq same) refl
    | inr neither ↦ absurd (ground arith)
  ]
]

value_setting-IsPlain :
    (key : List ℕ) (value : Option (List ℕ)) (st : Setting)
    → NoEquals key
    → IsPlainValue value
    → value_setting key value ≡ ok st
    → IsPlain st
value_setting-IsPlain key none st k v e = absurd (cc e)
value_setting-IsPlain key (some w) st k v e = rw (← ok-eq e) (k, v)

pub setting_of-IsPlain :
    (key : List ℕ) (value : Option (List ℕ)) (st : Setting)
    → NoEquals key
    → IsPlainValue value
    → setting_of key value ≡ ok st
    → IsPlain st
unfolding setting_of
setting_of-IsPlain key value st k v e = elim (Bool-cases (bytes_eq key (text "mode"))) [
  | inl mode ↦
      let (flag, found, e1) =
        >>=-eq-ok (mode_flag value) (λ flag. ok (mode_set flag)) (rw mode at e) in
      rw (← ok-eq e1) (mode_flag-is_mode_flag value flag found)
  | inr other ↦ elim (Bool-cases (among key bools)) [
    | inl switch ↦
        let (flag, found, e1) =
          >>=-eq-ok (switch_flag key value) (λ flag. ok (switch_set key))
            (rw (other, switch) at e) in
        rw (← ok-eq e1) k
    | inr single ↦ value_setting-IsPlain key value st k v (rw (other, single) at e)
  ]
]
