-- ===== src/Config/File/Last.antt =====
-- src/config.rs: `parse_config_file` against the file's options, of which the last one wins.
use newppp.Prelude.{
  ℕ, ◌≡◌, refl, sym, ap, ◌∙◌, Bool, false, ◌||◌, List, [], ◌∷◌, ◌++◌, Option, none, some, bytes_eq,
  All, Bool-cases, inl, inr,
}
use newppp.Prelude.Text.{text}
use newppp.Proto.Error.{Result, ok, ◌>>=◌, >>=-eq-ok, ok-eq}
use newppp.Config.File.{among, appends, put_option, parse_line, put_line, parse_lines}
use newppp.Config.File.Tokens.{Setting, render, drop_key, NoEquals, IsPlain, drop_key-IsPlain}
use newppp.Config.File.Merge.{
  setting_of, assign, IsPlainValue, put_option-render, setting_of-IsPlain,
}
use newppp.Config.File.Values.{values_of, line_value, last_value, IsSingle, setting_of-values}
use newppp.Config.File.Names.{parse_line-NoEquals}

-- The value that a line gives does not begin with a dash.
abbrev IsPlainParse : Result (Option (List ℕ × Option (List ℕ))) → Type 0
IsPlainParse (ok (some (key, value))) = IsPlainValue value
IsPlainParse _ = Unit {0}

abbrev pub IsPlainLine : List ℕ → Type 0
IsPlainLine raw = IsPlainParse (parse_line raw)

snoc-IsPlain :
    (ss : List Setting) (st : Setting) → All IsPlain ss → IsPlain st → All IsPlain (ss ++ (st ∷ []))
snoc-IsPlain [] st h p = (p, tt)
snoc-IsPlain (s ∷ ss) st h p = (h.0, snoc-IsPlain ss st h.1 p)

assign-IsPlain :
    (ss : List Setting) (k : List ℕ) (st : Setting)
    → All IsPlain ss
    → IsPlain st
    → All IsPlain (assign ss k st)
assign-IsPlain ss k st h p = elim (Bool-cases (among k appends)) [
  | inl many ↦ rw many (snoc-IsPlain ss st h p)
  | inr one ↦ rw one (snoc-IsPlain (drop_key k ss) st (drop_key-IsPlain k ss h) p)
]

-- A step of the parser: the list of settings behind the arguments moves along.
put_line-settings :
    (ss : List Setting) (creds : Bool) (line : Option (List ℕ × Option (List ℕ)))
    (r : List (List ℕ) × Bool)
    → All IsPlain ss
    → ((k : List ℕ) (value : Option (List ℕ))
        → line ≡ some (k, value)
        → NoEquals k × IsPlainValue value)
    → put_line (render ss) creds line ≡ ok r
    → (ss' : List Setting) × (r.0 ≡ render ss')
      × All IsPlain ss'
      × ((key : List ℕ)
          → IsSingle key
          → values_of key ss' ≡ line_value key (values_of key ss) (ok line))
unfolding put_line
put_line-settings ss creds none r h plain e =
    let same : (render ss, creds) ≡ r = ok-eq e in
    (ss, ap (λ (x : List (List ℕ) × Bool). x.0) (sym same), h, λ key single. refl)
put_line-settings ss creds (some (k, value)) r h plain e =
    let (out, put, e1) =
      >>=-eq-ok (put_option (render ss) k value)
        (λ out. ok (out, creds || bytes_eq k (text "auth"))) e in
    let (st, set, e2) =
      >>=-eq-ok (setting_of k value) (λ st. ok (render (assign ss k st)))
        (sym (put_option-render ss k value h) ∙ put) in
    let same : (out, creds || bytes_eq k (text "auth")) ≡ r = ok-eq e1 in
    let (name, safe) = plain k value refl in
    (
      assign ss k st,
      ap (λ (x : List (List ℕ) × Bool). x.0) (sym same) ∙ sym (ok-eq e2),
      assign-IsPlain ss k st h (setting_of-IsPlain k value st name safe set),
      λ key single. setting_of-values key ss k value st single set,
    )

plain_value :
    (k : List ℕ) (value : Option (List ℕ)) (r : Result (Option (List ℕ × Option (List ℕ))))
    → r ≡ ok (some (k, value))
    → IsPlainParse r
    → IsPlainValue value
plain_value k value r e h = rw e at h

parse_lines-settings :
    (raws : List (List ℕ)) (ss : List Setting) (creds : Bool) (r : List (List ℕ) × Bool)
    → All IsPlain ss
    → All IsPlainLine raws
    → parse_lines (render ss) creds raws ≡ ok r
    → (ss' : List Setting) × (r.0 ≡ render ss')
      × All IsPlain ss'
      × ((key : List ℕ) → IsSingle key → values_of key ss' ≡ last_value key (values_of key ss) raws)
unfolding parse_lines
parse_lines-settings [] ss creds r h plain e =
    (ss, ap (λ (x : List (List ℕ) × Bool). x.0) (sym (ok-eq e)), h, λ key single. refl)
parse_lines-settings (raw ∷ raws) ss creds r h plain e =
    let (line, read, e1) =
      >>=-eq-ok (parse_line raw)
        (λ line. put_line (render ss) creds line >>= λ r'. parse_lines r'.0 r'.1 raws) e in
    let (r', put, e2) =
      >>=-eq-ok (put_line (render ss) creds line) (λ r'. parse_lines r'.0 r'.1 raws) e1 in
    let (ss1, args, plain1, values1) =
      put_line-settings ss creds line r' h
        (λ k value same. (
          parse_line-NoEquals raw k value (read ∙ ap ok same),
          plain_value k value (parse_line raw) (read ∙ ap ok same) plain.0,
        ))
        put in
    let (ss2, args2, plain2, values2) =
      parse_lines-settings raws ss1 r'.1 r plain1 plain.1 (rw args at e2) in
    (
      ss2,
      args2,
      plain2,
      λ key single.
          values2 key single
          ∙ ap (λ seen. last_value key seen raws)
              (values1 key single ∙ ap (line_value key (values_of key ss)) (sym read)),
    )

-- The arguments of a configuration file that is accepted, and whose values do not begin with a dash,
-- are those of a list of settings, in which an option with one value has one value at most: that of the
-- last line that gives it one.
pub parse_lines_last :
    (raws : List (List ℕ)) (out : List (List ℕ)) (creds : Bool)
    → All IsPlainLine raws
    → parse_lines [] false raws ≡ ok (out, creds)
    → (ss : List Setting) × (out ≡ render ss)
      × All IsPlain ss
      × ((key : List ℕ) → IsSingle key → values_of key ss ≡ last_value key [] raws)
parse_lines_last raws out creds plain e = parse_lines-settings raws [] false (out, creds) tt plain e
