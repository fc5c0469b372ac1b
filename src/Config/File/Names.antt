-- ===== src/Config/File/Names.antt =====
-- src/config.rs: the names of the options.
use newppp.Prelude.{
  ℕ, ◌≡◌, refl, Bool, true, not, ◌&&◌, ◌||◌, List, [], ◌∷◌, Option, none, some, bytes_eq,
  bytes_eq→eq, arith, Bool-cases, inl, inr,
}
use newppp.Prelude.Text.{text, contains, split_once, trim, starts_with}
use newppp.Proto.Error.{Result, ok, ensure, ◌>>◌, >>=-eq-ok, ensure_then, unknown_option}
use newppp.Config.Fields.{is_empty}
use newppp.Config.File.{among, longs, key_value, parse_line}
use newppp.Config.File.Tokens.{NoEquals}

-- The table, checked by evaluation.
no_equals : List (List ℕ) → Bool
no_equals [] = true
no_equals (k ∷ ks) = not (contains b'=' k) && no_equals ks

longs-no_equals : no_equals longs ≡ true
unfolding no_equals contains
longs-no_equals = refl

among-NoEquals :
    (key : List ℕ) (ks : List (List ℕ)) → no_equals ks ≡ true → among key ks ≡ true → NoEquals key
unfolding no_equals among
among-NoEquals key [] h m = absurd (cc m)
among-NoEquals key (k ∷ ks) h m = elim (Bool-cases (bytes_eq k key)) [
  | inl this ↦ rw (← bytes_eq→eq k key this) (ground arith)
  | inr other ↦ among-NoEquals key ks (ground arith) (rw other at m)
]

pub parse_line-NoEquals :
    (raw key : List ℕ) (value : Option (List ℕ))
    → parse_line raw ≡ ok (some (key, value))
    → NoEquals key
unfolding parse_line
parse_line-NoEquals raw key value e =
    elim (Bool-cases (is_empty (trim raw) || starts_with (text "#") (trim raw))) [
      | inl skipped ↦
          let same : ◌≡◌ {A = Result (Option (List ℕ × Option (List ℕ)))} (ok none)
              (ok (some (key, value))) =
            rw skipped at e in
          absurd (cc same)
      | inr entry ↦
          let (kv, split, e1) =
            >>=-eq-ok (key_value (trim raw) (split_once b'=' (trim raw)))
              (λ kv. ensure (among kv.0 longs) unknown_option >> ok (some kv)) (rw entry at e) in
          let (known, e2) = ensure_then (among kv.0 longs) unknown_option (ok (some kv)) e1 in
          let same : kv.0 ≡ key = cc e2 in
          rw (← same) (among-NoEquals kv.0 longs longs-no_equals known)
    ]
