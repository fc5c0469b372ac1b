-- ===== src/Config/File.antt =====
-- src/config.rs: the configuration file. `clap_option_tables` reads the options' names and kinds off
-- the attributes of `Cli`; here they are written out. An argument list is a list of texts, and a set of
-- keys is the list of them. Reading the file is left out: `content` is what it holds.
use newppp.Prelude.{
  ℕ, zero, suc, ◌+◌, ◌≡◌, Bool, true, false, not, leb, ◌==◌, ◌&&◌, ◌||◌, if◌then◌else◌, List, [],
  ◌∷◌, ◌++◌, Option, none, some, length, drop, bytes_eq,
}
use newppp.Prelude.Text.{text, trim, split_once, starts_with, strip_prefix, contains, lines}
use newppp.Proto.Error.{
  Result, ok, err, ensure, ◌>>◌, ◌>>=◌, bad_key, unknown_option, mode_without_value, bad_mode_value,
  switch_with_value, value_missing, config_without_path, config_twice,
}
use newppp.Config.Fields.{is_empty}
pub mod Tokens
pub mod Merge
pub mod Names
pub mod Values
pub mod Last
pub mod Overrides
pub mod Strip

unfoldable pub among : List ℕ → List (List ℕ) → Bool
among key [] = false
among key (k ∷ ks) = bytes_eq k key || among key ks

-- The options that are switches.
abbrev pub bools : List (List ℕ)
bools = text "skip-verify" ∷ text "self-signed" ∷ text "allow-private-targets" ∷ []

-- The options that may be repeated.
abbrev pub appends : List (List ℕ)
appends = text "auth" ∷ []

-- The options with one value, and `mode`, which only the file has.
abbrev pub singles : List (List ℕ)
singles =
    text "log"
    ∷ text "time"
    ∷ text "server"
    ∷ text "url"
    ∷ text "bind"
    ∷ text "http-bind"
    ∷ text "inbound-auth"
    ∷ text "conns"
    ∷ text "sni"
    ∷ text "pin"
    ∷ text "recv-window"
    ∷ text "max-frame-kb"
    ∷ text "listen"
    ∷ text "cert"
    ∷ text "key"
    ∷ text "fallback-listen"
    ∷ text "http-listen"
    ∷ text "acme-dir"
    ∷ text "path"
    ∷ text "max-sessions"
    ∷ text "rate"
    ∷ text "idle"
    ∷ text "udp-dns-ttl"
    ∷ text "max-unauth"
    ∷ text "health"
    ∷ text "config"
    ∷ text "shutdown-grace"
    ∷ text "mode"
    ∷ []

abbrev pub longs : List (List ℕ)
longs = bools ++ (appends ++ singles)

abbrev pub is_quote : ℕ → Bool
is_quote c = (c == b'\'') || (c == b'"')

abbrev last_byte : ℕ → List ℕ → ℕ
last_byte c [] = c
last_byte c (d ∷ s) = last_byte d s

abbrev but_last : List ℕ → List ℕ
but_last [] = []
but_last (c ∷ []) = []
but_last (c ∷ d ∷ s) = c ∷ but_last (d ∷ s)

abbrev quoted_ends : ℕ → List ℕ → List ℕ
quoted_ends c [] = c ∷ []
quoted_ends c (d ∷ s) = if (last_byte d s == c) && is_quote c then but_last (d ∷ s) else c ∷ d ∷ s

-- A closing quote: what follows it is a comment.
abbrev closed_quote : ℕ → List ℕ → Option (List ℕ × List ℕ) → List ℕ
closed_quote c s none = quoted_ends c s
closed_quote c s (some (inside, comment)) = inside

unfoldable pub parse_value : List ℕ → Option (List ℕ)
parse_value [] = none
parse_value (c ∷ s) =
    some (if is_quote c then closed_quote c s (split_once c s) else quoted_ends c s)

abbrev pub dashed : List ℕ → List ℕ
dashed key = text "--" ++ key

abbrev pub has_dash : List ℕ → Bool
has_dash a = starts_with (text "-") a

-- `remove_earlier_option`; `pending` where the last token was the option itself, so that a token
-- without a dash is its value.
unfoldable pub remove_from : List ℕ → Bool → List (List ℕ) → List (List ℕ)
remove_from key pending [] = []
remove_from key pending (a ∷ out) = elim (pending && not (has_dash a)) [
  | true ↦ remove_from key false out
  | false ↦ elim (bytes_eq a (dashed key)) [
    | true ↦ remove_from key true out
    | false ↦ elim (starts_with (dashed key ++ text "=") a) [
      | true ↦ remove_from key false out
      | false ↦ a ∷ remove_from key false out
    ]
  ]
]

unfoldable pub remove_earlier_option : List (List ℕ) → List ℕ → List (List ℕ)
remove_earlier_option out key = remove_from key false out

unfoldable pub mode_flag : Option (List ℕ) → Result (List ℕ)
mode_flag none = err mode_without_value
mode_flag (some v) =
    if bytes_eq v (text "server")
    then ok (text "-s")
    else if bytes_eq v (text "client")
    then ok (text "-c")
    else err bad_mode_value

unfoldable pub switch_flag : List ℕ → Option (List ℕ) → Result (List ℕ)
switch_flag key none = ok (dashed key)
switch_flag key (some v) =
    if bytes_eq v (text "true") then ok (dashed key) else err switch_with_value

unfoldable pub valued : List ℕ → Option (List ℕ) → Result (List (List ℕ))
valued key none = err value_missing
valued key (some v) = ok (dashed key ∷ v ∷ [])

-- One option of the file, after the check of its name.
unfoldable pub put_option : List (List ℕ) → List ℕ → Option (List ℕ) → Result (List (List ℕ))
put_option out key value =
    let out' = if among key appends then out else remove_earlier_option out key in
    if bytes_eq key (text "mode")
    then (do flag ← mode_flag value; ok (out' ++ (flag ∷ [])))
    else if among key bools
    then (do flag ← switch_flag key value; ok (out' ++ (flag ∷ [])))
    else (do tokens ← valued key value; ok (out' ++ tokens))

-- The key and the value of a line that is neither empty nor a comment.
abbrev pub key_value : List ℕ → Option (List ℕ × List ℕ) → Result (List ℕ × Option (List ℕ))
key_value line none = ok (line, none)
key_value line (some (k, v)) =
    ensure (not (is_empty (trim k)) && not (contains b' ' (trim k))) bad_key
    >> ok (trim k, parse_value (trim v))

-- The options that the lines set, in their order.
unfoldable pub parse_line : List ℕ → Result (Option (List ℕ × Option (List ℕ)))
parse_line raw =
    let line = trim raw in
    if is_empty line || starts_with (text "#") line then ok none else (do
      kv ← key_value line (split_once b'=' line)
      ensure (among kv.0 longs) unknown_option >> ok (some kv))

unfoldable pub put_line :
    List (List ℕ) → Bool → Option (List ℕ × Option (List ℕ)) → Result (List (List ℕ) × Bool)
put_line out creds none = ok (out, creds)
put_line out creds (some (key, value)) = do
  out' ← put_option out key value
  ok (out', creds || bytes_eq key (text "auth"))

unfoldable pub parse_lines : List (List ℕ) → Bool → List (List ℕ) → Result (List (List ℕ) × Bool)
unfolding put_line
parse_lines out creds [] = ok (out, creds)
parse_lines out creds (raw ∷ raws) = do
  line ← parse_line raw
  r ← put_line out creds line
  parse_lines r.0 r.1 raws

-- The arguments, and whether there are credentials among them.
unfoldable pub parse_config_file : List ℕ → Result (List (List ℕ) × Bool)
parse_config_file content = parse_lines [] false (
    lines
      (elim (strip_prefix (0xEF ∷ 0xBB ∷ 0xBF ∷ []) content) [ none ↦ content | some rest ↦ rest ]))

-- `extract_config_arg`, behind the name of the program.
abbrev config_given : Option (List ℕ) → List ℕ → Result (Option (List ℕ))
config_given none v = ok (some v)
config_given (some old) v = err config_twice

unfoldable pub extract_from :
    Option (List ℕ) → List (List ℕ) → Result (Option (List ℕ) × List (List ℕ))
extract_from config [] = ok (config, [])
extract_from config (a ∷ []) =
    if bytes_eq a (text "--config")
    then err config_without_path
    else elim (strip_prefix (text "--config=") a) [
      | none ↦ ok (config, a ∷ [])
      | some v ↦ do config' ← config_given config v; ok (config', [])
    ]
extract_from config (a ∷ b ∷ args) = elim (bytes_eq a (text "--config")) [
  | true ↦ do config' ← config_given config b; extract_from config' args
  | false ↦ elim (strip_prefix (text "--config=") a) [
    | none ↦ do r ← extract_from config (b ∷ args); ok (r.0, a ∷ r.1)
    | some v ↦ do config' ← config_given config v; extract_from config' (b ∷ args)
  ]
]

unfoldable pub extract_config_arg : List (List ℕ) → Result (Option (List ℕ) × List (List ℕ))
extract_config_arg [] = ok (none, [])
extract_config_arg (name ∷ args) = do r ← extract_from none args; ok (r.0, name ∷ r.1)

-- What the command line overrides: the name before `=`, if any, and whether there was one.
abbrev option_name : List ℕ → Option (List ℕ × List ℕ) → List ℕ × Bool
option_name rest none = (rest, false)
option_name rest (some (k, v)) = (k, true)

-- Whether the next token is the option's value.
abbrev takes_next : List ℕ → List ℕ → Bool → Bool
takes_next rest key inline = not (inline || (among key bools || is_empty rest))

unfoldable pub override_keys : List (List ℕ) → List (List ℕ)
override_keys [] = []
override_keys (tok ∷ []) = elim (strip_prefix (text "--") tok) [
  | none ↦ []
  | some rest ↦
      let (key, inline) = option_name rest (split_once b'=' rest) in
      if among key longs && not (among key appends) then key ∷ [] else []
]
override_keys (tok ∷ next ∷ args) = elim (strip_prefix (text "--") tok) [
  | none ↦ override_keys (next ∷ args)
  | some rest ↦
      let (key, inline) = option_name rest (split_once b'=' rest) in
      elim (among key longs && not (among key appends)) [
        | true ↦ elim (takes_next rest key inline && not (has_dash next)) [
          | true ↦ key ∷ override_keys args
          | false ↦ key ∷ override_keys (next ∷ args)
        ]
        | false ↦ override_keys (next ∷ args)
      ]
]

unfoldable pub remove_all : List (List ℕ) → List (List ℕ) → List (List ℕ)
remove_all out [] = out
remove_all out (key ∷ keys) = remove_all (remove_earlier_option out key) keys

abbrev pub is_mode_flag : List ℕ → Bool
is_mode_flag a = bytes_eq a (text "-c") || bytes_eq a (text "-s")

unfoldable pub any_mode : List (List ℕ) → Bool
any_mode [] = false
any_mode (a ∷ args) = is_mode_flag a || any_mode args

unfoldable pub without_modes : List (List ℕ) → List (List ℕ)
without_modes [] = []
without_modes (a ∷ args) = if is_mode_flag a then without_modes args else a ∷ without_modes args

unfoldable pub strip_cli_overridden : List (List ℕ) → List (List ℕ) → List (List ℕ)
strip_cli_overridden file_args cli_args =
    let kept = remove_all file_args (override_keys cli_args) in
    if any_mode cli_args then without_modes kept else kept
