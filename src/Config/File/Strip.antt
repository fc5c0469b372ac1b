-- ===== src/Config/File/Strip.antt =====
-- src/config.rs: `strip_cli_overridden` on the arguments of a configuration file.
use newppp.Prelude.{ℕ, Bool, true, false, not, ◌&&◌, ◌||◌, if◌then◌else◌, List, [], ◌∷◌, bytes_eq}
use newppp.Prelude.Text.{text}
use newppp.Config.File.Tokens.{Setting, mode_set, switch_set, value_set, sets, drop_key}
use newppp.Config.File.Overrides.{
  Given, mode_given, switch_given, value_given, inline_given, keys_of, has_mode,
}

drop_keys : List Setting → List (List ℕ) → List Setting
drop_keys ss [] = ss
drop_keys ss (key ∷ keys) = drop_keys (drop_key key ss) keys

drop_modes : List Setting → List Setting
drop_modes [] = []
drop_modes (mode_set flag ∷ ss) = drop_modes ss
drop_modes (switch_set k ∷ ss) = switch_set k ∷ drop_modes ss
drop_modes (value_set k v ∷ ss) = value_set k v ∷ drop_modes ss

-- What one option of the command line overrides in the file: any mode, or the settings of the same
-- option, unless it is `auth`.
abbrev pub overrides : Given → Setting → Bool
overrides (mode_given flag) (mode_set other) = true
overrides (mode_given flag) (switch_set k) = false
overrides (mode_given flag) (value_set k v) = false
overrides (switch_given key) s = sets key s
overrides (value_given key v) s = not (bytes_eq (text "auth") key) && sets key s
overrides (inline_given key v) s = not (bytes_eq (text "auth") key) && sets key s

abbrev pub overridden : List Given → Setting → Bool
overridden [] s = false
overridden (c ∷ cs) s = overrides c s || overridden cs s

-- The settings of the file that nothing on the command line overrides, in their order.
abbrev pub left_of : List Given → List Setting → List Setting
left_of cs [] = []
left_of cs (s ∷ ss) = if overridden cs s then left_of cs ss else s ∷ left_of cs ss

set_by : List (List ℕ) → Setting → Bool
set_by [] s = false
set_by (key ∷ keys) s = sets key s || set_by keys s

-- An option that is no mode.
abbrev IsOption : Setting → Type 0
IsOption (mode_set flag) = ⊥
IsOption (switch_set k) = Unit {0}
IsOption (value_set k v) = Unit {0}

-- The two passes of the code.
two_passes : List Given → List Setting → List Setting
two_passes cs ss =
    let kept = drop_keys ss (keys_of cs) in if has_mode cs then drop_modes kept else kept
