-- ===== src/Probe/Input.antt =====
-- src/testbridge/qml_probe.cpp, `parseMouseButton`, `parseModifiers` and `parseKey`. The constants of Qt are kept by
-- name; the modifiers, which are distinct bits, are a Bool each. Qt's case mapping is a parameter.
pub mod Modifiers
use qml_and_bgfx_testbridge.Prelude.{
  ℕ, Bool, true, false, ◌||◌, List, [], ◌∷◌, Option, none, some, String, str_append, str_eq, ◌==◌,
  if◌then◌else◌,
}
use qml_and_bgfx_testbridge.Json.{
  Json, null, boolean, integer, float, string, array, object, Items, nil, cons,
}
use qml_and_bgfx_testbridge.Rpc.{Outcome, returns, throws, throws_other}

-- What throws goes up.
infixl 5 ◌>>=◌
abbrev pub ◌>>=◌ : {A B : Type 0} → Outcome A → (A → Outcome B) → Outcome B
returns a >>= f = f a
throws what >>= f = throws what
throws_other >>= f = throws_other

pub data MouseButton : Type 0 where
  left_button right_button middle_button : MouseButton

unfoldable pub parse_mouse_button : String → Outcome MouseButton
parse_mouse_button s =
    if str_eq s "left" || str_eq s ""
    then returns left_button
    else if str_eq s "right"
    then returns right_button
    else if str_eq s "middle"
    then returns middle_button
    else throws (str_append "unknown mouse button: " s)

pub record KeyboardModifiers : Type 0 where
  pub control : Bool
  pub shift : Bool
  pub alt : Bool
  pub meta : Bool
  pub keypad : Bool

abbrev pub no_modifier : KeyboardModifiers
no_modifier = record { control = false; shift = false; alt = false; meta = false; keypad = false }

-- The chain of tests for one entry.
unfoldable pub add_modifier : String → KeyboardModifiers → Outcome KeyboardModifiers
add_modifier s out =
    if str_eq s "ctrl" || str_eq s "control"
    then returns (record out { control = true })
    else if str_eq s "shift"
    then returns (record out { shift = true })
    else if str_eq s "alt"
    then returns (record out { alt = true })
    else if str_eq s "meta" || str_eq s "super"
    then returns (record out { meta = true })
    else if str_eq s "keypad"
    then returns (record out { keypad = true })
    else throws (str_append "unknown modifier: " s)

abbrev pub not_a_string : Outcome KeyboardModifiers
not_a_string = throws "modifier entry must be a string"

unfoldable pub modifiers_loop : Items → KeyboardModifiers → Outcome KeyboardModifiers
modifiers_loop nil out = returns out
modifiers_loop (cons (string s) rest) out = add_modifier s out >>= modifiers_loop rest
modifiers_loop (cons null rest) out = not_a_string
modifiers_loop (cons (boolean _) rest) out = not_a_string
modifiers_loop (cons (integer _) rest) out = not_a_string
modifiers_loop (cons (float _) rest) out = not_a_string
modifiers_loop (cons (array _) rest) out = not_a_string
modifiers_loop (cons (object _) rest) out = not_a_string

abbrev pub not_an_array : Outcome KeyboardModifiers
not_an_array = throws "modifiers must be an array of strings"

unfoldable pub parse_modifiers : Json → Outcome KeyboardModifiers
parse_modifiers null = returns no_modifier
parse_modifiers (array mods) = modifiers_loop mods no_modifier
parse_modifiers (boolean _) = not_an_array
parse_modifiers (integer _) = not_an_array
parse_modifiers (float _) = not_an_array
parse_modifiers (string _) = not_an_array
parse_modifiers (object _) = not_an_array

-- A `Qt::Key_...` by its name, or the code of a character.
pub data Key : Type 0 where
  named : String → Key
  code : ℕ → Key

-- `kMap`
abbrev pub key_map : List (String × Key)
key_map =
    ("enter", named "Return")
    ∷ ("return", named "Return")
    ∷ ("escape", named "Escape")
    ∷ ("esc", named "Escape")
    ∷ ("tab", named "Tab")
    ∷ ("backtab", named "Backtab")
    ∷ ("space", named "Space")
    ∷ ("backspace", named "Backspace")
    ∷ ("delete", named "Delete")
    ∷ ("home", named "Home")
    ∷ ("end", named "End")
    ∷ ("pageup", named "PageUp")
    ∷ ("pagedown", named "PageDown")
    ∷ ("up", named "Up")
    ∷ ("down", named "Down")
    ∷ ("left", named "Left")
    ∷ ("right", named "Right")
    ∷ ("insert", named "Insert")
    ∷ ("f1", named "F1")
    ∷ ("f2", named "F2")
    ∷ ("f3", named "F3")
    ∷ ("f4", named "F4")
    ∷ ("f5", named "F5")
    ∷ ("f6", named "F6")
    ∷ ("f7", named "F7")
    ∷ ("f8", named "F8")
    ∷ ("f9", named "F9")
    ∷ ("f10", named "F10")
    ∷ ("f11", named "F11")
    ∷ ("f12", named "F12")
    ∷ []

unfoldable pub key_named : String → List (String × Key) → Option Key
key_named q [] = none
key_named q ((n, k) ∷ rest) = if str_eq n q then some k else key_named q rest

-- `to_lower` is that of QString, `single` gives the code of the upper case of a text of one byte.
unfoldable pub parse_key : (String → String) → (String → Option ℕ) → String → Outcome Key
parse_key to_lower single name = elim (key_named (to_lower name) key_map) [
  | some k ↦ returns k
  | none ↦ elim (single name) [
    | some c ↦ returns (code c)
    | none ↦ throws (str_append "unknown key name: " name)
  ]
]
