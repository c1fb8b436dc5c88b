-- ===== src/Probe/Values.antt =====
-- src/testbridge/qml_probe.cpp: the conversions between JSON and the values of Qt, what the methods read of their
-- parameters, and Qt itself as a parameter: a world of objects, which calls, events and the focus change.
use qml_and_bgfx_testbridge.Prelude.{ℕ, zero, suc, Bool, List, [], ◌∷◌, Option, none, some, String}
use qml_and_bgfx_testbridge.Prelude.Int.{ℤ, wrap, signed}
use qml_and_bgfx_testbridge.Json.{
  Json, null, boolean, integer, float, string, array, object, member, Items, end, field, nil, cons,
}
use qml_and_bgfx_testbridge.Rpc.{Outcome, returns, throws}
use qml_and_bgfx_testbridge.Endpoint.{
  Variant, invalid, null_value, bool, long_long, unsigned_long_long, double, text, other,
}
use qml_and_bgfx_testbridge.Probe.Input.{MouseButton, KeyboardModifiers, Key}

-- What is sent to a window: the place of a click is the middle of its item.
pub data Event : Type 0 where
  mouse_click mouse_dclick mouse_press mouse_release : MouseButton → KeyboardModifiers → ℤ → Event
  mouse_move : ℤ → Event
  key_click key_press key_release : Key → KeyboardModifiers → ℤ → Event
  type_char : ℕ → Event  -- toLatin1()

-- An argument of `QMetaObject::invokeMethod`.
pub data Argument : Type 0 where
  no_arg : Argument
  bool_arg : Bool → Argument
  int_arg : ℤ → Argument
  double_arg : ℕ → Argument
  string_arg : String → Argument
  variant_arg : Variant → Argument

pub record Geometry : Type 0 where
  pub x : ℕ
  pub y : ℕ
  pub width : ℕ
  pub height : ℕ
  pub top_left : ℕ × ℕ  -- mapToScene of the two corners
  pub bottom_right : ℕ × ℕ
  pub visible : Bool
  pub enabled : Bool
  pub opacity : ℕ
  pub z : ℕ
  pub rotation : ℕ
  pub scale : ℕ
  pub clip : Bool
  pub active_focus : Bool

pub record Qt : Type 1 where
  pub World : Type 0
  pub dead : World → ℕ → Bool
  pub property : World → ℕ → String → Variant
  pub set_property : World → ℕ → String → Variant → Bool × World
  -- with and without a place for the result; `none` if there is no such method
  pub invoke_returning : World → ℕ → String → List Argument → Option Variant × World
  pub invoke_void : World → ℕ → String → List Argument → Bool × World
  -- `none` if the object is no item
  pub geometry_of : World → ℕ → Option Geometry
  pub window_of : World → ℕ → Option ℕ
  -- to the window, at the middle of an item, if the event has a place
  pub send : World → ℕ → ℕ → Event → World
  pub force_active_focus : World → ℕ → World
  pub is_positive : ℕ → Bool  -- of a double
  pub minus : ℕ → ℕ → ℕ  -- of doubles
  pub latin1 : String → List ℕ
  pub to_lower : String → String
  pub single : String → Option ℕ
  pub digits : ℕ → String

-- nlohmann::json, as far as it is not in Json.
pub record Nlohmann : Type 0 where
  pub as_u64 : Json → Outcome ℕ
  pub as_int : Json → Outcome ℤ
  pub not_string : Json → String
  pub no_index : Json → String
  pub dump : Json → String

module _ (digits : ℕ → String) where
  unfoldable pub qvariant_to_json : Variant → Json
  qvariant_to_json invalid = null
  qvariant_to_json null_value = null
  qvariant_to_json (bool b) = boolean b
  qvariant_to_json (long_long n) = integer n
  qvariant_to_json (unsigned_long_long n) = string (digits n)
  qvariant_to_json (double bits) = float bits
  qvariant_to_json (text s) = string s
  qvariant_to_json (other s) = string s

unfoldable pub json_to_qvariant : (Json → String) → Json → Variant
json_to_qvariant dump null = invalid
json_to_qvariant dump (boolean b) = bool b
json_to_qvariant dump (integer n) = long_long (signed 64 (wrap 64 n))
json_to_qvariant dump (float bits) = double bits
json_to_qvariant dump (string s) = text s
json_to_qvariant dump (array js) = text (dump (array js))
json_to_qvariant dump (object fs) = text (dump (object fs))

module _ (nl : Nlohmann) where
  -- `get<std::string>()`
  unfoldable pub as_string : Json → Outcome String
  as_string (string s) = returns s
  as_string j = throws (nl.not_string j)

  -- `params[k]` behind a test that `params` contains k.
  unfoldable pub need : String → String → Json → Outcome Json
  need message k params = elim (member k params) [ some j ↦ returns j | none ↦ throws message ]

  -- `params.value(k, d)` of a text, of an `int`, and of a value.
  unfoldable pub value_string : String → String → Json → Outcome String
  value_string k d params = elim (member k params) [ some j ↦ as_string j | none ↦ returns d ]

  unfoldable pub value_int : String → ℤ → Json → Outcome ℤ
  value_int k d params = elim (member k params) [ some j ↦ nl.as_int j | none ↦ returns d ]

  abbrev pub value_json : String → Json → Json → Json
  value_json k d params = elim (member k params) [ some j ↦ j | none ↦ d ]

  -- `toArg` on a value.
  unfoldable pub to_arg : Json → Argument
  to_arg (boolean b) = bool_arg b
  to_arg (integer n) = int_arg (signed 32 (wrap 32 n))
  to_arg (float bits) = double_arg bits
  to_arg (string s) = string_arg s
  to_arg null = variant_arg (json_to_qvariant nl.dump null)
  to_arg (array js) = variant_arg (json_to_qvariant nl.dump (array js))
  to_arg (object fs) = variant_arg (json_to_qvariant nl.dump (object fs))

  -- `toArg` for the places from 0 to 9, of which `places` are left.
  unfoldable pub arguments : ℕ → Items → List Argument
  arguments zero js = []
  arguments (suc places) nil = no_arg ∷ arguments places nil
  arguments (suc places) (cons j js) = to_arg j ∷ arguments places js

  -- `args.size()` is 0 for null, and 1 for another value that is no array, which cannot be indexed.
  unfoldable pub all_arguments : Json → Outcome (List Argument)
  all_arguments (array js) = returns (arguments 10 js)
  all_arguments null = returns (arguments 10 nil)
  all_arguments (object end) = returns (arguments 10 nil)
  all_arguments (object (field k v fs)) = throws (nl.no_index (object (field k v fs)))
  all_arguments (boolean b) = throws (nl.no_index (boolean b))
  all_arguments (integer n) = throws (nl.no_index (integer n))
  all_arguments (float bits) = throws (nl.no_index (float bits))
  all_arguments (string s) = throws (nl.no_index (string s))
