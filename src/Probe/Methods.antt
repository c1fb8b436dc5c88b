-- ===== src/Probe/Methods.antt =====
-- src/testbridge/qml_probe.cpp: `get`, `set`, `invoke`, `click`, `type`, `mouse`, `key` and `geometry`. What throws
-- goes up through the lambda and out of the method, which runs on the thread of its caller
-- (`Qt::DirectConnection`); what has been done to the world stays done.
pub mod Refusals
use qml_and_bgfx_testbridge.Prelude.{
  ℕ, Bool, true, false, not, ◌||◌, ◌&&◌, List, [], ◌∷◌, Option, none, some, String, str_append,
  str_eq, if◌then◌else◌,
}
use qml_and_bgfx_testbridge.Prelude.Int.{ℤ, negsuc}
use qml_and_bgfx_testbridge.Json.{Json, null, boolean, float, object_of, array, nil}
use qml_and_bgfx_testbridge.Rpc.{Outcome, returns, throws, throws_other}
use qml_and_bgfx_testbridge.Endpoint.{Variant, invalid}
use qml_and_bgfx_testbridge.Probe.Objects.{Registry, resolve_handle}
use qml_and_bgfx_testbridge.Probe.Input.{
  ◌>>=◌, MouseButton, left_button, KeyboardModifiers, no_modifier, Key, parse_mouse_button,
  parse_modifiers, parse_key,
}
use qml_and_bgfx_testbridge.Probe.Values.{
  Event, mouse_click, mouse_dclick, mouse_press, mouse_release, mouse_move, key_click, key_press,
  key_release, type_char, Argument, Geometry, Qt, Nlohmann, qvariant_to_json, json_to_qvariant,
  as_string, need, value_string, value_int, value_json, all_arguments,
}

module _ (qt : Qt) (nl : Nlohmann) where
  abbrev pub Answer : Type 0
  Answer = Outcome Json × qt.World

  -- `resolveHandle`, or the throw.
  abbrev pub with_object : Option ℕ → (ℕ → qt.World → Answer) → qt.World → Answer
  with_object none body w = (throws "Invalid or stale handle", w)
  with_object (some o) body w = body o w

  abbrev pub with_window : Option Geometry → Option ℕ → (ℕ → Answer) → qt.World → Answer
  with_window none window body w = (throws "Object is not a QQuickItem", w)
  with_window (some g) none body w = (throws "QQuickItem has no window", w)
  with_window (some g) (some win) body w = body win

  -- The parameters with the handle in front, and what to do with the object.
  abbrev pub act :
      {A : Type 0} → Registry → Outcome (ℕ × A) → (A → ℕ → qt.World → Answer) → qt.World → Answer
  act registry (returns (handle, a)) body w =
      with_object (resolve_handle (qt.dead w) handle registry) (body a) w
  act registry (throws what) body w = (throws what, w)
  act registry throws_other body w = (throws_other, w)

  unfoldable pub get_params : Json → Outcome (ℕ × String)
  get_params params = do
    let message : String = "params.handle and params.property required"
    h ← need nl message "handle" params
    p ← need nl message "property" params
    handle ← nl.as_u64 h
    prop ← as_string nl p
    returns (handle, prop)

  unfoldable pub get : Registry → Json → qt.World → Answer
  get registry params =
      act registry (get_params params)
        (λ prop o w. (returns (qvariant_to_json qt.digits (qt.property w o prop)), w))

  unfoldable pub set_params : Json → Outcome (ℕ × (String × Variant))
  set_params params = do
    let message : String = "params.handle, params.property, params.value required"
    h ← need nl message "handle" params
    p ← need nl message "property" params
    v ← need nl message "value" params
    handle ← nl.as_u64 h
    prop ← as_string nl p
    returns (handle, (prop, json_to_qvariant nl.dump v))

  unfoldable pub set : Registry → Json → qt.World → Answer
  set registry params = act registry (set_params params) (λ (prop, value) o w.
      let (done, w') = qt.set_property w o prop value in (returns (boolean done), w'))

  unfoldable pub invoke_params : Json → Outcome (ℕ × (String × Json))
  invoke_params params = do
    let message : String = "params.handle and params.method required"
    h ← need nl message "handle" params
    m ← need nl message "method" params
    handle ← nl.as_u64 h
    method ← as_string nl m
    returns (handle, (method, value_json nl "args" (array nil) params))

  -- The second call, without a result.
  abbrev pub invoked_void : String → Bool × qt.World → Answer
  invoked_void method (true, w) = (returns null, w)
  invoked_void method (false, w) = (throws (str_append "invokeMethod failed for: " method), w)

  abbrev pub invoked : ℕ → String → List Argument → Option Variant × qt.World → Answer
  invoked o method args (some ret, w) = (returns (qvariant_to_json qt.digits ret), w)
  invoked o method args (none, w) = invoked_void method (qt.invoke_void w o method args)

  abbrev pub invoke_with : ℕ → String → Outcome (List Argument) → qt.World → Answer
  invoke_with o method (returns args) w =
      invoked o method args (qt.invoke_returning w o method args)
  invoke_with o method (throws what) w = (throws what, w)
  invoke_with o method throws_other w = (throws_other, w)

  unfoldable pub invoke : Registry → Json → qt.World → Answer
  invoke registry params =
      act registry (invoke_params params)
        (λ (method, args) o w. invoke_with o method (all_arguments nl args) w)

  unfoldable pub click_params : Json → Outcome (ℕ × Unit {0})
  click_params params = do
    h ← need nl "params.handle required" "handle" params
    handle ← nl.as_u64 h
    returns (handle, tt)

  unfoldable pub click : Registry → Json → qt.World → Answer
  click registry params = act registry (click_params params) (λ _ o w.
      with_window (qt.geometry_of w o) (qt.window_of w o)
        (λ win. (
          returns (boolean true),
          qt.send w win o (mouse_click left_button no_modifier (negsuc 0)),
        ))
        w)

  unfoldable pub type_params : Json → Outcome (ℕ × String)
  type_params params = do
    let message : String = "params.handle and params.text required"
    h ← need nl message "handle" params
    t ← need nl message "text" params
    handle ← nl.as_u64 h
    text ← as_string nl t
    returns (handle, text)

  unfoldable pub type_loop : ℕ → ℕ → List ℕ → qt.World → qt.World
  type_loop win o [] w = w
  type_loop win o (c ∷ cs) w = type_loop win o cs (qt.send w win o (type_char c))

  unfoldable pub type_text : Registry → Json → qt.World → Answer
  type_text registry params = act registry (type_params params) (λ text o w.
      with_window (qt.geometry_of w o) (qt.window_of w o)
        (λ win.
          (returns (boolean true), type_loop win o (qt.latin1 text) (qt.force_active_focus w o)))
        w)

  unfoldable pub mouse_params : Json → Outcome (ℕ × (String × MouseButton × KeyboardModifiers × ℤ))
  mouse_params params = do
    h ← need nl "params.handle required" "handle" params
    handle ← nl.as_u64 h
    action ← value_string nl "action" "click" params
    name ← value_string nl "button" "left" params
    btn ← parse_mouse_button name
    mods ← parse_modifiers (value_json nl "modifiers" null params)
    delay ← value_int nl "delay_ms" (negsuc 0) params
    returns (handle, (action, btn, mods, delay))

  unfoldable pub mouse_event : String → MouseButton → KeyboardModifiers → ℤ → Option Event
  mouse_event action btn mods delay =
      if str_eq action "click"
      then some (mouse_click btn mods delay)
      else if str_eq action "dblclick" || str_eq action "doubleclick"
      then some (mouse_dclick btn mods delay)
      else if str_eq action "press"
      then some (mouse_press btn mods delay)
      else if str_eq action "release"
      then some (mouse_release btn mods delay)
      else if str_eq action "move"
      then some (mouse_move delay)
      else none

  -- The event for an action goes out, or its name is unknown.
  abbrev pub send_event : String → Option Event → ℕ → ℕ → qt.World → Answer
  send_event message none win o w = (throws message, w)
  send_event message (some e) win o w = (returns (boolean true), qt.send w win o e)

  unfoldable pub mouse : Registry → Json → qt.World → Answer
  mouse registry params = act registry (mouse_params params) (λ (action, btn, mods, delay) o w.
      with_window (qt.geometry_of w o) (qt.window_of w o)
        (λ win.
          send_event (str_append "unknown mouse action: " action)
            (mouse_event action btn mods delay) win o w)
        w)

  unfoldable pub key_params : Json → Outcome (ℕ × (Key × String × KeyboardModifiers × ℤ))
  key_params params = do
    let message : String = "params.handle and params.key required"
    h ← need nl message "handle" params
    k ← need nl message "key" params
    handle ← nl.as_u64 h
    name ← as_string nl k
    key ← parse_key qt.to_lower qt.single name
    action ← value_string nl "action" "click" params
    mods ← parse_modifiers (value_json nl "modifiers" null params)
    delay ← value_int nl "delay_ms" (negsuc 0) params
    returns (handle, (key, action, mods, delay))

  unfoldable pub key_event : String → Key → KeyboardModifiers → ℤ → Option Event
  key_event action key mods delay =
      if str_eq action "click"
      then some (key_click key mods delay)
      else if str_eq action "press"
      then some (key_press key mods delay)
      else if str_eq action "release"
      then some (key_release key mods delay)
      else none

  -- The focus moves before the action is looked at.
  unfoldable pub key : Registry → Json → qt.World → Answer
  key registry params = act registry (key_params params) (λ (k, action, mods, delay) o w.
      with_window (qt.geometry_of w o) (qt.window_of w o)
        (λ win.
          send_event (str_append "unknown key action: " action) (key_event action k mods delay) win
            o (qt.force_active_focus w o))
        w)

  abbrev pub rect_json : ℕ → ℕ → ℕ → ℕ → Json
  rect_json x y w h =
      object_of (("x", float x) ∷ ("y", float y) ∷ ("w", float w) ∷ ("h", float h) ∷ [])

  unfoldable pub geometry_json : Option Geometry → Json
  geometry_json none = object_of (("isQuickItem", boolean false) ∷ [])
  geometry_json (some g) = object_of (
      ("isQuickItem", boolean true)
      ∷ ("local", rect_json g.x g.y g.width g.height)
      ∷ (
        "scene",
        rect_json g.top_left.0 g.top_left.1 (qt.minus g.bottom_right.0 g.top_left.0)
            (qt.minus g.bottom_right.1 g.top_left.1),
      )
      ∷ ("visible", boolean g.visible)
      ∷ ("enabled", boolean g.enabled)
      ∷ ("opacity", float g.opacity)
      ∷ ("z", float g.z)
      ∷ ("rotation", float g.rotation)
      ∷ ("scale", float g.scale)
      ∷ ("clip", boolean g.clip)
      ∷ ("activeFocus", boolean g.active_focus)
      ∷ ("effectivelyVisible", boolean (g.visible && qt.is_positive g.opacity))
      ∷ [])

  unfoldable pub geometry : Registry → Json → qt.World → Answer
  geometry registry params =
      act registry (click_params params)
        (λ _ o w. (returns (geometry_json (qt.geometry_of w o)), w))
