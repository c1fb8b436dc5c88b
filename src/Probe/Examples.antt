-- ===== src/Probe/Examples.antt =====
-- Tests of qml_probe.cpp, and its theorems at inputs.
use qml_and_bgfx_testbridge.Prelude.{
  ℕ, ◌+◌, ◌-◌, ◌≤◌, ◌<◌, ◌≡◌, refl, Bool, true, false, ◌&&◌, List, [], ◌∷◌, none, some, ◌==◌, ltb,
  length, if◌then◌else◌, arith,
}
use qml_and_bgfx_testbridge.Prelude.Int.{pos}
use qml_and_bgfx_testbridge.Json.{Json, member, integer, string, array, object_of, items}
use qml_and_bgfx_testbridge.Rpc.{Outcome, returns, throws}
use qml_and_bgfx_testbridge.Endpoint.{invalid}
use qml_and_bgfx_testbridge.Probe.Objects.{
  Scene, contains, roots, edges, collect_objects, collect_all_named, resolve_handle, look_up,
}
use qml_and_bgfx_testbridge.Probe.Objects.Walk.{
  is_named, Reach, root, edge, contains-collect_all_named,
}
use qml_and_bgfx_testbridge.Probe.Items.{
  ItemInfo, Item, item, nil, cons, HitTests, hit_test, tree_loop, dump_item_tree,
}
use qml_and_bgfx_testbridge.Probe.Items.Listing.{listing}
use qml_and_bgfx_testbridge.Probe.Items.Truncated.{all_shown, tree_loop-truncated}
use qml_and_bgfx_testbridge.Probe.Items.Deepest.{Verdict, hit_test-Verdict}
use qml_and_bgfx_testbridge.Probe.Input.{parse_modifiers, parse_mouse_button}
use qml_and_bgfx_testbridge.Probe.Values.{
  Event, Qt, Nlohmann, need, value_string, value_int, as_string,
}
use qml_and_bgfx_testbridge.Probe.Methods.{mouse, mouse_params}
use qml_and_bgfx_testbridge.Probe.Methods.Refusals.{
  call, key_method, mouse_method, Throws, call-refused,
}

-- A window 1 with a content 2 that has a child 3 named "ok", and the application 4.
abbrev small_scene : Scene
small_scene = record {
  name = λ o. if o == 3 then "ok" else "";
  class_name = λ o. "QQuickItem";
  children = λ o. if o == 1 then 2 ∷ [] else [];
  child_items = λ o. if o == 2 then some (3 ∷ []) else none;
  content_item = λ o. if o == 1 then some 2 else none;
  loaded = λ o. none;
  windows = 1 ∷ [];
  application = some 4;
}

abbrev address : ℕ → ℕ
address o = o + 1000

-- How far an object stands from the leaves.
abbrev rank : ℕ → ℕ
rank o = if o == 1 then 2 else if o == 2 then 1 else 0

rank_falls : (o p : ℕ) → contains (edges small_scene o) p ≡ true → rank p < rank o
rank_falls o p h = ground arith

shallow : (o : ℕ) → contains (roots small_scene) o ≡ true → rank o ≤ 100
shallow o h = ground arith

reach_ok : Reach small_scene 3
reach_ok = edge {o = 2} (edge {o = 1} (root refl) refl) refl

listed_once : collect_all_named small_scene ≡ 3 ∷ []
unfolding collect_all_named collect_objects
listed_once = refl

contains-collect_all_named_example :
    contains (collect_all_named small_scene) 3 ≡ is_named small_scene 3
contains-collect_all_named_example =
    contains-collect_all_named small_scene rank rank_falls shallow 3 reach_ok

addresses_apart : (o p : ℕ) → address p ≡ address o → p ≡ o
addresses_apart o p h = omega arith

is_listed : contains (collect_all_named small_scene) 3 ≡ true
unfolding collect_all_named collect_objects
is_listed = refl

abbrev info : Bool → ItemInfo
info visible = record {
  handle = 7;
  class_name = "QQuickItem";
  object_name = "";
  visible = visible;
  opacity = 1;
  clip = false;
  scene_x = 0;
  scene_y = 0;
  item_width = 10;
  item_height = 10;
}

abbrev leaf : Bool → Item
leaf visible = item (info visible) nil

abbrev family : Item
family = item (info true) (cons (leaf true) (cons (leaf true) nil))

-- Three nodes of two windows with a limit of three: nothing is said of the fourth.
full_window :
    tree_loop (pos 30) true (pos 3) (family ∷ leaf true ∷ []) ([], false)
    ≡ tree_loop (pos 30) true (pos 30) (family ∷ []) ([], false)
unfolding tree_loop dump_item_tree
full_window = refl

tree_loop-truncated_example :
    (3 < length (listing (pos 30) true family 0)
      → (tree_loop (pos 30) true (pos 3) (family ∷ []) ([], false)).1 ≡ true)
    × (length (listing (pos 30) true family 0) ≡ 3
        → all_shown (pos 30) true family 0 ≡ true
        → tree_loop (pos 30) true (pos 3) (family ∷ leaf true ∷ []) ([], false)
          ≡ (listing (pos 30) true family 0, false))
tree_loop-truncated_example = tree_loop-truncated (pos 30) true (pos 3) family (leaf true ∷ [])

abbrev hit_tests : HitTests
hit_tests = record {
  rect_contains = λ i (x, y). ltb x i.item_width && ltb y i.item_height;
  is_transparent = λ o. o == 0;
}

-- A child that sticks out of a parent that does not clip is not hit there.
sticks_out :
    hit_test hit_tests
      (item (info true) (cons (item (record (info true) { item_width = 50 }) nil) nil))
      []
      (20, 5)
    ≡ none
unfolding hit_test
sticks_out = refl

hit_test-Verdict_example : Verdict hit_tests (3, 3) [] family (hit_test hit_tests family [] (3, 3))
hit_test-Verdict_example = hit_test-Verdict hit_tests (3, 3) family []

abbrev modifier_names : Json
modifier_names = array (items (string "shift" ∷ string "ctrl" ∷ string "control" ∷ []))

-- A Qt whose world is the list of the events, with a window 1 for each item; an object 9 is dead.
abbrev quiet_qt : Qt
quiet_qt = record {
  World = List Event;
  dead = λ w o. o == 9;
  property = λ w o p. invalid;
  set_property = λ w o p v. (true, w);
  invoke_returning = λ w o m args. (none, w);
  invoke_void = λ w o m args. (false, w);
  geometry_of = λ w o. none;
  window_of = λ w o. some 1;
  send = λ w win o e. e ∷ w;
  force_active_focus = λ w o. w;
  is_positive = λ o. ltb 0 o;
  minus = λ a b. a - b;
  latin1 = λ s. [];
  to_lower = λ s. s;
  single = λ s. none;
  digits = λ n. "";
}

abbrev as_u64 : Json → Outcome ℕ
as_u64 (integer (pos n)) = returns n
as_u64 j = throws "type must be number"

abbrev nl : Nlohmann
nl = record {
  as_u64 = as_u64;
  as_int = λ j. returns (pos 0);
  not_string = λ j. "type must be string";
  no_index = λ j. "cannot use operator[]";
  dump = λ j. "";
}

abbrev key_call : Json
key_call = object_of (("handle", integer (pos 1009)) ∷ ("key", string "enter") ∷ [])

no_such_object :
    (h : ℕ)
    → (j : Json) × (member "handle" key_call ≡ some j) × (as_u64 j ≡ returns h)
    → resolve_handle (λ o. o == 9) h ((1009, 9) ∷ []) ≡ none
unfolding resolve_handle look_up member
no_such_object h k = ground arith

call-refused_example :
    Throws quiet_qt nl (call quiet_qt nl key_method ((1009, 9) ∷ []) key_call []).0
    × ((call quiet_qt nl key_method ((1009, 9) ∷ []) key_call []).1 ≡ [])
call-refused_example =
    call-refused quiet_qt nl key_method ((1009, 9) ∷ []) key_call [] no_such_object

abbrev mouse_call : Json
mouse_call = object_of (("handle", integer (pos 1008)) ∷ ("action", string "shake") ∷ [])

shake_fails : Throws quiet_qt nl (call quiet_qt nl mouse_method ((1008, 8) ∷ []) mouse_call []).0
unfolding call mouse mouse_params need value_string value_int as_string parse_mouse_button
    parse_modifiers resolve_handle look_up member
shake_fails = tt
