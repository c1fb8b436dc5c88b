-- ===== src/Probe/Objects.antt =====
-- src/testbridge/qml_probe.cpp, `collectObjects`, `collectAllNamed`, `registerObject`, `resolveHandle`, `list` and
-- `find`. Objects are numbers. What Qt tells of them is a parameter, and so are their addresses, which are the
-- handles: an address may serve another object once the first is dead.
pub mod Walk
pub mod Handles
use qml_and_bgfx_testbridge.Prelude.{
  ℕ, zero, suc, Bool, true, false, not, ◌||◌, List, [], ◌∷◌, ◌++◌, Option, none, some, String,
  str_eq, ◌==◌, if◌then◌else◌,
}
use qml_and_bgfx_testbridge.Prelude.Int.{pos}
use qml_and_bgfx_testbridge.Json.{Json, null, integer, string, array_of, object_of}

pub record Scene : Type 0 where
  pub name : ℕ → String  -- objectName()
  pub class_name : ℕ → String
  pub children : ℕ → List ℕ
  pub child_items : ℕ → Option (List ℕ)  -- of a QQuickItem
  pub content_item : ℕ → Option ℕ  -- of a QQuickWindow
  pub loaded : ℕ → Option ℕ  -- `item` of a QQuickLoader
  pub windows : List ℕ
  pub application : Option ℕ

abbrev pub contains : List ℕ → ℕ → Bool
contains [] a = false
contains (x ∷ xs) a = x == a || contains xs a

abbrev pub of_option : Option ℕ → List ℕ
of_option none = []
of_option (some a) = a ∷ []

abbrev pub of_list : Option (List ℕ) → List ℕ
of_list none = []
of_list (some xs) = xs

module _ (scene : Scene) where
  -- The objects that `collectObjects` goes on to, in its order.
  abbrev pub edges : ℕ → List ℕ
  edges o =
      scene.children o
      ++ (of_list (scene.child_items o)
          ++ (of_option (scene.content_item o) ++ of_option (scene.loaded o)))

  -- `out` and `seen` after an object.
  abbrev pub visit : ℕ → List ℕ × List ℕ → List ℕ × List ℕ
  visit root (out, seen) =
      (if str_eq (scene.name root) "" then out else out ++ root ∷ [], root ∷ seen)

  -- `for` over objects.
  abbrev pub visit_all :
      (ℕ → List ℕ × List ℕ → List ℕ × List ℕ) → List ℕ → List ℕ × List ℕ → List ℕ × List ℕ
  visit_all f [] s = s
  visit_all f (x ∷ xs) s = visit_all f xs (f x s)

  -- `collectObjects` at a depth from which `levels` are left: 101 - depth.
  unfoldable pub collect_objects : ℕ → ℕ → List ℕ × List ℕ → List ℕ × List ℕ
  collect_objects zero root s = s
  collect_objects (suc levels) root s =
      let below = visit_all (collect_objects levels) (edges root) (visit root s) in
      if contains s.1 root then s else below

  abbrev pub roots : List ℕ
  roots = scene.windows ++ of_option scene.application

  -- `collectAllNamed`, of which `seen` is local.
  unfoldable pub collect_all_named : List ℕ
  collect_all_named = (visit_all (collect_objects 101) roots ([], [])).0

-- `m_registry`: a handle with its object, which a QPointer holds.
abbrev pub Registry : Type 0
Registry = List (ℕ × ℕ)

unfoldable pub put : ℕ → ℕ → Registry → Registry
put handle o [] = (handle, o) ∷ []
put handle o ((h, p) ∷ rest) =
    if h == handle then (handle, o) ∷ rest else (h, p) ∷ put handle o rest

unfoldable pub look_up : ℕ → Registry → Option ℕ
look_up handle [] = none
look_up handle ((h, p) ∷ rest) = if h == handle then some p else look_up handle rest

module _ (address : ℕ → ℕ) where
  unfoldable pub register_object : Option ℕ → Registry → ℕ × Registry
  register_object none registry = (0, registry)
  register_object (some o) registry = (address o, put (address o) o registry)

-- `QPointer::data`: `dead` tells of an object if it has been destroyed.
abbrev pub pointed_to : (ℕ → Bool) → Option ℕ → Option ℕ
pointed_to dead none = none
pointed_to dead (some o) = if dead o then none else some o

unfoldable pub resolve_handle : (ℕ → Bool) → ℕ → Registry → Option ℕ
resolve_handle dead handle registry = pointed_to dead (look_up handle registry)

module _ (scene : Scene) (address : ℕ → ℕ) where
  abbrev pub list_item : ℕ → Json
  list_item o = object_of (
      ("objectName", string (scene.name o))
      ∷ ("class", string (scene.class_name o))
      ∷ ("handle", integer (pos (address o)))
      ∷ [])

  unfoldable pub list_loop : List ℕ → Registry → List Json × Registry
  list_loop [] registry = ([], registry)
  list_loop (o ∷ os) registry =
      let (items, registry') = list_loop os (register_object address (some o) registry).1 in
      (list_item o ∷ items, registry')

  unfoldable pub list : Registry → Json × Registry
  list registry =
      let (items, registry') = list_loop (collect_all_named scene) registry in
      (array_of items, registry')

  unfoldable pub find_loop : String → List ℕ → Registry → Option ℕ × Registry
  find_loop name [] registry = (none, registry)
  find_loop name (o ∷ os) registry =
      let found = register_object address (some o) registry in
      if str_eq (scene.name o) name then (some found.0, found.1) else find_loop name os registry

  -- `find`, with the name that its parameters give. No object is `null`.
  unfoldable pub find : String → Registry → Option ℕ × Registry
  find name registry = find_loop name (collect_all_named scene) registry
