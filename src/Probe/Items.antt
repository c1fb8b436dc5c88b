-- ===== src/Probe/Items.antt =====
-- src/testbridge/qml_probe.cpp, `dumpItemTree`, `tree`, `hitTest` and `hit`: an item with its children is a tree.
-- The doubles are bit patterns, and the tests and roundings of Qt on them are parameters.
pub mod Listing
pub mod Truncated
pub mod Deepest
use qml_and_bgfx_testbridge.Prelude.{
  ℕ, suc, Bool, true, false, not, ◌||◌, ◌&&◌, List, [], ◌∷◌, ◌++◌, map, Option, none, some, String,
  str_eq, if◌then◌else◌, length,
}
use qml_and_bgfx_testbridge.Prelude.Int.{ℤ, pos, ltb_ℤ}
use qml_and_bgfx_testbridge.Json.{Json, boolean, integer, float, string, array_of, object_of}

-- What is read of a `QQuickItem`: `scene_x` and `scene_y` are `mapToScene(QPointF(0, 0))`.
pub record ItemInfo : Type 0 where
  pub handle : ℕ  -- its address
  pub class_name : String
  pub object_name : String
  pub visible : Bool
  pub opacity : ℕ
  pub clip : Bool
  pub scene_x : ℕ
  pub scene_y : ℕ
  pub item_width : ℕ
  pub item_height : ℕ

mutual
  pub data Item : Type 0 where
    item : ItemInfo → Items → Item

  pub data Items : Type 0 where
    nil : Items
    cons : Item → Items → Items

unfoldable pub scene_json : ItemInfo → Json
scene_json i = object_of (
    ("x", float i.scene_x)
    ∷ ("y", float i.scene_y)
    ∷ ("w", float i.item_width)
    ∷ ("h", float i.item_height)
    ∷ [])

unfoldable pub tree_node : ItemInfo → ℕ → Json
tree_node i depth = object_of (
    ("class", string i.class_name)
    ∷ ("objectName", string i.object_name)
    ∷ ("depth", integer (pos depth))
    ∷ ("scene", scene_json i)
    ∷ ("visible", boolean i.visible)
    ∷ ("opacity", float i.opacity)
    ∷ ("clip", boolean i.clip)
    ∷ [])

-- `(int)out.size() >= maxNodes`
abbrev pub is_full : ℤ → List Json → Bool
is_full max_nodes out = not (ltb_ℤ (pos (length out)) max_nodes)

-- The item is below the depth or hidden.
abbrev pub left_out : ℤ → Bool → ItemInfo → ℕ → Bool
left_out max_depth only_visible i depth =
    ltb_ℤ max_depth (pos depth) || (only_visible && not i.visible)

-- `dumpItemTree` on `out` and `truncated`, and its loop over the children.
module _ (max_depth : ℤ) (only_visible : Bool) (max_nodes : ℤ) where
  unfoldable mutual
    pub dump_item_tree : Item → ℕ → List Json × Bool → List Json × Bool
    dump_item_tree (item i kids) depth (out, truncated) =
        let dumped = dump_children kids (suc depth) (out ++ tree_node i depth ∷ [], truncated) in
        if left_out max_depth only_visible i depth
        then (out, truncated)
        else if is_full max_nodes out
        then (out, true)
        else dumped

    pub dump_children : Items → ℕ → List Json × Bool → List Json × Bool
    dump_children nil depth (out, truncated) = (out, truncated)
    dump_children (cons child rest) depth (out, truncated) =
        let dumped = dump_children rest depth (dump_item_tree child depth (out, truncated)) in
        if is_full max_nodes out then (out, true) else dumped

  -- The loop of `tree` over the windows that are of QML and have a content.
  unfoldable pub tree_loop : List Item → List Json × Bool → List Json × Bool
  tree_loop [] s = s
  tree_loop (root ∷ rest) s =
      let dumped = dump_item_tree root 0 s in
      let later = tree_loop rest dumped in if is_full max_nodes dumped.0 then dumped else later

  unfoldable pub tree : List Item → Json
  tree roots =
      let (items, truncated) = tree_loop roots ([], false) in
      object_of (
        ("items", array_of items)
        ∷ ("count", integer (pos (length items)))
        ∷ ("truncated", boolean truncated)
        ∷ ("limit", integer max_nodes)
        ∷ [])

-- `QRectF::contains`, and the test that an opacity is not above 0.
pub record HitTests : Type 0 where
  pub rect_contains : ItemInfo → ℕ × ℕ → Bool
  pub is_transparent : ℕ → Bool

-- A window of QML with its content.
pub record QuickWindow : Type 0 where
  pub window_class : String
  pub window_name : String
  pub content : Item

module _ (t : HitTests) where
  -- An item that a point misses.
  abbrev pub missed : ItemInfo → ℕ × ℕ → Bool
  missed i point = not i.visible || t.is_transparent i.opacity || not (t.rect_contains i point)

  -- An item comes with the items that `parentItem` gives, from it up to the root. `best` is the best so far.
  unfoldable mutual
    pub hit_test : Item → List ItemInfo → ℕ × ℕ → Option (List ItemInfo)
    hit_test (item i kids) above point =
        let hit = hit_children i kids (i ∷ above) point (i ∷ above) in
        if missed i point then none else some hit

    pub hit_children : ItemInfo → Items → List ItemInfo → ℕ × ℕ → List ItemInfo → List ItemInfo
    hit_children i nil above point best = best
    hit_children i (cons child rest) above point best =
        let found = hit_test child above point in
        let next : List ItemInfo =
          if i.clip && not (t.rect_contains i point)
          then best
          else elim found [ none ↦ best | some chain ↦ chain ] in
        hit_children i rest above point next

  unfoldable pub hit_node : String → ItemInfo → Json
  hit_node window i = object_of (
      ("class", string i.class_name)
      ∷ ("objectName", string i.object_name)
      ∷ ("handle", integer (pos i.handle))
      ∷ ("window", string window)
      ∷ ("scene", scene_json i)
      ∷ ("visible", boolean i.visible)
      ∷ ("clip", boolean i.clip)
      ∷ [])

  -- The nodes of `hit`, over the windows of QML that have a content. The handles of the nodes are registered.
  unfoldable pub hit_loop : ℕ × ℕ → List QuickWindow → List Json
  hit_loop point [] = []
  hit_loop point (w ∷ rest) =
      let name = if str_eq w.window_name "" then w.window_class else w.window_name in
      elim (hit_test w.content [] point) [ none ↦ [] | some chain ↦ map (hit_node name) chain ]
      ++ hit_loop point rest
