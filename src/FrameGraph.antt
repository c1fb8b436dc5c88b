-- ===== src/FrameGraph.antt =====
-- src/engine/terrain/frame_graph.h: the declared list of frame passes and the check of its order,
-- and the two lists that src/engine/terrain/terrain_renderer.cpp declares.
pub mod Order
mod Examples
use Prim.Native.Nat.{bit_and, bit_or}
use qml_and_bgfx_testbridge.Prelude.{
  ℕ, ◌==◌, Bool, true, false, List, [], ◌∷◌, ◌++◌, map, String, str_append, str_eq, if◌then◌else◌,
  length,
}
use qml_and_bgfx_testbridge.Prelude.Int.{ℤ, pos, negsuc}
use qml_and_bgfx_testbridge.Prelude.Bits.{bit_not}
use qml_and_bgfx_testbridge.Json.{Json, boolean, integer, string, array_of, object_of}

pub data PassResource : Type 0 where
  heightfield dmap smap diffuse color_target depth_target overlay_max : PassResource

-- `uint32_t(r)`: the value of the enumerator.
abbrev pub flag : PassResource → ℕ
flag heightfield = 1
flag dmap = 2
flag smap = 4
flag diffuse = 8
flag color_target = 16
flag depth_target = 32
flag overlay_max = 64

pub record FramePass : Type 0 where
  pub name : String
  pub view_id : ℤ
  pub reads : ℕ  -- uint32_t
  pub writes : ℕ  -- uint32_t

-- The member `m_passes`.
abbrev pub FramePassList : Type 0
FramePassList = List FramePass

abbrev pub clear : FramePassList → FramePassList
clear passes = []

abbrev pub add : FramePassList → String → ℤ → ℕ → ℕ → FramePassList
add passes name view_id reads writes =
    passes ++ record { name = name; view_id = view_id; reads = reads; writes = writes } ∷ []

-- The table of `names`.
abbrev pub names : List (PassResource × String)
names =
    (heightfield, "Heightfield")
    ∷ (dmap, "Dmap")
    ∷ (smap, "Smap")
    ∷ (diffuse, "Diffuse")
    ∷ (color_target, "ColorTarget")
    ∷ (depth_target, "DepthTarget")
    ∷ (overlay_max, "OverlayMax")
    ∷ []

-- The loops of `maskArray` and `maskNames` over the rest of the table.
mask_array_loop : ℕ → List (PassResource × String) → List Json
mask_array_loop mask [] = []
mask_array_loop mask ((r, n) ∷ rest) =
    let out = mask_array_loop mask rest in
    if bit_and mask (flag r) == 0 then out else string n ∷ out

unfoldable pub mask_array : ℕ → Json
unfolding mask_array_loop
mask_array mask = array_of (mask_array_loop mask names)

mask_names_loop : ℕ → String → List (PassResource × String) → String
mask_names_loop mask out [] = out
mask_names_loop mask out ((r, n) ∷ rest) =
    mask_names_loop mask
      (if bit_and mask (flag r) == 0
        then out
        else if str_eq out ""
        then n
        else str_append (str_append out "|") n)
      rest

unfoldable pub mask_names : ℕ → String
unfolding mask_names_loop
mask_names mask = let out = mask_names_loop mask "" names in if str_eq out "" then "<none>" else out

-- The first loop of `validate`.
unfoldable pub produced_from : ℕ → FramePassList → ℕ
produced_from produced [] = produced
produced_from produced (p ∷ ps) = produced_from (bit_or produced p.writes) ps

-- The second loop of `validate`, over the passes that are left. The text is `outError`.
unfoldable pub check_passes : ℕ → ℕ → FramePassList → Bool × String
check_passes produced available [] = (true, "")
check_passes produced available (p ∷ ps) =
    let missing = bit_and (bit_and p.reads produced) (bit_not 32 available) in
    let rest = check_passes produced (bit_or available p.writes) ps in
    if missing == 0 then rest else (
      false,
      str_append (str_append (str_append "pass '" p.name) "' reads resource(s) not yet produced: ")
          (mask_names missing),
    )

unfoldable pub validate : FramePassList → Bool × String
unfolding produced_from check_passes
validate passes = check_passes (produced_from 0 passes) 0 passes

pass_json : FramePass → Json
pass_json p = object_of (
    ("name", string p.name)
    ∷ ("viewId", integer p.view_id)
    ∷ ("reads", mask_array p.reads)
    ∷ ("writes", mask_array p.writes)
    ∷ [])

unfoldable pub to_json : FramePassList → Json
unfolding pass_json
to_json passes =
    let (ok, err) = validate passes in
    object_of (
      ("passes", array_of (map pass_json passes))
      ∷ ("count", integer (pos (length passes)))
      ∷ ("valid", boolean ok)
      ∷ ("error", string err)
      ∷ [])

abbrev host : ℤ
host = negsuc 0

-- `buildTerrainFramePasses` of terrain_renderer.cpp. `|` of flags is their union.
unfoldable pub terrain_frame_passes : Bool → ℤ → FramePassList
terrain_frame_passes true view =
    let p1 = add (clear []) "heightfield-upload" host (flag heightfield) (flag dmap) in
    let p2 = add p1 "smap-cpu" host (flag dmap) (flag smap) in
    let p3 = add p2 "overlay-max-cpu" host (flag dmap) (flag overlay_max) in
    let p4 =
      add p3 "terrain-simple" view (bit_or (bit_or (flag dmap) (flag smap)) (flag diffuse))
        (bit_or (flag color_target) (flag depth_target)) in
    let p5 = add p4 "axes" view 0 (bit_or (flag color_target) (flag depth_target)) in
    let p6 = add p5 "overlay-rects" view (flag overlay_max) (flag color_target) in
    add p6 "present-blit" host (flag color_target) 0
terrain_frame_passes false view =
    let p1 = add (clear []) "heightfield-decode" host (flag heightfield) (flag dmap) in
    let p2 = add p1 "smap-generate" host (flag dmap) (flag smap) in
    let p3 = add p2 "overlay-max" host (flag dmap) (flag overlay_max) in
    let p4 =
      add p3 "terrain" view (bit_or (bit_or (flag dmap) (flag smap)) (flag diffuse))
        (bit_or (flag color_target) (flag depth_target)) in
    let p5 = add p4 "axes" view 0 (bit_or (flag color_target) (flag depth_target)) in
    let p6 = add p5 "overlay-rects" view (flag overlay_max) (flag color_target) in
    add p6 "present-blit" host (flag color_target) 0
