-- ===== src/FrameGraph/Examples.antt =====
-- Tests of frame_graph.h, and its theorems at inputs.
use qml_and_bgfx_testbridge.Prelude.{◌≡◌, refl, false, [], ◌∷◌, arith}
use qml_and_bgfx_testbridge.Prelude.Int.{pos, negsuc}
use qml_and_bgfx_testbridge.FrameGraph.{FramePassList, mask_names, validate, mask_array}
use qml_and_bgfx_testbridge.Json.{string, array_of}
use qml_and_bgfx_testbridge.FrameGraph.Order.{Verdict, writes_bit, validate-Verdict}

-- The slope map is read by the first pass and written by the second.
abbrev swapped : FramePassList
swapped =
    record { name = "draw"; view_id = pos 3; reads = 6; writes = 16 }
    ∷ record { name = "slopes"; view_id = negsuc 0; reads = 2; writes = 4 }
    ∷ []

swapped_refused : validate swapped ≡ (false, "pass 'draw' reads resource(s) not yet produced: Smap")
unfolding validate mask_names
swapped_refused = refl

several_names : mask_names 0x45 ≡ "Heightfield|Smap|OverlayMax"
unfolding mask_names
several_names = refl

no_names : mask_names 0x80 ≡ "<none>"
unfolding mask_names
no_names = refl

several_items : mask_array 0x22 ≡ array_of (string "Dmap" ∷ string "DepthTarget" ∷ [])
unfolding mask_array
several_items = refl

validate-Verdict_example : Verdict (writes_bit swapped) 0 swapped (validate swapped)
validate-Verdict_example = validate-Verdict swapped (omega arith)
