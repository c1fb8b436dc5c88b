-- ===== src/Viewport/Sync.antt =====
-- render_viewport_item.cpp, `RenderViewportRenderer::synchronize`: the renderer takes over what was set on the item. The
-- calls of the scene are a list. `toLocalPath` is Qt's, and what `focusOverlayRect` answers comes from the scene.
pub mod LastTold
pub mod Tell
use qml_and_bgfx_testbridge.Prelude.{
  ℕ, Bool, true, false, not, ◌&&◌, ◌||◌, List, [], ◌∷◌, ◌++◌, Option, none, some, String, str_eq,
  if◌then◌else◌,
}
use qml_and_bgfx_testbridge.Prelude.Int.{ℤ, negsuc}
use qml_and_bgfx_testbridge.Viewport.{Values, RenderViewportItem}

module _ (v : Values) where
  pub data SceneCall : Type 0 where
    sets_overlay_pixel_scale : v.F32 → SceneCall
    loads_heightfield loads_diffuse : String → SceneCall
    clears_heightfield clears_diffuse : SceneCall
    sets_overlay_rects : List v.OverlayRect → SceneCall
    sets_image_transform : v.F32 → v.F32 → v.F32 → SceneCall
    sets_height_pixel_size : v.F32 → SceneCall
    focuses_overlay_rect : ℤ → SceneCall
    requests_live_shader : String × String × String → SceneCall
    requests_revert_live_shader : String → SceneCall

  -- What of the renderer the synchronisation uses.
  pub record Synced : Type 0 where
    pub last_heightfield_path : String
    pub last_diffuse_path : String
    pub renderer_pick_pending : Bool
    pub renderer_pick_pos : v.F × v.F

  abbrev pub State : Type 0
  State = RenderViewportItem v × Synced × List SceneCall

  -- A new path is loaded; an empty source clears what was loaded.
  unfoldable pub source_calls :
      (String → String)
      → (String → SceneCall)
      → SceneCall
      → String
      → String
      → String × List SceneCall
  source_calls to_local_path load clear source last =
      let path = to_local_path source in
      if not (str_eq source "")
      then (if str_eq path last then (last, []) else (path, load path ∷ []))
      else (if str_eq last "" then (last, []) else ("", clear ∷ []))

  abbrev pub when : Bool → SceneCall → List SceneCall
  when true c = c ∷ []
  when false c = []

  abbrev pub scale_calls : Option v.F → List SceneCall
  scale_calls none = []
  scale_calls (some s) = sets_overlay_pixel_scale (v.to_float s) ∷ []

  -- `pixel_ratio` is that of the window, if there is one; `focused` is the answer of `focusOverlayRect`.
  unfoldable pub synchronize :
      (String → String) → Option v.F → Bool → RenderViewportItem v → Synced → State
  synchronize to_local_path pixel_ratio focused i r =
      let (heightfield, calls1) =
        source_calls to_local_path loads_heightfield clears_heightfield i.heightfield_source
          r.last_heightfield_path in
      let (diffuse, calls2) =
        source_calls to_local_path loads_diffuse clears_diffuse i.diffuse_source
          r.last_diffuse_path in
      let done = i.focus_pending && focused in
      (
        record i {
          overlay_dirty = false;
          transform_dirty = false;
          height_pixel_size_dirty = false;
          pick_pending = false;
          focus_pending = i.focus_pending && not focused;
          focus_rect_id = if done then negsuc 0 else i.focus_rect_id;
          live_shader_pending = false;
          pending_live_shader =
              if i.live_shader_pending then ("", "", "") else i.pending_live_shader;
          live_shader_revert_pending = false;
          pending_live_shader_revert_slot =
              if i.live_shader_revert_pending then "" else i.pending_live_shader_revert_slot;
        },
        record r {
          last_heightfield_path = heightfield;
          last_diffuse_path = diffuse;
          renderer_pick_pending = i.pick_pending || r.renderer_pick_pending;
          renderer_pick_pos = if i.pick_pending then i.pick_pos else r.renderer_pick_pos;
        },
        scale_calls pixel_ratio
            ++ (calls1
                ++ (calls2
                    ++ (when i.overlay_dirty (sets_overlay_rects i.pending_overlay_rects)
                        ++ (when i.transform_dirty (
                              sets_image_transform (v.to_float i.image_rotation)
                                (v.to_float i.image_scale_x) (v.to_float i.image_scale_y))
                            ++ (when i.height_pixel_size_dirty
                                  (sets_height_pixel_size (v.to_float i.height_pixel_size))
                                ++ (when i.focus_pending (focuses_overlay_rect i.focus_rect_id)
                                    ++ (when i.live_shader_pending
                                          (requests_live_shader i.pending_live_shader)
                                        ++ when i.live_shader_revert_pending (
                                            requests_revert_live_shader
                                              i.pending_live_shader_revert_slot)))))))),
      )
