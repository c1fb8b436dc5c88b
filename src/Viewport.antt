-- ===== src/Viewport.antt =====
-- src/engine/quick/render_viewport_item.h and .cpp, `RenderViewportItem`: what QML sets on the item, each under its
-- lock, until the renderer takes it over. F is the type of `double`. Each setter gives the item and if it asks for a
-- frame (`update`); the signals of changes are left out. The overlay rectangles come parsed.
pub mod Sync
pub mod Frames
pub mod Mouse
mod Examples
use qml_and_bgfx_testbridge.Prelude.{
  ℕ, Bool, true, false, List, [], ◌∷◌, String, str_eq, if◌then◌else◌,
}
use qml_and_bgfx_testbridge.Prelude.Int.{ℤ, negsuc}

-- Numbers, points and rectangles, with the comparison `qFuzzyCompare(a + 1.0, b + 1.0)`.
pub record Values : Type 1 where
  pub F : Type 0  -- double
  pub F32 : Type 0  -- float
  pub to_float : F → F32
  pub OverlayRect : Type 0
  pub zero_f : F
  pub one_f : F
  pub is_positive : F → Bool
  pub fuzzy_equal : F → F → Bool

module _ (v : Values) where
  pub record RenderViewportItem : Type 0 where
    pub heightfield_source : String
    pub diffuse_source : String
    pub pending_overlay_rects : List v.OverlayRect
    pub overlay_dirty : Bool
    pub image_rotation : v.F
    pub image_scale_x : v.F
    pub image_scale_y : v.F
    pub transform_dirty : Bool
    pub height_pixel_size : v.F
    pub height_pixel_size_dirty : Bool
    pub pick_pending : Bool
    pub pick_pos : v.F × v.F
    pub focus_pending : Bool
    pub focus_rect_id : ℤ
    pub live_shader_pending : Bool
    pub pending_live_shader : String × String × String  -- slot, path and hash
    pub live_shader_revert_pending : Bool
    pub pending_live_shader_revert_slot : String

  unfoldable pub new_item : RenderViewportItem
  new_item = record {
    heightfield_source = "";
    diffuse_source = "";
    pending_overlay_rects = [];
    overlay_dirty = false;
    image_rotation = v.zero_f;
    image_scale_x = v.one_f;
    image_scale_y = v.one_f;
    transform_dirty = false;
    height_pixel_size = v.zero_f;
    height_pixel_size_dirty = true;
    pick_pending = false;
    pick_pos = (v.zero_f, v.zero_f);
    focus_pending = false;
    focus_rect_id = negsuc 0;
    live_shader_pending = false;
    pending_live_shader = ("", "", "");
    live_shader_revert_pending = false;
    pending_live_shader_revert_slot = "";
  }

  unfoldable pub request_live_shader :
      String × String × String → RenderViewportItem → RenderViewportItem × Bool
  request_live_shader shader i =
      (record i { pending_live_shader = shader; live_shader_pending = true }, true)

  unfoldable pub request_revert_live_shader :
      String → RenderViewportItem → RenderViewportItem × Bool
  request_revert_live_shader slot i =
      (record i { pending_live_shader_revert_slot = slot; live_shader_revert_pending = true }, true)

  unfoldable pub set_heightfield_source : String → RenderViewportItem → RenderViewportItem × Bool
  set_heightfield_source url i =
      if str_eq i.heightfield_source url
      then (i, false)
      else (record i { heightfield_source = url }, true)

  unfoldable pub set_diffuse_source : String → RenderViewportItem → RenderViewportItem × Bool
  set_diffuse_source url i =
      if str_eq i.diffuse_source url then (i, false) else (record i { diffuse_source = url }, true)

  unfoldable pub set_image_rotation : v.F → RenderViewportItem → RenderViewportItem × Bool
  set_image_rotation rotation i =
      if v.fuzzy_equal i.image_rotation rotation
      then (i, false)
      else (record i { image_rotation = rotation; transform_dirty = true }, true)

  unfoldable pub set_image_scale_x : v.F → RenderViewportItem → RenderViewportItem × Bool
  set_image_scale_x scale i =
      if v.fuzzy_equal i.image_scale_x scale
      then (i, false)
      else (record i { image_scale_x = scale; transform_dirty = true }, true)

  unfoldable pub set_image_scale_y : v.F → RenderViewportItem → RenderViewportItem × Bool
  set_image_scale_y scale i =
      if v.fuzzy_equal i.image_scale_y scale
      then (i, false)
      else (record i { image_scale_y = scale; transform_dirty = true }, true)

  unfoldable pub set_height_pixel_size : v.F → RenderViewportItem → RenderViewportItem × Bool
  set_height_pixel_size pixel_size i =
      let clamped = if v.is_positive pixel_size then pixel_size else v.zero_f in
      if v.fuzzy_equal i.height_pixel_size clamped
      then (i, false)
      else (record i { height_pixel_size = clamped; height_pixel_size_dirty = true }, true)

  unfoldable pub set_overlay_rects :
      List v.OverlayRect → RenderViewportItem → RenderViewportItem × Bool
  set_overlay_rects rects i =
      (record i { pending_overlay_rects = rects; overlay_dirty = true }, true)

  unfoldable pub clear_overlay_rects : RenderViewportItem → RenderViewportItem × Bool
  clear_overlay_rects i = (record i { pending_overlay_rects = []; overlay_dirty = true }, true)

  unfoldable pub focus_overlay_rect : ℤ → RenderViewportItem → RenderViewportItem × Bool
  focus_overlay_rect rect_id i = (record i { focus_pending = true; focus_rect_id = rect_id }, true)

  -- The end of `mouseReleaseEvent` for a click; the position is in pixels of the device.
  unfoldable pub request_pick : v.F × v.F → RenderViewportItem → RenderViewportItem × Bool
  request_pick pos i = (record i { pick_pending = true; pick_pos = pos }, true)
