-- ===== src/Device/Surface.antt =====
-- render_device.h and .cpp: `ViewSurface`, and the making and unmaking of what a surface owns.
pub mod Balance
pub mod Filling
use qml_and_bgfx_testbridge.Prelude.{
  ℕ, zero, suc, ◌%◌, ◌^◌, Bool, true, false, not, ◌||◌, List, [], ◌∷◌, ◌==◌, if◌then◌else◌,
  replicate,
}
use qml_and_bgfx_testbridge.Device.Bgfx.{
  Gpu, GpuCall, create_texture, create_frame_buffer, destroy_texture, destroy_frame_buffer,
  set_view_frame_buffer, set_view_clear, set_view_rect, color_target, depth_target, readback_target,
  invalid_handle, is_valid,
}
use qml_and_bgfx_testbridge.Device.ViewIds.{Views, invalid_view_id, allocate_view_id, free_view_id}

-- `kReadbackBufferCount`
abbrev pub readback_buffer_count : ℕ
readback_buffer_count = 3

pub record ViewSurface : Type 0 where
  pub render_view_id : ℕ
  pub blit_view_id : ℕ
  pub width : ℕ
  pub height : ℕ
  pub framebuffer : ℕ
  pub color_tex : ℕ
  pub depth_tex : ℕ
  pub readback_tex : List ℕ
  pub generation : ℕ

-- The constructor.
unfoldable pub new_surface : ViewSurface
new_surface = record {
  render_view_id = invalid_view_id;
  blit_view_id = invalid_view_id;
  width = 0;
  height = 0;
  framebuffer = invalid_handle;
  color_tex = invalid_handle;
  depth_tex = invalid_handle;
  readback_tex = replicate readback_buffer_count invalid_handle;
  generation = 0;
}

-- `uint16_t(w)`
abbrev pub u16 : ℕ → ℕ
u16 n = n % 2 ^ 16

abbrev destroy_if_valid : (ℕ → GpuCall) → ℕ → List GpuCall → List GpuCall
destroy_if_valid call h log = if is_valid h then call h ∷ log else log

destroy_readbacks : List ℕ → List GpuCall → List GpuCall
destroy_readbacks [] log = log
destroy_readbacks (h ∷ hs) log = destroy_readbacks hs (destroy_if_valid destroy_texture h log)

-- The calls of `destroySurfaceResources`, and the surface that it leaves but for its view ids.
unfoldable pub destroy_handles : ViewSurface → List GpuCall → List GpuCall
unfolding destroy_readbacks
destroy_handles s log = destroy_readbacks s.readback_tex (
    destroy_if_valid destroy_texture s.depth_tex (
      destroy_if_valid destroy_texture s.color_tex
        (destroy_if_valid destroy_frame_buffer s.framebuffer log)))

unfoldable pub emptied : ViewSurface → ViewSurface
emptied s = record s {
  width = 0;
  height = 0;
  framebuffer = invalid_handle;
  color_tex = invalid_handle;
  depth_tex = invalid_handle;
  readback_tex = replicate readback_buffer_count invalid_handle;
  generation = 0;
}

unfoldable pub without_views : ViewSurface → ViewSurface
without_views s = record s { render_view_id = invalid_view_id; blit_view_id = invalid_view_id }

-- The state that these functions change: the calls so far, the view ids and the surface.
pub record Work : Type 0 where
  pub log : List GpuCall
  pub views : Views
  pub surface : ViewSurface

unfoldable pub destroy_surface_resources : Bool → Work → Work
unfolding emptied without_views
destroy_surface_resources true w = record {
  log = destroy_handles w.surface w.log;
  views = free_view_id w.surface.blit_view_id (free_view_id w.surface.render_view_id w.views);
  surface = emptied (without_views w.surface);
}
destroy_surface_resources false w = record {
  log = destroy_handles w.surface w.log;
  views = w.views;
  surface = emptied w.surface;
}

-- The loop over `surface.readbackTex`: the array with the handles made so far, and whether all are
-- valid. The loop stops at the first that is not.
create_readbacks : Gpu → ℕ → ℕ → List ℕ → List GpuCall → Bool × List ℕ × List GpuCall
create_readbacks gpu w h [] log = (true, [], log)
create_readbacks gpu w h (old ∷ rest) log =
    let made = gpu.new_texture log in
    let log' = create_texture (u16 w) (u16 h) readback_target made ∷ log in
    let (ok, hs, log'') = create_readbacks gpu w h rest log' in
    if is_valid made then (ok, made ∷ hs, log'') else (false, made ∷ rest, log')

set_views : ℕ → ℕ → ViewSurface → List GpuCall → List GpuCall
set_views w h s log =
    set_view_rect s.blit_view_id (u16 w) (u16 h)
    ∷ set_view_frame_buffer s.blit_view_id invalid_handle
    ∷ set_view_rect s.render_view_id (u16 w) (u16 h)
    ∷ set_view_clear s.render_view_id
    ∷ set_view_frame_buffer s.render_view_id s.framebuffer
    ∷ log

-- The last part of `createSurfaceResources`, with a valid frame buffer.
finish_surface : Gpu → ℕ → ℕ → Work → Bool × Work
unfolding create_readbacks set_views
finish_surface gpu w h work =
    let (ok, hs, log) = create_readbacks gpu w h work.surface.readback_tex work.log in
    let s = record work.surface { readback_tex = hs } in
    let made = record work { log = log; surface = s } in
    if ok
    then (true, record made { log = set_views w h s log })
    else (false, destroy_surface_resources false made)

-- The middle part, with valid textures.
frame_surface : Gpu → ℕ → ℕ → Work → Bool × Work
unfolding finish_surface
frame_surface gpu w h work =
    let fb = gpu.new_frame_buffer work.log in
    let s = record work.surface { framebuffer = fb } in
    let made = record work {
      log = create_frame_buffer s.color_tex s.depth_tex fb ∷ work.log;
      surface = s;
    } in
    if is_valid fb
    then finish_surface gpu w h made
    else (false, destroy_surface_resources false made)

unfoldable pub create_surface_resources : Gpu → ℕ → ℕ → Work → Bool × Work
unfolding frame_surface
create_surface_resources gpu w h work =
    let color = gpu.new_texture work.log in
    let log = create_texture (u16 w) (u16 h) color_target color ∷ work.log in
    let depth = gpu.new_texture log in
    let made = record work {
      log = create_texture (u16 w) (u16 h) depth_target depth ∷ log;
      surface = record (work.surface) { color_tex = color; depth_tex = depth };
    } in
    if not (is_valid color) || not (is_valid depth)
    then (false, destroy_surface_resources false made)
    else frame_surface gpu w h made

-- `createSurface` after the old resources are gone: two view ids, then the resources.
unfoldable pub fill_surface : Gpu → ℕ → ℕ → ℕ → Work → Bool × Work
fill_surface gpu w h gen start =
    let (render, views) = allocate_view_id start.views in
    let (blit, views') = allocate_view_id views in
    let viewed = record start {
      views = views';
      surface = record (start.surface) { render_view_id = render; blit_view_id = blit };
    } in
    let sized = record viewed {
      surface = record (viewed.surface) { width = w; height = h; generation = gen };
    } in
    let (ok, made) = create_surface_resources gpu w h sized in
    if render == invalid_view_id || blit == invalid_view_id
    then (false, destroy_surface_resources true viewed)
    else if ok
    then (true, made)
    else (false, destroy_surface_resources true made)

-- `resizeSurface` of a surface of another size: the resources are made again under the old view ids.
unfoldable pub refill_surface : Gpu → ℕ → ℕ → ℕ → Work → Bool × Work
refill_surface gpu w h gen start =
    let bare = destroy_surface_resources false start in
    let sized = record bare {
      surface = record (bare.surface) {
        render_view_id = start.surface.render_view_id;
        blit_view_id = start.surface.blit_view_id;
        width = w;
        height = h;
        generation = gen;
      };
    } in
    let (ok, made) = create_surface_resources gpu w h sized in
    if ok then (true, made) else (false, destroy_surface_resources true made)
