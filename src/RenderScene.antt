-- ===== src/RenderScene.antt =====
-- src/engine/quick/render_scene.h and .cpp, `RenderScene`: the start of the terrain renderer, what waits for it, the
-- camera and the mouse. The renderer is the list of what is called of it; what it answers within an update is a
-- record. The settings that `getCameraConfig` reads are an argument. The camera is the module Camera.
pub mod Paths
pub mod Loads
pub mod Mouse
mod Examples
use qml_and_bgfx_testbridge.Prelude.{
  ℕ, ◌≡◌, Bool, true, false, not, ◌&&◌, ◌||◌, List, [], ◌∷◌, ◌++◌, Option, none, some, String,
  str_eq, if◌then◌else◌,
}
use qml_and_bgfx_testbridge.Prelude.Int.{ℤ}
use qml_and_bgfx_testbridge.Json.{Json, null, boolean, integer, float, string, array, object}
use qml_and_bgfx_testbridge.Camera.{Floats, OrbitCamera, new_camera, q_max}
use qml_and_bgfx_testbridge.Camera.Config.{JsonFloats, load_config}
use qml_and_bgfx_testbridge.Camera.Gestures
use qml_and_bgfx_testbridge.Camera.Gestures.{
  begin_rotate, rotate_to, end_rotate, begin_pan, pan_to, end_pan, begin_zoom_drag, zoom_drag_to,
  end_zoom_drag, zoom, set_distance, update_matrices, compute_fit_distance,
}

-- What is called of the terrain renderer. No handle is an invalid frame buffer.
pub data RendererCall : Type 0 where
  sets_render_target : ℕ → Option ℕ → RendererCall
  inits resizes : ℕ → ℕ → RendererCall
  loads_heightfield loads_diffuse : String → RendererCall
  clears_heightfield clears_diffuse updates reloads_textures : RendererCall
  sets_wireframe sets_culling sets_freeze : Bool → RendererCall
  sets_gpu_subdivision : ℤ → RendererCall

abbrev pub is_object : Json → Bool
is_object (object _) = true
is_object null = false
is_object (boolean _) = false
is_object (integer _) = false
is_object (float _) = false
is_object (string _) = false
is_object (array _) = false

module _ (fl : Floats) (jf : JsonFloats fl) (normalize_local_path : String → String) where
  pub record RenderScene : Type 0 where
    pub camera : OrbitCamera fl
    pub inited : Bool
    pub view_id : ℕ
    pub frame_buffer : Option ℕ
    pub pending_heightfield_path : String
    pub pending_diffuse_path : String
    pub auto_fit_pending : Bool
    pub camera_config_loaded : Bool

  unfoldable pub new_scene : RenderScene
  new_scene = record {
    camera = new_camera fl;
    inited = false;
    view_id = 0;
    frame_buffer = none;
    pending_heightfield_path = "";
    pending_diffuse_path = "";
    auto_fit_pending = false;
    camera_config_loaded = false;
  }

  abbrev pub Told : Type 0
  Told = RenderScene × List RendererCall

  -- The settings are applied once, as soon as they are an object.
  abbrev pub apply_camera_config : Json → RenderScene → RenderScene
  apply_camera_config config s =
      if not s.camera_config_loaded && is_object config
      then record s { camera = load_config fl jf config s.camera; camera_config_loaded = true }
      else s

  -- A pending path that is a file, at the start.
  abbrev pub load_pending : (String → RendererCall) → String → List RendererCall
  load_pending load path =
      let local = normalize_local_path path in
      if not (str_eq path "") && not (str_eq local "") then load local ∷ [] else []

  unfoldable pub start_or_resize : Json → ℕ → ℕ → ℕ → RenderScene → Told
  start_or_resize config handle w h s =
      if not s.inited
      then (
        apply_camera_config config (record s { inited = true }),
        sets_render_target s.view_id (some handle)
              ∷ inits w h
              ∷ load_pending loads_heightfield s.pending_heightfield_path
            ++ load_pending loads_diffuse s.pending_diffuse_path,
      )
      else (s, sets_render_target s.view_id (some handle) ∷ resizes w h ∷ [])

  abbrev pub resize_onto : Option ℕ → Json → ℕ → ℕ → RenderScene → Told
  resize_onto none config w h s = (s, [])
  resize_onto (some handle) config w h s = start_or_resize config handle w h s

  unfoldable pub resize : Json → ℕ → ℕ → RenderScene → Told
  resize config w h s =
      resize_onto s.frame_buffer config w h
        (record s { camera = (Gestures.resize fl w h s.camera).0 })

  unfoldable pub set_render_target : ℕ → Option ℕ → RenderScene → Told
  set_render_target view_id framebuffer s = (
    record s { view_id = view_id; frame_buffer = framebuffer },
    sets_render_target view_id framebuffer ∷ [],
  )

  -- What the renderer answers in an update.
  pub record Answers : Type 0 where
    pub device_is_initialized : Bool
    pub heightfield_is_ready : Bool
    pub image_scale_x : fl.F
    pub image_scale_y : fl.F
    pub terrain_aspect_ratio : fl.F
    pub dmap_scale : fl.F

  unfoldable pub fit_distance : Answers → OrbitCamera fl → fl.F
  fit_distance a c =
      let half_x =
        q_max fl (fl.thousandths 20) (fl.times a.terrain_aspect_ratio (fl.fabs a.image_scale_x)) in
      let half_y = q_max fl (fl.thousandths 20) (fl.fabs a.image_scale_y) in
      let half_z = q_max fl (fl.thousandths 50) a.dmap_scale in
      compute_fit_distance fl (half_x, half_y, half_z) (fl.thousandths 960) c

  -- The camera only moves closer.
  unfoldable pub auto_fit : fl.F → RenderScene → RenderScene
  auto_fit fit s =
      if fl.less (fl.plus fit (fl.thousandths 10)) s.camera.distance
      then record s { camera = (set_distance fl fit false s.camera).0; auto_fit_pending = false }
      else record s { auto_fit_pending = false }

  unfoldable pub apply_auto_fit_if_needed : Answers → RenderScene → RenderScene
  apply_auto_fit_if_needed a s =
      if not s.auto_fit_pending || not a.heightfield_is_ready
      then s
      else auto_fit (fit_distance a s.camera) s

  abbrev pub is_valid : Option ℕ → Bool
  is_valid none = false
  is_valid (some _) = true

  unfoldable pub update : Json → Answers → RenderScene → Told
  update config a s =
      let s' = apply_camera_config config s in
      if not s.inited
      then (s, [])
      else if not (is_valid s.frame_buffer) || not a.device_is_initialized
      then (s', [])
      else (
        apply_auto_fit_if_needed a (record s' { camera = (update_matrices fl s'.camera).0 }),
        updates ∷ [],
      )

  unfoldable pub clear_heightfield : RenderScene → Told
  clear_heightfield s = (
    record s { pending_heightfield_path = ""; auto_fit_pending = false },
    clears_heightfield ∷ [],
  )

  unfoldable pub clear_diffuse : RenderScene → Told
  clear_diffuse s = (record s { pending_diffuse_path = "" }, clears_diffuse ∷ [])

  abbrev pub load_now : (String → RendererCall) → String → RenderScene → Told
  load_now load path s =
      if not s.inited || str_eq (normalize_local_path path) ""
      then (s, [])
      else (s, load (normalize_local_path path) ∷ [])

  unfoldable pub load_heightfield : String → RenderScene → Told
  load_heightfield path s =
      if str_eq path ""
      then clear_heightfield s
      else load_now loads_heightfield path
          (record s { pending_heightfield_path = path; auto_fit_pending = true })

  unfoldable pub load_diffuse : String → RenderScene → Told
  load_diffuse path s =
      if str_eq path ""
      then clear_diffuse s
      else load_now loads_diffuse path (record s { pending_diffuse_path = path })

  -- The switches, which do nothing before the start.
  abbrev pub when_inited : RendererCall → RenderScene → Told
  when_inited call s = if not s.inited then (s, []) else (s, call ∷ [])

  unfoldable pub set_wireframe : Bool → RenderScene → Told
  set_wireframe on = when_inited (sets_wireframe on)

  unfoldable pub set_culling : Bool → RenderScene → Told
  set_culling on = when_inited (sets_culling on)

  unfoldable pub set_freeze : Bool → RenderScene → Told
  set_freeze on = when_inited (sets_freeze on)

  unfoldable pub set_gpu_subdivision : ℤ → RenderScene → Told
  set_gpu_subdivision lvl = when_inited (sets_gpu_subdivision lvl)

  unfoldable pub reload_textures : RenderScene → Told
  reload_textures = when_inited reloads_textures

  -- Whether more frames are needed, for what the renderer answers.
  unfoldable pub needs_continuous_update : Bool → RenderScene → Bool
  needs_continuous_update renderer_needs s =
      renderer_needs || s.auto_fit_pending || s.camera.view_dirty || s.camera.proj_dirty
