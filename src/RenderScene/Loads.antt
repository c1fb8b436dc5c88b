-- ===== src/RenderScene/Loads.antt =====
-- render_scene.cpp: the renderer shows the files that were last asked for, before its start or behind it.
pub mod Quiet
pub mod Wanted
use qml_and_bgfx_testbridge.Prelude.{
  ℕ, ◌≡◌, refl, sym, ap, ◌∙◌, Bool, true, false, not, ◌&&◌, ◌||◌, List, [], ◌∷◌, ◌++◌, Option, none,
  some, String, str_eq, str_eq_iff, Bool-cases, inl, inr, if◌then◌else◌, arith,
}
use qml_and_bgfx_testbridge.Prelude.Int.{ℤ}
use qml_and_bgfx_testbridge.Json.{Json}
use qml_and_bgfx_testbridge.Camera.{Floats}
use qml_and_bgfx_testbridge.Camera.Config.{JsonFloats, load_config}
use qml_and_bgfx_testbridge.Camera.Gestures.{set_distance, update_matrices}
use qml_and_bgfx_testbridge.Camera.Gestures
use qml_and_bgfx_testbridge.RenderScene.{
  RendererCall, sets_render_target, inits, resizes, loads_heightfield, loads_diffuse,
  clears_heightfield, clears_diffuse, updates, reloads_textures, sets_wireframe, sets_culling,
  sets_freeze, sets_gpu_subdivision, is_object, RenderScene, new_scene, Told, apply_camera_config,
  load_pending, start_or_resize, resize_onto, resize, set_render_target, Answers,
  apply_auto_fit_if_needed, auto_fit, fit_distance, is_valid, update, clear_heightfield,
  clear_diffuse, load_now, load_heightfield, load_diffuse, when_inited, set_wireframe, set_culling,
  set_freeze, set_gpu_subdivision, reload_textures,
}

-- The files that the renderer was last told to load; none is the empty text.
pub record Loaded : Type 0 where
  pub heightfield : String
  pub diffuse : String

abbrev pub tell : RendererCall → Loaded → Loaded
tell (loads_heightfield path) l = record l { heightfield = path }
tell (loads_diffuse path) l = record l { diffuse = path }
tell clears_heightfield l = record l { heightfield = "" }
tell clears_diffuse l = record l { diffuse = "" }
tell (sets_render_target view handle) l = l
tell (inits w h) l = l
tell (resizes w h) l = l
tell updates l = l
tell reloads_textures l = l
tell (sets_wireframe on) l = l
tell (sets_culling on) l = l
tell (sets_freeze on) l = l
tell (sets_gpu_subdivision lvl) l = l

abbrev pub tell_all : List RendererCall → Loaded → Loaded
tell_all [] l = l
tell_all (c ∷ cs) l = tell_all cs (tell c l)

module _ (fl : Floats) (jf : JsonFloats fl) (normalize_local_path : String → String) where
  pub data SceneCall : Type 0 where
    resizes_to : Json → ℕ → ℕ → SceneCall
    targets : ℕ → Option ℕ → SceneCall
    updates_with : Json → Answers fl jf normalize_local_path → SceneCall
    asks_heightfield asks_diffuse : String → SceneCall
    drops_heightfield drops_diffuse reloads : SceneCall
    wires culls freezes : Bool → SceneCall
    subdivides : ℤ → SceneCall

  abbrev pub Scene : Type 0
  Scene = RenderScene fl jf normalize_local_path

  unfoldable pub act : SceneCall → Scene → Scene × List RendererCall
  act (resizes_to config w h) = resize fl jf normalize_local_path config w h
  act (targets view handle) = set_render_target fl jf normalize_local_path view handle
  act (updates_with config a) = update fl jf normalize_local_path config a
  act (asks_heightfield path) = load_heightfield fl jf normalize_local_path path
  act (asks_diffuse path) = load_diffuse fl jf normalize_local_path path
  act drops_heightfield = clear_heightfield fl jf normalize_local_path
  act drops_diffuse = clear_diffuse fl jf normalize_local_path
  act reloads = reload_textures fl jf normalize_local_path
  act (wires on) = set_wireframe fl jf normalize_local_path on
  act (culls on) = set_culling fl jf normalize_local_path on
  act (freezes on) = set_freeze fl jf normalize_local_path on
  act (subdivides lvl) = set_gpu_subdivision fl jf normalize_local_path lvl

  unfoldable pub run : List SceneCall → Scene → Loaded → Scene × Loaded
  run [] s l = (s, l)
  run (e ∷ es) s l = run es (act e s).0 (tell_all (act e s).1 l)

  -- The paths that were last asked for.
  abbrev pub want : SceneCall → Loaded → Loaded
  want (asks_heightfield path) w = record w { heightfield = path }
  want (asks_diffuse path) w = record w { diffuse = path }
  want drops_heightfield w = record w { heightfield = "" }
  want drops_diffuse w = record w { diffuse = "" }
  want (resizes_to config x y) w = w
  want (targets view handle) w = w
  want (updates_with config a) w = w
  want reloads w = w
  want (wires on) w = w
  want (culls on) w = w
  want (freezes on) w = w
  want (subdivides lvl) w = w

  unfoldable pub wanted : List SceneCall → Loaded → Loaded
  wanted [] w = w
  wanted (e ∷ es) w = wanted es (want e w)

  -- A path that is asked for is that of a file.
  abbrev pub Resolves : String → Type 0
  Resolves path = str_eq path "" ≡ false → str_eq (normalize_local_path path) "" ≡ false

  abbrev pub Resolvable : SceneCall → Type 0
  Resolvable (asks_heightfield path) = Resolves path
  Resolvable (asks_diffuse path) = Resolves path
  Resolvable drops_heightfield = Unit
  Resolvable drops_diffuse = Unit
  Resolvable (resizes_to config x y) = Unit
  Resolvable (targets view handle) = Unit
  Resolvable (updates_with config a) = Unit
  Resolvable reloads = Unit
  Resolvable (wires on) = Unit
  Resolvable (culls on) = Unit
  Resolvable (freezes on) = Unit
  Resolvable (subdivides lvl) = Unit

  abbrev pub AllResolvable : List SceneCall → Type 0
  AllResolvable [] = Unit
  AllResolvable (e ∷ es) = Resolvable e × AllResolvable es

  abbrev pub file_of : Bool → String → String
  file_of inited path =
      if inited then (if str_eq path "" then "" else normalize_local_path path) else ""
