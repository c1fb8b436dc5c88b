-- ===== src/RenderScene/Loads/Quiet.antt =====
-- render_scene.cpp: what leaves the paths and the start of the scene alone.
use qml_and_bgfx_testbridge.Prelude.{
  ℕ, ◌≡◌, refl, ◌∙◌, Bool, true, false, not, ◌&&◌, ◌||◌, List, [], ◌∷◌, Option, String,
  if◌then◌else◌,
}
use qml_and_bgfx_testbridge.Json.{Json}
use qml_and_bgfx_testbridge.Camera.{Floats}
use qml_and_bgfx_testbridge.Camera.Config.{JsonFloats, load_config}
use qml_and_bgfx_testbridge.Camera.Gestures.{set_distance, update_matrices}
use qml_and_bgfx_testbridge.RenderScene.{
  RendererCall, updates, is_object, apply_camera_config, set_render_target, Answers,
  apply_auto_fit_if_needed, auto_fit, fit_distance, is_valid, update, when_inited,
}
use qml_and_bgfx_testbridge.RenderScene.Loads.{Loaded, tell, tell_all, Scene}

module _ (fl : Floats) (jf : JsonFloats fl) (normalize_local_path : String → String) where
  -- An outcome that leaves the loads alone.
  pub record LeavesLoads (s : Scene fl jf normalize_local_path)
      (t : Scene fl jf normalize_local_path × List RendererCall) : Type 0 where
    pub inited : t.0.inited ≡ s.inited
    pub pending_heightfield : t.0.pending_heightfield_path ≡ s.pending_heightfield_path
    pub pending_diffuse : t.0.pending_diffuse_path ≡ s.pending_diffuse_path
    pub told : (l : Loaded) → tell_all t.1 l ≡ l

  pub either_leaves :
      (s : Scene fl jf normalize_local_path) (test : Bool)
      (t u : Scene fl jf normalize_local_path × List RendererCall)
      → LeavesLoads s t
      → LeavesLoads s u
      → LeavesLoads s (if test then t else u)
  either_leaves s true t u a b = a
  either_leaves s false t u a b = b

  pub same : (s : Scene fl jf normalize_local_path) → LeavesLoads s (s, [])
  same s = record {
    inited = refl;
    pending_heightfield = refl;
    pending_diffuse = refl;
    told = λ l. refl;
  }

  pub record SameLoads (s t : Scene fl jf normalize_local_path) : Type 0 where
    pub inited : t.inited ≡ s.inited
    pub pending_heightfield : t.pending_heightfield_path ≡ s.pending_heightfield_path
    pub pending_diffuse : t.pending_diffuse_path ≡ s.pending_diffuse_path

  pub either_same :
      (s : Scene fl jf normalize_local_path) (test : Bool) (t u : Scene fl jf normalize_local_path)
      → SameLoads s t
      → SameLoads s u
      → SameLoads s (if test then t else u)
  either_same s true t u a b = a
  either_same s false t u a b = b

  pub unchanged : (s : Scene fl jf normalize_local_path) → SameLoads s s
  unchanged s = record { inited = refl; pending_heightfield = refl; pending_diffuse = refl }

  pub apply_camera_config-same :
      (config : Json) (s : Scene fl jf normalize_local_path)
      → SameLoads s (apply_camera_config fl jf normalize_local_path config s)
  apply_camera_config-same config s =
      either_same s (not s.camera_config_loaded && is_object config)
        (record s { camera = load_config fl jf config s.camera; camera_config_loaded = true }) s
        (record { inited = refl; pending_heightfield = refl; pending_diffuse = refl }) (unchanged s)

  pub auto_fit-same :
      (fit : fl.F) (s : Scene fl jf normalize_local_path)
      → SameLoads s (auto_fit fl jf normalize_local_path fit s)
  unfolding auto_fit
  auto_fit-same fit s =
      either_same s (fl.less (fl.plus fit (fl.thousandths 10)) s.camera.distance)
        (record s { camera = (set_distance fl fit false s.camera).0; auto_fit_pending = false })
        (record s { auto_fit_pending = false })
        (record { inited = refl; pending_heightfield = refl; pending_diffuse = refl })
        (record { inited = refl; pending_heightfield = refl; pending_diffuse = refl })

  pub apply_auto_fit-same :
      (a : Answers fl jf normalize_local_path) (s : Scene fl jf normalize_local_path)
      → SameLoads s (apply_auto_fit_if_needed fl jf normalize_local_path a s)
  unfolding apply_auto_fit_if_needed
  apply_auto_fit-same a s =
      either_same s (not s.auto_fit_pending || not a.heightfield_is_ready) s
        (auto_fit fl jf normalize_local_path (fit_distance fl jf normalize_local_path a s.camera) s)
        (unchanged s) (auto_fit-same (fit_distance fl jf normalize_local_path a s.camera) s)

  pub leaves :
      (s t : Scene fl jf normalize_local_path) (cs : List RendererCall)
      → SameLoads s t
      → ((l : Loaded) → tell_all cs l ≡ l)
      → LeavesLoads s (t, cs)
  leaves s t cs q told = record {
    inited = q.inited;
    pending_heightfield = q.pending_heightfield;
    pending_diffuse = q.pending_diffuse;
    told = told;
  }

  pub update-leaves :
      (config : Json) (a : Answers fl jf normalize_local_path)
      (s : Scene fl jf normalize_local_path)
      → LeavesLoads s (update fl jf normalize_local_path config a s)
  unfolding update
  update-leaves config a s =
      let q = apply_camera_config-same config s in
      let s' = apply_camera_config fl jf normalize_local_path config s in
      let s2 = record s' { camera = (update_matrices fl s'.camera).0 } in
      let r = apply_auto_fit-same a s2 in
      let t2 = apply_auto_fit_if_needed fl jf normalize_local_path a s2 in
      let off =
        not (is_valid fl jf normalize_local_path s.frame_buffer) || not a.device_is_initialized in
      either_leaves s (not s.inited) (s, []) (if off then (s', []) else (t2, updates ∷ [])) (same s)
        (either_leaves s off (s', []) (t2, updates ∷ []) (leaves s s' [] q (λ l. refl))
          (leaves s t2 (updates ∷ [])
            (record {
              inited = r.inited ∙ q.inited;
              pending_heightfield = r.pending_heightfield ∙ q.pending_heightfield;
              pending_diffuse = r.pending_diffuse ∙ q.pending_diffuse;
            })
            (λ l. refl)))

  pub when_inited-leaves :
      (call : RendererCall) (s : Scene fl jf normalize_local_path)
      → ((l : Loaded) → tell call l ≡ l)
      → LeavesLoads s (when_inited fl jf normalize_local_path call s)
  when_inited-leaves call s told =
      either_leaves s (not s.inited) (s, []) (s, call ∷ []) (same s)
        (leaves s s (call ∷ []) (unchanged s) told)

  pub target-leaves :
      (view : ℕ) (handle : Option ℕ) (s : Scene fl jf normalize_local_path)
      → LeavesLoads s (set_render_target fl jf normalize_local_path view handle s)
  unfolding set_render_target
  target-leaves view handle s = record {
    inited = refl;
    pending_heightfield = refl;
    pending_diffuse = refl;
    told = λ l. refl;
  }
