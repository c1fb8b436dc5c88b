-- ===== src/RenderScene/Loads/Wanted.antt =====
-- render_scene.cpp: the renderer loads the files that were last asked for.
use qml_and_bgfx_testbridge.Prelude.{
  ℕ, ◌≡◌, refl, sym, ap, ◌∙◌, Bool, true, false, not, ◌||◌, List, [], ◌∷◌, ◌++◌, Option, none, some,
  String, str_eq, str_eq_iff, Bool-cases, inl, inr, if◌then◌else◌, arith,
}
use qml_and_bgfx_testbridge.Json.{Json}
use qml_and_bgfx_testbridge.Camera.{Floats}
use qml_and_bgfx_testbridge.Camera.Config.{JsonFloats}
use qml_and_bgfx_testbridge.Camera.Gestures.{set_distance, update_matrices}
use qml_and_bgfx_testbridge.Camera.Gestures
use qml_and_bgfx_testbridge.RenderScene.{
  RendererCall, sets_render_target, inits, resizes, loads_heightfield, loads_diffuse,
  reloads_textures, sets_wireframe, sets_culling, sets_freeze, sets_gpu_subdivision, new_scene,
  apply_camera_config, load_pending, start_or_resize, resize_onto, resize, clear_heightfield,
  clear_diffuse, load_heightfield, load_diffuse, set_wireframe, set_culling, set_freeze,
  set_gpu_subdivision, reload_textures,
}
use qml_and_bgfx_testbridge.RenderScene.Loads.{
  Loaded, tell, tell_all, SceneCall, resizes_to, targets, updates_with, asks_heightfield,
  asks_diffuse, drops_heightfield, drops_diffuse, reloads, wires, culls, freezes, subdivides, Scene,
  act, run, want, wanted, Resolves, Resolvable, AllResolvable, file_of,
}
use qml_and_bgfx_testbridge.RenderScene.Loads.Quiet.{
  LeavesLoads, apply_camera_config-same, update-leaves, when_inited-leaves, target-leaves,
}

tell_all-append :
    (cs ds : List RendererCall) (l : Loaded) → tell_all (cs ++ ds) l ≡ tell_all ds (tell_all cs l)
tell_all-append [] ds l = refl
tell_all-append (c ∷ cs) ds l = tell_all-append cs ds (tell c l)

module _ (fl : Floats) (jf : JsonFloats fl) (normalize_local_path : String → String) where
  record Kept (w : Loaded) (s : Scene fl jf normalize_local_path) (l : Loaded) : Type 0 where
    pending_heightfield : s.pending_heightfield_path ≡ w.heightfield
    pending_diffuse : s.pending_diffuse_path ≡ w.diffuse
    resolves_heightfield : Resolves fl jf normalize_local_path w.heightfield
    resolves_diffuse : Resolves fl jf normalize_local_path w.diffuse
    heightfield : l.heightfield ≡ file_of fl jf normalize_local_path s.inited w.heightfield
    diffuse : l.diffuse ≡ file_of fl jf normalize_local_path s.inited w.diffuse

  left_alone :
      (w : Loaded) (s : Scene fl jf normalize_local_path) (l : Loaded)
      (t : Scene fl jf normalize_local_path × List RendererCall)
      → LeavesLoads fl jf normalize_local_path s t
      → Kept w s l
      → Kept w t.0 (tell_all t.1 l)
  left_alone w s l t q k = record {
    pending_heightfield = q.pending_heightfield ∙ k.pending_heightfield;
    pending_diffuse = q.pending_diffuse ∙ k.pending_diffuse;
    resolves_heightfield = k.resolves_heightfield;
    resolves_diffuse = k.resolves_diffuse;
    heightfield = rw (q.told l, q.inited) k.heightfield;
    diffuse = rw (q.told l, q.inited) k.diffuse;
  }

  either_kept :
      (w : Loaded) (l : Loaded) (test : Bool)
      (t u : Scene fl jf normalize_local_path × List RendererCall)
      → (test ≡ true → Kept w t.0 (tell_all t.1 l))
      → (test ≡ false → Kept w u.0 (tell_all u.1 l))
      → Kept w (if test then t else u).0 (tell_all (if test then t else u).1 l)
  either_kept w l true t u a b = a refl
  either_kept w l false t u a b = b refl

  file_off :
      (b : Bool) (p q : String)
      → b ≡ false
      → file_of fl jf normalize_local_path b p ≡ file_of fl jf normalize_local_path b q
  file_off b p q e = rw e refl

  file_on :
      (b : Bool) (p : String)
      → b ≡ true
      → str_eq p "" ≡ false
      → normalize_local_path p ≡ file_of fl jf normalize_local_path b p
  file_on b p e g = rw (e, g) refl

  file_none :
      (b : Bool) (p : String) → str_eq p "" ≡ true → "" ≡ file_of fl jf normalize_local_path b p
  file_none true p e = rw e refl
  file_none false p e = refl

  waits : (a b : Bool) → (not a || b) ≡ true → b ≡ false → a ≡ false
  waits a b h k = ground arith

  goes_on : (a b : Bool) → (not a || b) ≡ false → a ≡ true
  goes_on a b h = ground arith

  load_heightfield-keeps :
      (path : String) (w : Loaded) (s : Scene fl jf normalize_local_path) (l : Loaded)
      → Resolves fl jf normalize_local_path path
      → Kept w s l
      → let t = load_heightfield fl jf normalize_local_path path s in
        Kept (record w { heightfield = path }) t.0 (tell_all t.1 l)
  unfolding load_heightfield clear_heightfield
  load_heightfield-keeps path w s l h k =
      either_kept _ l (str_eq path "") _ _
        (λ e. record {
          pending_heightfield = sym ((str_eq_iff path "").0 e);
          pending_diffuse = k.pending_diffuse;
          resolves_heightfield = h;
          resolves_diffuse = k.resolves_diffuse;
          heightfield = file_none s.inited path e;
          diffuse = k.diffuse;
        })
        (λ g.
          either_kept _ l (not s.inited || str_eq (normalize_local_path path) "") _ _
            (λ late. record {
              pending_heightfield = refl;
              pending_diffuse = k.pending_diffuse;
              resolves_heightfield = h;
              resolves_diffuse = k.resolves_diffuse;
              heightfield =
                  k.heightfield
                  ∙ file_off s.inited w.heightfield path (waits s.inited _ late (h g));
              diffuse = k.diffuse;
            })
            (λ now. record {
              pending_heightfield = refl;
              pending_diffuse = k.pending_diffuse;
              resolves_heightfield = h;
              resolves_diffuse = k.resolves_diffuse;
              heightfield = file_on s.inited path (goes_on s.inited _ now) g;
              diffuse = k.diffuse;
            }))

  load_diffuse-keeps :
      (path : String) (w : Loaded) (s : Scene fl jf normalize_local_path) (l : Loaded)
      → Resolves fl jf normalize_local_path path
      → Kept w s l
      → let t = load_diffuse fl jf normalize_local_path path s in
        Kept (record w { diffuse = path }) t.0 (tell_all t.1 l)
  unfolding load_diffuse clear_diffuse
  load_diffuse-keeps path w s l h k =
      either_kept _ l (str_eq path "") _ _
        (λ e. record {
          pending_heightfield = k.pending_heightfield;
          pending_diffuse = sym ((str_eq_iff path "").0 e);
          resolves_heightfield = k.resolves_heightfield;
          resolves_diffuse = h;
          heightfield = k.heightfield;
          diffuse = file_none s.inited path e;
        })
        (λ g.
          either_kept _ l (not s.inited || str_eq (normalize_local_path path) "") _ _
            (λ late. record {
              pending_heightfield = k.pending_heightfield;
              pending_diffuse = refl;
              resolves_heightfield = k.resolves_heightfield;
              resolves_diffuse = h;
              heightfield = k.heightfield;
              diffuse = k.diffuse ∙ file_off s.inited w.diffuse path (waits s.inited _ late (h g));
            })
            (λ now. record {
              pending_heightfield = k.pending_heightfield;
              pending_diffuse = refl;
              resolves_heightfield = k.resolves_heightfield;
              resolves_diffuse = h;
              heightfield = k.heightfield;
              diffuse = file_on s.inited path (goes_on s.inited _ now) g;
            }))

  tell_pending_heightfield :
      (path : String) (l : Loaded)
      → Resolves fl jf normalize_local_path path
      → l.heightfield ≡ ""
      → tell_all (load_pending fl jf normalize_local_path loads_heightfield path) l
        ≡ record l { heightfield = file_of fl jf normalize_local_path true path }
  tell_pending_heightfield path l h e = elim (Bool-cases (str_eq path "")) [
    | inl empty ↦ rw empty (ap (λ x. record l { heightfield = x }) e)
    | inr given ↦ rw (given, h given) refl
  ]

  tell_pending_diffuse :
      (path : String) (l : Loaded)
      → Resolves fl jf normalize_local_path path
      → l.diffuse ≡ ""
      → tell_all (load_pending fl jf normalize_local_path loads_diffuse path) l
        ≡ record l { diffuse = file_of fl jf normalize_local_path true path }
  tell_pending_diffuse path l h e = elim (Bool-cases (str_eq path "")) [
    | inl empty ↦ rw empty (ap (λ x. record l { diffuse = x }) e)
    | inr given ↦ rw (given, h given) refl
  ]

  nothing : (b : Bool) (p : String) → b ≡ false → file_of fl jf normalize_local_path b p ≡ ""
  nothing b p e = rw e refl

  is_off : (b : Bool) → not b ≡ true → b ≡ false
  is_off b h = ground arith

  started :
      (config : Json) (view handle x y : ℕ) (w : Loaded) (s : Scene fl jf normalize_local_path)
      (l : Loaded)
      → Kept w s l
      → s.inited ≡ false
      → let cs =
          sets_render_target view (some handle)
            ∷ inits x y
            ∷ load_pending fl jf normalize_local_path loads_heightfield s.pending_heightfield_path
          ++ load_pending fl jf normalize_local_path loads_diffuse s.pending_diffuse_path in
        Kept w
          (apply_camera_config fl jf normalize_local_path config (record s { inited = true }))
          (tell_all cs l)
  started config view handle x y w s l k off =
      let q =
        apply_camera_config-same fl jf normalize_local_path config (record s { inited = true }) in
      let h = load_pending fl jf normalize_local_path loads_heightfield w.heightfield in
      let d = load_pending fl jf normalize_local_path loads_diffuse w.diffuse in
      let l1 = record l { heightfield = file_of fl jf normalize_local_path true w.heightfield } in
      let none_h = k.heightfield ∙ nothing s.inited w.heightfield off in
      let none_d = k.diffuse ∙ nothing s.inited w.diffuse off in
      let all_told : tell_all (h ++ d) l
          ≡ record l1 { diffuse = file_of fl jf normalize_local_path true w.diffuse } =
        tell_all-append h d l
        ∙ ap (tell_all d) (tell_pending_heightfield w.heightfield l k.resolves_heightfield none_h)
        ∙ tell_pending_diffuse w.diffuse l1 k.resolves_diffuse none_d in
      let pending = load_pending fl jf normalize_local_path in
      let told =
        ap
          (λ p.
            tell_all (pending loads_heightfield p ++ pending loads_diffuse s.pending_diffuse_path)
              l)
          k.pending_heightfield
        ∙ ap (λ p. tell_all (h ++ pending loads_diffuse p) l) k.pending_diffuse
        ∙ all_told in
      record {
        pending_heightfield = q.pending_heightfield ∙ k.pending_heightfield;
        pending_diffuse = q.pending_diffuse ∙ k.pending_diffuse;
        resolves_heightfield = k.resolves_heightfield;
        resolves_diffuse = k.resolves_diffuse;
        heightfield =
            ap (λ u. u.heightfield) told
            ∙ ap (λ b. file_of fl jf normalize_local_path b w.heightfield) (sym q.inited);
        diffuse =
            ap (λ u. u.diffuse) told
            ∙ ap (λ b. file_of fl jf normalize_local_path b w.diffuse) (sym q.inited);
      }

  resize_onto-keeps :
      (o : Option ℕ) (config : Json) (x y : ℕ) (w : Loaded) (s : Scene fl jf normalize_local_path)
      (l : Loaded)
      → Kept w s l
      → let t = resize_onto fl jf normalize_local_path o config x y s in Kept w t.0 (tell_all t.1 l)
  unfolding start_or_resize
  resize_onto-keeps none config x y w s l k = k
  resize_onto-keeps (some handle) config x y w s l k =
      either_kept w l (not s.inited)
        (
          apply_camera_config fl jf normalize_local_path config (record s { inited = true }),
          sets_render_target s.view_id (some handle)
                ∷ inits x y
                ∷ load_pending fl jf normalize_local_path loads_heightfield
                    s.pending_heightfield_path
              ++ load_pending fl jf normalize_local_path loads_diffuse s.pending_diffuse_path,
        )
        (s, sets_render_target s.view_id (some handle) ∷ resizes x y ∷ [])
        (λ off. started config s.view_id handle x y w s l k (is_off s.inited off)) (λ on. k)

  resize-keeps :
      (config : Json) (x y : ℕ) (w : Loaded) (s : Scene fl jf normalize_local_path) (l : Loaded)
      → Kept w s l
      → let t = resize fl jf normalize_local_path config x y s in Kept w t.0 (tell_all t.1 l)
  unfolding resize
  resize-keeps config x y w s l k =
      let s' = record s { camera = (Gestures.resize fl x y s.camera).0 } in
      resize_onto-keeps s.frame_buffer config x y w s' l (record {
        pending_heightfield = k.pending_heightfield;
        pending_diffuse = k.pending_diffuse;
        resolves_heightfield = k.resolves_heightfield;
        resolves_diffuse = k.resolves_diffuse;
        heightfield = k.heightfield;
        diffuse = k.diffuse;
      })

  nothing-Resolves : Resolves fl jf normalize_local_path ""
  nothing-Resolves e = ground arith

  act-keeps :
      (e : SceneCall fl jf normalize_local_path) (w : Loaded) (s : Scene fl jf normalize_local_path)
      (l : Loaded)
      → Resolvable fl jf normalize_local_path e
      → Kept w s l
      → Kept
          (want fl jf normalize_local_path e w)
          (act fl jf normalize_local_path e s).0
          (tell_all (act fl jf normalize_local_path e s).1 l)
  unfolding act clear_heightfield clear_diffuse reload_textures set_wireframe set_culling set_freeze
      set_gpu_subdivision
  act-keeps (resizes_to config x y) w s l r k = resize-keeps config x y w s l k
  act-keeps (targets view handle) w s l r k =
      left_alone w s l _ (target-leaves fl jf normalize_local_path view handle s) k
  act-keeps (updates_with config a) w s l r k =
      left_alone w s l _ (update-leaves fl jf normalize_local_path config a s) k
  act-keeps (asks_heightfield path) w s l r k = load_heightfield-keeps path w s l r k
  act-keeps (asks_diffuse path) w s l r k = load_diffuse-keeps path w s l r k
  act-keeps drops_heightfield w s l r k = record {
    pending_heightfield = refl;
    pending_diffuse = k.pending_diffuse;
    resolves_heightfield = nothing-Resolves;
    resolves_diffuse = k.resolves_diffuse;
    heightfield = file_none s.inited "" refl;
    diffuse = k.diffuse;
  }
  act-keeps drops_diffuse w s l r k = record {
    pending_heightfield = k.pending_heightfield;
    pending_diffuse = refl;
    resolves_heightfield = k.resolves_heightfield;
    resolves_diffuse = nothing-Resolves;
    heightfield = k.heightfield;
    diffuse = file_none s.inited "" refl;
  }
  act-keeps reloads w s l r k =
      left_alone w s l _
        (when_inited-leaves fl jf normalize_local_path reloads_textures s (λ l. refl)) k
  act-keeps (wires on) w s l r k =
      left_alone w s l _
        (when_inited-leaves fl jf normalize_local_path (sets_wireframe on) s (λ l. refl)) k
  act-keeps (culls on) w s l r k =
      left_alone w s l _
        (when_inited-leaves fl jf normalize_local_path (sets_culling on) s (λ l. refl)) k
  act-keeps (freezes on) w s l r k =
      left_alone w s l _
        (when_inited-leaves fl jf normalize_local_path (sets_freeze on) s (λ l. refl)) k
  act-keeps (subdivides lvl) w s l r k =
      left_alone w s l _
        (when_inited-leaves fl jf normalize_local_path (sets_gpu_subdivision lvl) s (λ l. refl)) k

  run-Kept :
      (es : List (SceneCall fl jf normalize_local_path)) (w : Loaded)
      (s : Scene fl jf normalize_local_path) (l : Loaded)
      → AllResolvable fl jf normalize_local_path es
      → Kept w s l
      → Kept
          (wanted fl jf normalize_local_path es w)
          (run fl jf normalize_local_path es s l).0
          (run fl jf normalize_local_path es s l).1
  unfolding run wanted
  run-Kept [] w s l r k = k
  run-Kept (e ∷ es) w s l (r, rs) k =
      run-Kept es (want fl jf normalize_local_path e w) (act fl jf normalize_local_path e s).0
        (tell_all (act fl jf normalize_local_path e s).1 l) rs (act-keeps e w s l r k)

  abbrev pub nothing_loaded : Loaded
  nothing_loaded = record { heightfield = ""; diffuse = "" }

  -- From a new scene, over any calls in which each path that is asked for is that of a file: before the start of the
  -- renderer it has nothing loaded, and from then on it has loaded just the files of the paths asked for last, those
  -- from before the start included, and nothing in place of a path that was taken back.
  pub run-Wanted :
      (es : List (SceneCall fl jf normalize_local_path))
      → AllResolvable fl jf normalize_local_path es
      → let w = wanted fl jf normalize_local_path es nothing_loaded in
        let (s, l) =
          run fl jf normalize_local_path es (new_scene fl jf normalize_local_path) nothing_loaded in
        (l.heightfield ≡ file_of fl jf normalize_local_path s.inited w.heightfield)
        × (l.diffuse ≡ file_of fl jf normalize_local_path s.inited w.diffuse)
  unfolding new_scene
  run-Wanted es r =
      let k =
        run-Kept es nothing_loaded (new_scene fl jf normalize_local_path) nothing_loaded r (record {
          pending_heightfield = refl;
          pending_diffuse = refl;
          resolves_heightfield = nothing-Resolves;
          resolves_diffuse = nothing-Resolves;
          heightfield = refl;
          diffuse = refl;
        }) in
      (k.heightfield, k.diffuse)
