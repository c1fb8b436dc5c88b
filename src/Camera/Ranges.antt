-- ===== src/Camera/Ranges.antt =====
-- render_scene.cpp, `OrbitCamera`: the bounds of the pitch and the distance, and what a broken configuration does.
use qml_and_bgfx_testbridge.Prelude.{
  ℕ, ◌≡◌, refl, sym, ◌∙◌, Bool, true, false, not, ◌||◌, List, [], ◌∷◌, Option, none, some, inl, inr,
  ◌⊎◌, Bool-cases, if◌then◌else◌, Option-cases,
}
use qml_and_bgfx_testbridge.Json.{
  Json, null, boolean, integer, float, string, array, object, member, Fields,
}
use qml_and_bgfx_testbridge.Camera.{
  Floats, IsOrder, OrbitCamera, new_camera, q_bound, bound_pitch, bound_distance,
}
use qml_and_bgfx_testbridge.Camera.Config.{
  JsonFloats, Loading, load_field, load_target, load_all, load_config, finish_load, value_of,
  set_yaw, set_pitch, set_camera_distance, set_fov_y, set_x, set_y, set_z,
}
use qml_and_bgfx_testbridge.Camera.Gestures.{
  resize, begin_rotate, rotate_to, end_rotate, begin_pan, pan_to, end_pan, begin_zoom_drag,
  zoom_drag_to, end_zoom_drag, zoom, set_distance, update_matrices,
}

module _ (fl : Floats) where
  -- The lower bound or above it, and not above the upper one. NaN is neither: no comparison with it holds.
  abbrev pub Within : fl.F → fl.F → fl.F → Type 0
  Within low high v = ((v ≡ low) ⊎ (fl.less low v ≡ true)) × (fl.less high v ≡ false)

  pub record InRange (c : OrbitCamera fl) : Type 0 where
    pub pitch_within : Within (fl.of_nat 0) (fl.of_nat 89) c.pitch
    pub distance_within : Within (fl.thousandths 200) (fl.of_nat 250) c.distance

  q_bound-Within :
      (order : IsOrder fl) (low v high : fl.F)
      → fl.less low high ≡ true
      → Within low high (q_bound fl low v high)
  unfolding q_bound
  q_bound-Within order low v high h = elim (Bool-cases (fl.less high v)) [
    | inl above ↦ rw (above, h) (inr h, order.irreflexive high)
    | inr not_above ↦ rw not_above (elim (Bool-cases (fl.less low v)) [
      | inl inside ↦ rw inside (inr inside, not_above)
      | inr outside ↦ rw outside (inl refl, order.asymmetric low high h)
    ])
  ]

  module _ (order : IsOrder fl) where
    pitch-Within : (p : fl.F) → Within (fl.of_nat 0) (fl.of_nat 89) (bound_pitch fl p)
    pitch-Within p = q_bound-Within order (fl.of_nat 0) p (fl.of_nat 89) order.pitch_bounds

    distance-Within : (d : fl.F) → Within (fl.thousandths 200) (fl.of_nat 250) (bound_distance fl d)
    distance-Within d =
        q_bound-Within order (fl.thousandths 200) d (fl.of_nat 250) order.distance_bounds

  -- What is called on a camera.
  pub data Call : Type 0 where
    resizes : ℕ → ℕ → Call
    begins_rotate rotates begins_pan pans begins_zoom_drag drags_zoom : fl.D × fl.D → Call
    ends_rotate ends_pan ends_zoom_drag updates : Call
    zooms : fl.F → Call
    sets_distance : fl.F → Bool → Call
    loads : Json → Call

  module _ (jf : JsonFloats fl) (speed : fl.F) where
    unfoldable pub step : Call → OrbitCamera fl → OrbitCamera fl
    step (resizes w h) c = (resize fl w h c).0
    step (begins_rotate pos) c = (begin_rotate fl pos c).0
    step (rotates pos) c = (rotate_to fl pos c).0
    step (begins_pan pos) c = (begin_pan fl pos c).0
    step (pans pos) c = (pan_to fl pos c).0
    step (begins_zoom_drag pos) c = (begin_zoom_drag fl pos c).0
    step (drags_zoom pos) c = (zoom_drag_to fl pos c).0
    step ends_rotate c = (end_rotate fl c).0
    step ends_pan c = (end_pan fl c).0
    step ends_zoom_drag c = (end_zoom_drag fl c).0
    step updates c = (update_matrices fl c).0
    step (zooms delta) c = (zoom fl speed delta c).0
    step (sets_distance d notify) c = (set_distance fl d notify c).0
    step (loads config) c = load_config fl jf config c

    unfoldable pub run : List Call → OrbitCamera fl → OrbitCamera fl
    run [] c = c
    run (call ∷ calls) c = run calls (step call c)

    -- As long as the function is set, the camera is in range.
    record Safe (c : OrbitCamera fl) : Type 0 where
      in_range : c.on_config_changed ≡ true → InRange c

    load_field_keeps :
        (k : _) (default : fl.F) (put : fl.F → OrbitCamera fl → OrbitCamera fl) (config : Json)
        (l : Loading fl jf)
        → ((v : fl.F) (c : OrbitCamera fl) → (put v c).on_config_changed ≡ c.on_config_changed)
        → (load_field fl jf k default put config l).0.on_config_changed ≡ l.0.on_config_changed
    unfolding load_field
    load_field_keeps k default put config (c, false) same = refl
    load_field_keeps k default put config (c, true) same =
        elim (Option-cases (value_of fl jf (member k config) default)) [
          | inl e ↦ rw e refl
          | inr (v, e) ↦ rw e (same v c)
        ]

    load_target_keeps :
        (j : Option Json) (l : Loading fl jf)
        → (load_target fl jf j l).0.on_config_changed ≡ l.0.on_config_changed
    unfolding load_target
    load_target_keeps (some (object fs)) l =
        load_field_keeps "z" _ (set_z fl jf) (object fs) _ (λ v c. refl)
        ∙ load_field_keeps "y" _ (set_y fl jf) (object fs) _ (λ v c. refl)
        ∙ load_field_keeps "x" _ (set_x fl jf) (object fs) l (λ v c. refl)
    load_target_keeps none l = refl
    load_target_keeps (some null) l = refl
    load_target_keeps (some (boolean _)) l = refl
    load_target_keeps (some (integer _)) l = refl
    load_target_keeps (some (float _)) l = refl
    load_target_keeps (some (string _)) l = refl
    load_target_keeps (some (array _)) l = refl

    load_all_keeps :
        (config : Json) (c : OrbitCamera fl) → (load_all fl jf config c).0.on_config_changed ≡ false
    unfolding load_all
    load_all_keeps config c =
        load_target_keeps (member "target" config) _
        ∙ load_field_keeps "fovY" _ (set_fov_y fl jf) config _ (λ v c. refl)
        ∙ load_field_keeps "distance" _ (set_camera_distance fl jf) config _ (λ v c. refl)
        ∙ load_field_keeps "pitch" _ (set_pitch fl jf) config _ (λ v c. refl)
        ∙ load_field_keeps "yaw" _ (set_yaw fl jf) config _ (λ v c. refl)

    -- A configuration that is no object changes nothing; one without a broken number gives a camera in range with its
    -- function; and a broken number takes the function away for good, as each later load finds none to give back.
    abbrev pub Loaded : OrbitCamera fl → Bool → OrbitCamera fl → Type 0
    Loaded c true c' =
        InRange c'
        × (c'.on_config_changed ≡ c.on_config_changed)
        × (c'.view_dirty ≡ true)
        × (c'.proj_dirty ≡ true)
    Loaded c false c' = c'.on_config_changed ≡ false

    finish_load-Loaded :
        (order : IsOrder fl) (c : OrbitCamera fl) (l : Loading fl jf)
        → l.0.on_config_changed ≡ false
        → Loaded c l.1 (finish_load fl jf c.on_config_changed l)
    finish_load-Loaded order c (c', true) unset = (
      record {
        pitch_within = pitch-Within order c'.pitch;
        distance_within = distance-Within order c'.distance;
      },
      refl,
      refl,
      refl,
    )
    finish_load-Loaded order c (c', false) unset = unset

    -- Loading an object of settings ends in one of two ways: all its numbers were read, and the camera is in range, to be
    -- drawn anew, with the function that saves its changes; or one was broken, and the function is lost.
    pub load_config-Loaded :
        (order : IsOrder fl) (fs : Fields) (c : OrbitCamera fl)
        → Loaded c (load_all fl jf (object fs) c).1 (load_config fl jf (object fs) c)
    unfolding load_config
    load_config-Loaded order fs c =
        finish_load-Loaded order c (load_all fl jf (object fs) c) (load_all_keeps (object fs) c)

    loaded-Safe : (c c' : OrbitCamera fl) (fine : Bool) → Loaded c fine c' → Safe c'
    loaded-Safe c c' true (r, _, _, _) = record { in_range = λ _. r }
    loaded-Safe c c' false lost = record { in_range = λ set. cc }

    -- What leaves the pitch, the distance and the function alone, or gives them their bounds.
    unmoved :
        (c c' : OrbitCamera fl)
        → c'.pitch ≡ c.pitch
        → c'.distance ≡ c.distance
        → c'.on_config_changed ≡ c.on_config_changed
        → Safe c
        → Safe c'
    unmoved c c' p d f s = record {
      in_range = λ e.
          let r = s.in_range (sym f ∙ e) in
          record { pitch_within = rw p r.pitch_within; distance_within = rw d r.distance_within };
    }

    pitched :
        (order : IsOrder fl) (c c' : OrbitCamera fl) (p : fl.F)
        → c'.pitch ≡ bound_pitch fl p
        → c'.distance ≡ c.distance
        → c'.on_config_changed ≡ c.on_config_changed
        → Safe c
        → Safe c'
    pitched order c c' p e d f s = record {
      in_range = λ set.
          let r = s.in_range (sym f ∙ set) in
          record {
            pitch_within = rw e (pitch-Within order p);
            distance_within = rw d r.distance_within;
          };
    }

    moved :
        (order : IsOrder fl) (c c' : OrbitCamera fl) (d : fl.F)
        → c'.pitch ≡ c.pitch
        → c'.distance ≡ bound_distance fl d
        → c'.on_config_changed ≡ c.on_config_changed
        → Safe c
        → Safe c'
    moved order c c' d p e f s = record {
      in_range = λ set.
          let r = s.in_range (sym f ∙ set) in
          record {
            pitch_within = rw p r.pitch_within;
            distance_within = rw e (distance-Within order d);
          };
    }

    record SafeStep (r : OrbitCamera fl × Bool) : Type 0 where
      after : Safe r.0

    either-SafeStep :
        (test : Bool) (x y : OrbitCamera fl × Bool)
        → SafeStep x
        → SafeStep y
        → SafeStep (if test then x else y)
    either-SafeStep true x y s t = s
    either-SafeStep false x y s t = t

    module _ (order : IsOrder fl) where
      rotate_to-Safe :
          (pos : fl.D × fl.D) (c : OrbitCamera fl) → Safe c → SafeStep (rotate_to fl pos c)
      unfolding rotate_to
      rotate_to-Safe (x, y) c s =
          either-SafeStep c.rotating _ _ (record { after = pitched order c _ _ refl refl refl s })
            (record { after = s })

      pan_to-Safe : (pos : fl.D × fl.D) (c : OrbitCamera fl) → Safe c → SafeStep (pan_to fl pos c)
      unfolding pan_to
      pan_to-Safe (x, y) c s =
          let flat =
            not (fl.less (fl.of_nat 0) (fl.of_nat c.viewport.0))
            || not (fl.less (fl.of_nat 0) (fl.of_nat c.viewport.1)) in
          either-SafeStep (not c.panning) _ _ (record { after = s })
            (either-SafeStep flat _ _ (record { after = unmoved c _ refl refl refl s })
              (record { after = unmoved c _ refl refl refl s }))

      zoom_drag_to-Safe :
          (pos : fl.D × fl.D) (c : OrbitCamera fl) → Safe c → SafeStep (zoom_drag_to fl pos c)
      unfolding zoom_drag_to
      zoom_drag_to-Safe (x, y) c s =
          either-SafeStep c.zooming _ _ (record { after = moved order c _ _ refl refl refl s })
            (record { after = s })

      set_distance-Safe :
          (d : fl.F) (notify : Bool) (c : OrbitCamera fl)
          → Safe c
          → SafeStep (set_distance fl d notify c)
      unfolding set_distance
      set_distance-Safe d notify c s =
          either-SafeStep _ _ _ (record { after = s })
            (either-SafeStep notify _ _ (record { after = moved order c _ d refl refl refl s })
              (record { after = moved order c _ d refl refl refl s }))

      load_config-Safe :
          (config : Json) (c : OrbitCamera fl) → Safe c → Safe (load_config fl jf config c)
      unfolding load_config
      load_config-Safe (object fs) c s =
          loaded-Safe c (load_config fl jf (object fs) c) (load_all fl jf (object fs) c).1
            (load_config-Loaded order fs c)
      load_config-Safe null c s = s
      load_config-Safe (boolean _) c s = s
      load_config-Safe (integer _) c s = s
      load_config-Safe (float _) c s = s
      load_config-Safe (string _) c s = s
      load_config-Safe (array _) c s = s

      step-Safe : (call : Call) (c : OrbitCamera fl) → Safe c → Safe (step call c)
      unfolding step
      step-Safe (resizes w h) c s = unfold resize in unmoved c _ refl refl refl s
      step-Safe (begins_rotate pos) c s = unfold begin_rotate in unmoved c _ refl refl refl s
      step-Safe (begins_pan pos) c s = unfold begin_pan in unmoved c _ refl refl refl s
      step-Safe (begins_zoom_drag pos) c s = unfold begin_zoom_drag in unmoved c _ refl refl refl s
      step-Safe ends_rotate c s = unfold end_rotate in unmoved c _ refl refl refl s
      step-Safe ends_pan c s = unfold end_pan in unmoved c _ refl refl refl s
      step-Safe ends_zoom_drag c s = unfold end_zoom_drag in unmoved c _ refl refl refl s
      step-Safe updates c s = unfold update_matrices in unmoved c _ refl refl refl s
      step-Safe (zooms delta) c s = unfold zoom in moved order c _ _ refl refl refl s
      step-Safe (sets_distance d notify) c s = (set_distance-Safe d notify c s).after
      step-Safe (rotates pos) c s = (rotate_to-Safe pos c s).after
      step-Safe (pans pos) c s = (pan_to-Safe pos c s).after
      step-Safe (drags_zoom pos) c s = (zoom_drag_to-Safe pos c s).after
      step-Safe (loads config) c s = load_config-Safe config c s

      run-Safe : (calls : List Call) (c : OrbitCamera fl) → Safe c → Safe (run calls c)
      unfolding run
      run-Safe [] c s = s
      run-Safe (call ∷ calls) c s = run-Safe calls (step call c) (step-Safe call c s)

      -- After any calls on a new camera, as long as no configuration has taken its function away, the pitch stays between
      -- 0 and 89 and the distance between 0.2 and 250, also where NaN goes in.
      pub run-InRange :
          (calls : List Call)
          → (run calls (new_camera fl)).on_config_changed ≡ true
          → InRange (run calls (new_camera fl))
      unfolding new_camera
      run-InRange calls =
          (run-Safe calls (new_camera fl) (record {
            in_range = λ _. record {
              pitch_within =
                  (inl refl, order.asymmetric (fl.of_nat 0) (fl.of_nat 89) order.pitch_bounds);
              distance_within = (inr order.three_above, order.three_below);
            };
          })).in_range
