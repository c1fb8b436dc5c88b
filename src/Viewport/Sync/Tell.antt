-- ===== src/Viewport/Sync/Tell.antt =====
-- render_viewport_item.cpp: what one synchronisation tells the scene.
use qml_and_bgfx_testbridge.Prelude.{
  ◌≡◌, refl, ap, sym, ◌∙◌, Bool, true, false, not, List, [], ◌∷◌, ◌++◌, Option, none, some, String,
  str_eq, str_eq_iff, Bool-cases, inl, inr, if◌then◌else◌,
}
use qml_and_bgfx_testbridge.Prelude.Int.{ℤ}
use qml_and_bgfx_testbridge.Viewport.{Values, RenderViewportItem}
use qml_and_bgfx_testbridge.Viewport.Sync.{
  SceneCall, sets_overlay_pixel_scale, loads_heightfield, loads_diffuse, clears_heightfield,
  clears_diffuse, sets_overlay_rects, sets_image_transform, sets_height_pixel_size,
  focuses_overlay_rect, requests_live_shader, requests_revert_live_shader, Synced, source_calls,
  when, scale_calls, synchronize,
}

module _ (v : Values) where
  -- What the scene was last told. No path is the empty text.
  pub record Told : Type 0 where
    pub heightfield : String
    pub diffuse : String
    pub overlays : List v.OverlayRect
    pub transform : v.F32 × v.F32 × v.F32
    pub pixel_size : v.F32

  abbrev pub tell : SceneCall v → Told → Told
  tell (sets_overlay_pixel_scale s) w = w
  tell (loads_heightfield path) w = record w { heightfield = path }
  tell (loads_diffuse path) w = record w { diffuse = path }
  tell clears_heightfield w = record w { heightfield = "" }
  tell clears_diffuse w = record w { diffuse = "" }
  tell (sets_overlay_rects rects) w = record w { overlays = rects }
  tell (sets_image_transform r x y) w = record w { transform = (r, x, y) }
  tell (sets_height_pixel_size s) w = record w { pixel_size = s }
  tell (focuses_overlay_rect id) w = w
  tell (requests_live_shader shader) w = w
  tell (requests_revert_live_shader slot) w = w

  unfoldable pub tell_all : List (SceneCall v) → Told → Told
  tell_all [] w = w
  tell_all (c ∷ cs) w = tell_all cs (tell c w)

  tell_all-append :
      (cs ds : List (SceneCall v)) (w : Told) → tell_all (cs ++ ds) w ≡ tell_all ds (tell_all cs w)
  unfolding tell_all
  tell_all-append [] ds w = refl
  tell_all-append (c ∷ cs) ds w = tell_all-append cs ds (tell c w)

  tell_scale : (ratio : Option v.F) (w : Told) → tell_all (scale_calls v ratio) w ≡ w
  unfolding tell_all
  tell_scale none w = refl
  tell_scale (some s) w = refl

  tell_overlays :
      (b : Bool) (rects : List v.OverlayRect) (w : Told)
      → tell_all (when v b (sets_overlay_rects rects)) w
        ≡ record w { overlays = if b then rects else w.overlays }
  unfolding tell_all
  tell_overlays true rects w = refl
  tell_overlays false rects w = refl

  tell_transform :
      (b : Bool) (r x y : v.F32) (w : Told)
      → tell_all (when v b (sets_image_transform r x y)) w
        ≡ record w { transform = if b then (r, x, y) else w.transform }
  unfolding tell_all
  tell_transform true r x y w = refl
  tell_transform false r x y w = refl

  tell_size :
      (b : Bool) (s : v.F32) (w : Told)
      → tell_all (when v b (sets_height_pixel_size s)) w
        ≡ record w { pixel_size = if b then s else w.pixel_size }
  unfolding tell_all
  tell_size true s w = refl
  tell_size false s w = refl

  tell_others :
      (b c d : Bool) (id : ℤ) (shader : String × String × String) (slot : String) (w : Told)
      → tell_all
          (when v b (focuses_overlay_rect id)
            ++ (when v c (requests_live_shader shader)
                ++ when v d (requests_revert_live_shader slot)))
          w
        ≡ w
  unfolding tell_all
  tell_others true true true id shader slot w = refl
  tell_others true true false id shader slot w = refl
  tell_others true false true id shader slot w = refl
  tell_others true false false id shader slot w = refl
  tell_others false true true id shader slot w = refl
  tell_others false true false id shader slot w = refl
  tell_others false false true id shader slot w = refl
  tell_others false false false id shader slot w = refl

  module _ (to_local_path : String → String) where
    -- The path that a source asks for.
    abbrev pub asked : String → String
    asked source = if not (str_eq source "") then to_local_path source else ""

    pub source_last :
        (load : String → SceneCall v) (clear : SceneCall v) (source last : String)
        → (source_calls v to_local_path load clear source last).0 ≡ asked source
    unfolding source_calls
    source_last load clear source last = elim (Bool-cases (str_eq source "")) [
      | inl empty ↦ rw empty (elim (Bool-cases (str_eq last "")) [
        | inl old ↦ rw old ((str_eq_iff last "").0 old)
        | inr new ↦ rw new refl
      ])
      | inr given ↦ rw given (elim (Bool-cases (str_eq (to_local_path source) last)) [
        | inl old ↦ rw old (sym ((str_eq_iff (to_local_path source) last).0 old))
        | inr new ↦ rw new refl
      ])
    ]

    -- The calls for a source, of which `put` is what they tell.
    tell_source :
        (load : String → SceneCall v) (clear : SceneCall v) (put : String → Told → Told)
        (source last : String) (w : Told)
        → ((path : String) → tell (load path) w ≡ put path w)
        → tell clear w ≡ put "" w
        → w ≡ put last w
        → tell_all (source_calls v to_local_path load clear source last).1 w ≡ put (asked source) w
    unfolding source_calls tell_all
    tell_source load clear put source last w loads clears same =
        elim (Bool-cases (str_eq source "")) [
          | inl empty ↦ rw empty (elim (Bool-cases (str_eq last "")) [
            | inl old ↦ rw old (same ∙ ap (λ p. put p w) ((str_eq_iff last "").0 old))
            | inr new ↦ rw new clears
          ])
          | inr given ↦ rw given (elim (Bool-cases (str_eq (to_local_path source) last)) [
            | inl old ↦
                rw old
                  (same ∙ ap (λ p. put p w) (sym ((str_eq_iff (to_local_path source) last).0 old)))
            | inr new ↦ rw new (loads (to_local_path source))
          ])
        ]

    -- What the scene was last told after a synchronisation.
    abbrev pub after_sync : RenderViewportItem v → Told → Told
    after_sync i w = record {
      heightfield = asked i.heightfield_source;
      diffuse = asked i.diffuse_source;
      overlays = if i.overlay_dirty then i.pending_overlay_rects else w.overlays;
      transform =
          if i.transform_dirty
          then (v.to_float i.image_rotation, v.to_float i.image_scale_x, v.to_float i.image_scale_y)
          else w.transform;
      pixel_size =
          if i.height_pixel_size_dirty then v.to_float i.height_pixel_size else w.pixel_size;
    }

    pub tell_sync :
        (ratio : Option v.F) (focused : Bool) (i : RenderViewportItem v) (r : Synced v) (w : Told)
        → w.heightfield ≡ r.last_heightfield_path
        → w.diffuse ≡ r.last_diffuse_path
        → tell_all (synchronize v to_local_path ratio focused i r).2 w ≡ after_sync i w
    unfolding synchronize
    tell_sync ratio focused i r w e f =
        let calls1 =
          (source_calls v to_local_path loads_heightfield clears_heightfield i.heightfield_source
            r.last_heightfield_path).1 in
        let calls2 =
          (source_calls v to_local_path loads_diffuse clears_diffuse i.diffuse_source
            r.last_diffuse_path).1 in
        let w1 = record w { heightfield = asked i.heightfield_source } in
        let w2 = record w1 { diffuse = asked i.diffuse_source } in
        let w3 = record w2 {
          overlays = if i.overlay_dirty then i.pending_overlay_rects else w.overlays;
        } in
        let w4 = record w3 {
          transform =
              if i.transform_dirty
              then (
                v.to_float i.image_rotation,
                v.to_float i.image_scale_x,
                v.to_float i.image_scale_y,
              )
              else w.transform;
        } in
        let step1 =
          tell_source loads_heightfield clears_heightfield (λ p u. record u { heightfield = p })
            i.heightfield_source r.last_heightfield_path w (λ p. refl) refl
            (ap (λ h. record w { heightfield = h }) e) in
        let step2 =
          tell_source loads_diffuse clears_diffuse (λ p u. record u { diffuse = p })
            i.diffuse_source r.last_diffuse_path w1 (λ p. refl) refl
            (ap (λ d. record w1 { diffuse = d }) f) in
        tell_all-append (scale_calls v ratio) _ w
        ∙ ap (tell_all _) (tell_scale ratio w)
        ∙ tell_all-append calls1 _ w
        ∙ ap (tell_all _) step1
        ∙ tell_all-append calls2 _ w1
        ∙ ap (tell_all _) step2
        ∙ tell_all-append (when v i.overlay_dirty (sets_overlay_rects i.pending_overlay_rects)) _ w2
        ∙ ap (tell_all _) (tell_overlays i.overlay_dirty i.pending_overlay_rects w2)
        ∙ tell_all-append
            (when v i.transform_dirty (
              sets_image_transform (v.to_float i.image_rotation) (v.to_float i.image_scale_x)
                (v.to_float i.image_scale_y)))
            _ w3
        ∙ ap (tell_all _) (
            tell_transform i.transform_dirty (v.to_float i.image_rotation)
              (v.to_float i.image_scale_x) (v.to_float i.image_scale_y) w3)
        ∙ tell_all-append
            (when v i.height_pixel_size_dirty
              (sets_height_pixel_size (v.to_float i.height_pixel_size)))
            _ w4
        ∙ ap (tell_all _) (tell_size i.height_pixel_size_dirty (v.to_float i.height_pixel_size) w4)
        ∙ tell_others i.focus_pending i.live_shader_pending i.live_shader_revert_pending
            i.focus_rect_id i.pending_live_shader i.pending_live_shader_revert_slot (after_sync i w)
