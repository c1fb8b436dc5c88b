-- ===== src/Viewport/Sync/LastTold.antt =====
-- render_viewport_item.cpp: at each synchronisation the scene is told what was set on the item.
use qml_and_bgfx_testbridge.Prelude.{
  ◌≡◌, refl, ap, sym, ◌∙◌, Bool, true, false, List, [], ◌∷◌, Option, String, str_eq, if◌then◌else◌,
}
use qml_and_bgfx_testbridge.Prelude.Int.{ℤ}
use qml_and_bgfx_testbridge.Viewport.{
  Values, RenderViewportItem, new_item, request_live_shader, request_revert_live_shader,
  set_heightfield_source, set_diffuse_source, set_image_rotation, set_image_scale_x,
  set_image_scale_y, set_height_pixel_size, set_overlay_rects, clear_overlay_rects,
  focus_overlay_rect, request_pick,
}
use qml_and_bgfx_testbridge.Viewport.Sync.{
  loads_heightfield, loads_diffuse, clears_heightfield, clears_diffuse, Synced, synchronize,
}
use qml_and_bgfx_testbridge.Viewport.Sync.Tell.{
  Told, tell_all, asked, source_last, after_sync, tell_sync,
}

module _ (v : Values) where
  -- What is called on the item by QML, and the synchronisations between.
  pub data Event : Type 0 where
    sets_heightfield_source sets_diffuse_source requests_revert : String → Event
    sets_rotation sets_scale_x sets_scale_y sets_pixel_size : v.F → Event
    sets_overlays : List v.OverlayRect → Event
    clears_overlays : Event
    focuses : ℤ → Event
    requests_shader : String × String × String → Event
    picks : v.F × v.F → Event
    syncs : Option v.F → Bool → Event

  pub record World : Type 0 where
    pub viewport : RenderViewportItem v
    pub synced : Synced v
    pub told_last : Told v

  module _ (to_local_path : String → String) where
    abbrev pub with_item : RenderViewportItem v × Bool → World → World
    with_item (i, asks) w = record w { viewport = i }

    unfoldable pub sync : Option v.F → Bool → World → World
    sync ratio focused w =
        let (i, r, calls) = synchronize v to_local_path ratio focused w.viewport w.synced in
        record { viewport = i; synced = r; told_last = tell_all v calls w.told_last }

    unfoldable pub step : Event → World → World
    step (sets_heightfield_source url) w = with_item (set_heightfield_source v url w.viewport) w
    step (sets_diffuse_source url) w = with_item (set_diffuse_source v url w.viewport) w
    step (requests_revert slot) w = with_item (request_revert_live_shader v slot w.viewport) w
    step (sets_rotation a) w = with_item (set_image_rotation v a w.viewport) w
    step (sets_scale_x a) w = with_item (set_image_scale_x v a w.viewport) w
    step (sets_scale_y a) w = with_item (set_image_scale_y v a w.viewport) w
    step (sets_pixel_size a) w = with_item (set_height_pixel_size v a w.viewport) w
    step (sets_overlays rects) w = with_item (set_overlay_rects v rects w.viewport) w
    step clears_overlays w = with_item (clear_overlay_rects v w.viewport) w
    step (focuses id) w = with_item (focus_overlay_rect v id w.viewport) w
    step (requests_shader shader) w = with_item (request_live_shader v shader w.viewport) w
    step (picks pos) w = with_item (request_pick v pos w.viewport) w
    step (syncs ratio focused) w = sync ratio focused w

    unfoldable pub run : List Event → World → World
    run [] w = w
    run (e ∷ es) w = run es (step e w)

    abbrev pub transform_of : RenderViewportItem v → v.F32 × v.F32 × v.F32
    transform_of i =
        (v.to_float i.image_rotation, v.to_float i.image_scale_x, v.to_float i.image_scale_y)

    -- Where nothing is marked as changed the scene was last told what stands on the item.
    record Consistent (i : RenderViewportItem v) (r : Synced v) (w : Told v) : Type 0 where
      heightfield : w.heightfield ≡ r.last_heightfield_path
      diffuse : w.diffuse ≡ r.last_diffuse_path
      overlays : i.overlay_dirty ≡ false → w.overlays ≡ i.pending_overlay_rects
      transform : i.transform_dirty ≡ false → w.transform ≡ transform_of i
      pixel_size : i.height_pixel_size_dirty ≡ false → w.pixel_size ≡ v.to_float i.height_pixel_size

    -- What is marked is told, and the rest was told before.
    as_marked :
        {A : Type 0} (marked : Bool) (new old : A)
        → (marked ≡ false → old ≡ new)
        → (if marked then new else old) ≡ new
    as_marked true new old h = refl
    as_marked false new old h = h refl

    record After (r : Synced v) (w : Told v) (s : RenderViewportItem v × Bool) : Type 0 where
      consistent : Consistent s.0 r w

    either-After :
        (r : Synced v) (w : Told v) (test : Bool) (s t : RenderViewportItem v × Bool)
        → After r w s
        → After r w t
        → After r w (if test then s else t)
    either-After r w true s t a b = a
    either-After r w false s t a b = b

    -- A change of the transform is marked.
    marked_transform :
        (i : RenderViewportItem v) (r : Synced v) (w : Told v) (a x y : v.F)
        → Consistent i r w
        → After r w (
          record i {
            image_rotation = a;
            image_scale_x = x;
            image_scale_y = y;
            transform_dirty = true;
          },
          true,
        )
    marked_transform i r w a x y c = record {
      consistent = record {
        heightfield = c.heightfield;
        diffuse = c.diffuse;
        overlays = c.overlays;
        transform = λ clean. cc;
        pixel_size = c.pixel_size;
      };
    }

    marked_size :
        (i : RenderViewportItem v) (r : Synced v) (w : Told v) (a : v.F)
        → Consistent i r w
        → After r w (record i { height_pixel_size = a; height_pixel_size_dirty = true }, true)
    marked_size i r w a c = record {
      consistent = record {
        heightfield = c.heightfield;
        diffuse = c.diffuse;
        overlays = c.overlays;
        transform = c.transform;
        pixel_size = λ clean. cc;
      };
    }

    marked_overlays :
        (i : RenderViewportItem v) (r : Synced v) (w : Told v) (rects : List v.OverlayRect)
        → Consistent i r w
        → After r w (record i { pending_overlay_rects = rects; overlay_dirty = true }, true)
    marked_overlays i r w rects c = record {
      consistent = record {
        heightfield = c.heightfield;
        diffuse = c.diffuse;
        overlays = λ clean. cc;
        transform = c.transform;
        pixel_size = c.pixel_size;
      };
    }

    -- What of the item the scene was told stays.
    unmarked :
        (i j : RenderViewportItem v) (r : Synced v) (w : Told v) (asks : Bool)
        → j.overlay_dirty ≡ i.overlay_dirty
        → j.pending_overlay_rects ≡ i.pending_overlay_rects
        → j.transform_dirty ≡ i.transform_dirty
        → transform_of j ≡ transform_of i
        → j.height_pixel_size_dirty ≡ i.height_pixel_size_dirty
        → j.height_pixel_size ≡ i.height_pixel_size
        → Consistent i r w
        → After r w (j, asks)
    unmarked i j r w asks e1 e2 e3 e4 e5 e6 c = record {
      consistent = record {
        heightfield = c.heightfield;
        diffuse = c.diffuse;
        overlays = λ clean. c.overlays (sym e1 ∙ clean) ∙ sym e2;
        transform = λ clean. c.transform (sym e3 ∙ clean) ∙ sym e4;
        pixel_size = λ clean. c.pixel_size (sym e5 ∙ clean) ∙ ap v.to_float (sym e6);
      };
    }

    same_item :
        (i : RenderViewportItem v) (r : Synced v) (w : Told v)
        → Consistent i r w
        → After r w (i, false)
    same_item i r w c = record { consistent = c }

    told_after :
        (ratio : Option v.F) (focused : Bool) (w : World)
        → Consistent w.viewport w.synced w.told_last
        → Consistent
            (synchronize v to_local_path ratio focused w.viewport w.synced).0
            (synchronize v to_local_path ratio focused w.viewport w.synced).1
            (after_sync v to_local_path w.viewport w.told_last)
    unfolding synchronize
    told_after ratio focused w c = record {
      heightfield = sym (
          source_last v to_local_path loads_heightfield clears_heightfield
            w.viewport.heightfield_source w.synced.last_heightfield_path);
      diffuse = sym (
          source_last v to_local_path loads_diffuse clears_diffuse w.viewport.diffuse_source
            w.synced.last_diffuse_path);
      overlays = λ clean. as_marked w.viewport.overlay_dirty _ _ c.overlays;
      transform = λ clean. as_marked w.viewport.transform_dirty _ _ c.transform;
      pixel_size = λ clean. as_marked w.viewport.height_pixel_size_dirty _ _ c.pixel_size;
    }

    sync-Consistent :
        (ratio : Option v.F) (focused : Bool) (w : World)
        → Consistent w.viewport w.synced w.told_last
        → Consistent
            (sync ratio focused w).viewport
            (sync ratio focused w).synced
            (sync ratio focused w).told_last
    unfolding sync
    sync-Consistent ratio focused w c =
        let told =
          tell_sync v to_local_path ratio focused w.viewport w.synced w.told_last c.heightfield
            c.diffuse in
        rw told (told_after ratio focused w c)

    module _ (i : RenderViewportItem v) (r : Synced v) (w : Told v) (c : Consistent i r w) where
      set_heightfield_source-After : (url : String) → After r w (set_heightfield_source v url i)
      unfolding set_heightfield_source
      set_heightfield_source-After url =
          either-After r w (str_eq i.heightfield_source url) _ _ (same_item i r w c) (
            unmarked i (record i { heightfield_source = url }) r w true refl refl refl refl refl
              refl c)

      set_diffuse_source-After : (url : String) → After r w (set_diffuse_source v url i)
      unfolding set_diffuse_source
      set_diffuse_source-After url =
          either-After r w (str_eq i.diffuse_source url) _ _ (same_item i r w c) (
            unmarked i (record i { diffuse_source = url }) r w true refl refl refl refl refl refl c)

      request_revert_live_shader-After :
          (slot : String) → After r w (request_revert_live_shader v slot i)
      unfolding request_revert_live_shader
      request_revert_live_shader-After slot = unmarked i _ r w true refl refl refl refl refl refl c

      set_image_rotation-After : (a : v.F) → After r w (set_image_rotation v a i)
      unfolding set_image_rotation
      set_image_rotation-After a =
          either-After r w _ _ _ (same_item i r w c) (marked_transform i r w a _ _ c)

      set_image_scale_x-After : (a : v.F) → After r w (set_image_scale_x v a i)
      unfolding set_image_scale_x
      set_image_scale_x-After a =
          either-After r w _ _ _ (same_item i r w c) (marked_transform i r w _ a _ c)

      set_image_scale_y-After : (a : v.F) → After r w (set_image_scale_y v a i)
      unfolding set_image_scale_y
      set_image_scale_y-After a =
          either-After r w _ _ _ (same_item i r w c) (marked_transform i r w _ _ a c)

      set_height_pixel_size-After : (a : v.F) → After r w (set_height_pixel_size v a i)
      unfolding set_height_pixel_size
      set_height_pixel_size-After a =
          either-After r w _ _ _ (same_item i r w c) (marked_size i r w _ c)

      set_overlay_rects-After :
          (rects : List v.OverlayRect) → After r w (set_overlay_rects v rects i)
      unfolding set_overlay_rects
      set_overlay_rects-After rects = marked_overlays i r w rects c

      clear_overlay_rects-After : After r w (clear_overlay_rects v i)
      unfolding clear_overlay_rects
      clear_overlay_rects-After = marked_overlays i r w [] c

      focus_overlay_rect-After : (id : ℤ) → After r w (focus_overlay_rect v id i)
      unfolding focus_overlay_rect
      focus_overlay_rect-After id = unmarked i _ r w true refl refl refl refl refl refl c

      request_live_shader-After :
          (shader : String × String × String) → After r w (request_live_shader v shader i)
      unfolding request_live_shader
      request_live_shader-After shader = unmarked i _ r w true refl refl refl refl refl refl c

      request_pick-After : (pos : v.F × v.F) → After r w (request_pick v pos i)
      unfolding request_pick
      request_pick-After pos = unmarked i _ r w true refl refl refl refl refl refl c

    step-Consistent :
        (e : Event) (w : World)
        → Consistent w.viewport w.synced w.told_last
        → Consistent (step e w).viewport (step e w).synced (step e w).told_last
    unfolding step
    step-Consistent (sets_heightfield_source url) w c =
        (set_heightfield_source-After w.viewport w.synced w.told_last c url).consistent
    step-Consistent (sets_diffuse_source url) w c =
        (set_diffuse_source-After w.viewport w.synced w.told_last c url).consistent
    step-Consistent (requests_revert slot) w c =
        (request_revert_live_shader-After w.viewport w.synced w.told_last c slot).consistent
    step-Consistent (sets_rotation a) w c =
        (set_image_rotation-After w.viewport w.synced w.told_last c a).consistent
    step-Consistent (sets_scale_x a) w c =
        (set_image_scale_x-After w.viewport w.synced w.told_last c a).consistent
    step-Consistent (sets_scale_y a) w c =
        (set_image_scale_y-After w.viewport w.synced w.told_last c a).consistent
    step-Consistent (sets_pixel_size a) w c =
        (set_height_pixel_size-After w.viewport w.synced w.told_last c a).consistent
    step-Consistent (sets_overlays rects) w c =
        (set_overlay_rects-After w.viewport w.synced w.told_last c rects).consistent
    step-Consistent clears_overlays w c =
        (clear_overlay_rects-After w.viewport w.synced w.told_last c).consistent
    step-Consistent (focuses id) w c =
        (focus_overlay_rect-After w.viewport w.synced w.told_last c id).consistent
    step-Consistent (requests_shader shader) w c =
        (request_live_shader-After w.viewport w.synced w.told_last c shader).consistent
    step-Consistent (picks pos) w c =
        (request_pick-After w.viewport w.synced w.told_last c pos).consistent
    step-Consistent (syncs ratio focused) w c = sync-Consistent ratio focused w c

    run-Consistent :
        (es : List Event) (w : World)
        → Consistent w.viewport w.synced w.told_last
        → Consistent (run es w).viewport (run es w).synced (run es w).told_last
    unfolding run
    run-Consistent [] w c = c
    run-Consistent (e ∷ es) w c = run-Consistent es (step e w) (step-Consistent e w c)

    -- The scene was last told all that is set on the item, the numbers as `float`.
    pub record WasTold (i : RenderViewportItem v) (w : Told v) : Type 0 where
      pub heightfield_asked : w.heightfield ≡ asked v to_local_path i.heightfield_source
      pub diffuse_asked : w.diffuse ≡ asked v to_local_path i.diffuse_source
      pub overlays_set : w.overlays ≡ i.pending_overlay_rects
      pub transform_set : w.transform ≡ transform_of i
      pub pixel_size_set : w.pixel_size ≡ v.to_float i.height_pixel_size

    -- A new item with its renderer and scene, which stand for what a new scene has, without that it was told. `old_size` is
    -- what the scene has for the size of a height pixel.
    abbrev pub start : v.F32 → World
    start old_size = record {
      viewport = new_item v;
      synced = record {
        last_heightfield_path = "";
        last_diffuse_path = "";
        renderer_pick_pending = false;
        renderer_pick_pos = (v.zero_f, v.zero_f);
      };
      told_last = record {
        heightfield = "";
        diffuse = "";
        overlays = [];
        transform = (v.to_float v.zero_f, v.to_float v.one_f, v.to_float v.one_f);
        pixel_size = old_size;
      };
    }

    start-Consistent :
        (old_size : v.F32)
        → Consistent (start old_size).viewport (start old_size).synced (start old_size).told_last
    unfolding new_item
    start-Consistent old_size = record {
      heightfield = refl;
      diffuse = refl;
      overlays = λ clean. refl;
      transform = λ clean. refl;
      pixel_size = λ clean. cc;
    }

    -- Whatever is called on a new item, and however often it is synchronised between: at a synchronisation the calls of the
    -- scene are such that the last heightfield and diffuse path it was told to load, or to clear, are those of the sources on the
    -- item, and the last overlays, transform and pixel size it was told, or has from the start, are those on the
    -- item, the numbers converted to `float`.
    pub run-WasTold :
        (old_size : v.F32) (es : List Event) (ratio : Option v.F) (focused : Bool)
        → let w = run es (start old_size) in WasTold w.viewport (sync ratio focused w).told_last
    unfolding sync
    run-WasTold old_size es ratio focused =
        let w = run es (start old_size) in
        let c = run-Consistent es (start old_size) (start-Consistent old_size) in
        let told =
          tell_sync v to_local_path ratio focused w.viewport w.synced w.told_last c.heightfield
            c.diffuse in
        record {
          heightfield_asked = rw told refl;
          diffuse_asked = rw told refl;
          overlays_set = rw told (as_marked w.viewport.overlay_dirty _ _ c.overlays);
          transform_set = rw told (as_marked w.viewport.transform_dirty _ _ c.transform);
          pixel_size_set = rw told (as_marked w.viewport.height_pixel_size_dirty _ _ c.pixel_size);
        }
