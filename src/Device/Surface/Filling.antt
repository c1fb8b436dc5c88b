-- ===== src/Device/Surface/Filling.antt =====
-- render_device.cpp, `createSurfaceResources`, and `createSurface` and `resizeSurface` behind their guards:
-- whatever bgfx answers, what was made lies in the surface or was destroyed again.
use qml_and_bgfx_testbridge.Prelude.{
  ℕ, ◌+◌, ◌≡◌, inl, inr, Bool, true, false, not, ◌||◌, List, [], ◌∷◌, ◌==◌, if◌then◌else◌, arith,
  Bool-cases,
}
use qml_and_bgfx_testbridge.Device.Bgfx.{
  Gpu, GpuCall, create_texture, create_frame_buffer, is_valid, color_target, depth_target,
  readback_target,
}
use qml_and_bgfx_testbridge.Device.ViewIds.{invalid_view_id, allocate_view_id}
use qml_and_bgfx_testbridge.Device.Surface.{
  Work, u16, destroy_surface_resources, create_readbacks, finish_surface, frame_surface,
  create_surface_resources, fill_surface, refill_surface,
}
use qml_and_bgfx_testbridge.Device.Surface.Balance.{
  Resource, frame_buffer, IsReal, hit, made, gone, hits, owned, Balanced, Balanced-trans,
  owned-destroy, destroy-Balanced,
}

module _ (r : Resource) (real : IsReal r) where
  module _ (gpu : Gpu) (w h : ℕ) where
    create_readbacks-counts :
        (hs : List ℕ) (log : List GpuCall)
        → hits r hs ≡ 0
        → let (ok, hs', log') = create_readbacks gpu w h hs log in
          (made r log' ≡ made r log + hits r hs') × (gone r log' ≡ gone r log)
    unfolding create_readbacks
    create_readbacks-counts [] log none_held = omega arith
    create_readbacks-counts (old ∷ rest) log none_held =
        let fresh = gpu.new_texture log in
        let log' = create_texture (u16 w) (u16 h) readback_target fresh ∷ log in
        elim (Bool-cases (is_valid fresh)) [
          | inl valid ↦ rw valid (omega (arith, create_readbacks-counts rest log' (omega arith)))
          | inr invalid ↦ rw invalid (omega arith)
        ]

    -- A failure is cleaned up.
    failed-Balanced :
        (u v : Work) → Balanced r u v → Balanced r u (destroy_surface_resources false v)
    failed-Balanced u v p =
        Balanced-trans r real u v (destroy_surface_resources false v) p
          (destroy-Balanced r real false v)

    finish_surface-Balanced :
        (work : Work)
        → hits r work.surface.readback_tex ≡ 0
        → Balanced r work (finish_surface gpu w h work).1
    unfolding finish_surface
    finish_surface-Balanced work none_held =
        let (ok, hs, log) = create_readbacks gpu w h work.surface.readback_tex work.log in
        let counts = create_readbacks-counts work.surface.readback_tex work.log none_held in
        let v : Work = record work {
          log = log;
          surface = record (work.surface) { readback_tex = hs };
        } in
        elim (Bool-cases ok) [
          | inl done ↦ rw done (omega (arith, counts))
          | inr stopped ↦ rw stopped (failed-Balanced work v (omega (arith, counts)))
        ]

    frame_surface-Balanced :
        (work : Work)
        → hit r (frame_buffer work.surface.framebuffer) ≡ 0
        → hits r work.surface.readback_tex ≡ 0
        → Balanced r work (frame_surface gpu w h work).1
    unfolding frame_surface
    frame_surface-Balanced work no_buffer none_held =
        let fb = gpu.new_frame_buffer work.log in
        let v : Work = record work {
          log = create_frame_buffer work.surface.color_tex work.surface.depth_tex fb ∷ work.log;
          surface = record (work.surface) { framebuffer = fb };
        } in
        let step : Balanced r work v = omega arith in
        elim (Bool-cases (is_valid fb)) [
          | inl valid ↦ rw valid (
              Balanced-trans r real work v (finish_surface gpu w h v).1 step
                (finish_surface-Balanced v none_held))
          | inr invalid ↦ rw invalid (failed-Balanced work v step)
        ]

    create_surface_resources-Balanced :
        (work : Work)
        → owned r work.surface ≡ 0
        → Balanced r work (create_surface_resources gpu w h work).1
    unfolding create_surface_resources
    create_surface_resources-Balanced work bare =
        let color = gpu.new_texture work.log in
        let log = create_texture (u16 w) (u16 h) color_target color ∷ work.log in
        let depth = gpu.new_texture log in
        let v : Work = record work {
          log = create_texture (u16 w) (u16 h) depth_target depth ∷ log;
          surface = record (work.surface) { color_tex = color; depth_tex = depth };
        } in
        let step : Balanced r work v = omega arith in
        elim (Bool-cases (not (is_valid color) || not (is_valid depth))) [
          | inl failed ↦ rw failed (failed-Balanced work v step)
          | inr both ↦ rw both (
              Balanced-trans r real work v (frame_surface gpu w h v).1 step
                (frame_surface-Balanced v (omega arith) (omega arith)))
        ]

    pub fill_surface-Balanced :
        (gen : ℕ) (start : Work)
        → owned r start.surface ≡ 0
        → Balanced r start (fill_surface gpu w h gen start).1
    unfolding fill_surface
    fill_surface-Balanced gen start bare =
        let (render, views) = allocate_view_id start.views in
        let (blit, views') = allocate_view_id views in
        let viewed : Work = record start {
          views = views';
          surface = record (start.surface) { render_view_id = render; blit_view_id = blit };
        } in
        let sized : Work = record viewed {
          surface = record (viewed.surface) { width = w; height = h; generation = gen };
        } in
        let result = create_surface_resources gpu w h sized in
        let filled = create_surface_resources-Balanced sized bare in
        elim (Bool-cases (render == invalid_view_id || blit == invalid_view_id)) [
          | inl no_view ↦ rw no_view (destroy-Balanced r real true viewed)
          | inr views_given ↦ rw views_given (elim (Bool-cases result.0) [
            | inl ok ↦ rw ok filled
            | inr failed ↦ rw failed (
                Balanced-trans r real sized result.1 (destroy_surface_resources true result.1)
                  filled (destroy-Balanced r real true result.1))
          ])
        ]

    -- A surface that could not be filled holds nothing.
    pub owned-fill_surface :
        (gen : ℕ) (start : Work)
        → (fill_surface gpu w h gen start).0 ≡ false
        → owned r (fill_surface gpu w h gen start).1.surface ≡ 0
    unfolding fill_surface
    owned-fill_surface gen start failed =
        let (render, views) = allocate_view_id start.views in
        let (blit, views') = allocate_view_id views in
        let viewed : Work = record start {
          views = views';
          surface = record (start.surface) { render_view_id = render; blit_view_id = blit };
        } in
        let sized : Work = record viewed {
          surface = record (viewed.surface) { width = w; height = h; generation = gen };
        } in
        let result = create_surface_resources gpu w h sized in
        outcome (render == invalid_view_id || blit == invalid_view_id) result.0 viewed result.1
          failed
      where
        outcome :
            (no_view ok : Bool) (viewed filled : Work)
            → let out : Bool × Work =
                if no_view
                then (false, destroy_surface_resources true viewed)
                else if ok
                then (true, filled)
                else (false, destroy_surface_resources true filled) in
              out.0 ≡ false → owned r out.1.surface ≡ 0
        outcome true ok viewed filled e = owned-destroy r real true viewed
        outcome false true viewed filled e = cc
        outcome false false viewed filled e = owned-destroy r real true filled

    pub refill_surface-Balanced :
        (gen : ℕ) (start : Work) → Balanced r start (refill_surface gpu w h gen start).1
    unfolding refill_surface
    refill_surface-Balanced gen start =
        let bare = destroy_surface_resources false start in
        let sized : Work = record bare {
          surface = record (bare.surface) {
            render_view_id = start.surface.render_view_id;
            blit_view_id = start.surface.blit_view_id;
            width = w;
            height = h;
            generation = gen;
          };
        } in
        let result = create_surface_resources gpu w h sized in
        let empty : owned r sized.surface ≡ 0 = owned-destroy r real false start in
        let step : Balanced r start sized = destroy-Balanced r real false start in
        let filled =
          Balanced-trans r real start sized result.1 step
            (create_surface_resources-Balanced sized empty) in
        elim (Bool-cases result.0) [
          | inl ok ↦ rw ok filled
          | inr failed ↦ rw failed (
              Balanced-trans r real start result.1 (destroy_surface_resources true result.1) filled
                (destroy-Balanced r real true result.1))
        ]
