-- ===== src/Presenter/Lifecycle.antt =====
-- readback_presenter.cpp, `ensureSurface` and `drainAndRelease`: the surface of the presenter.
use qml_and_bgfx_testbridge.Prelude.{
  ℕ, Bool, true, false, not, ◌&&◌, ◌||◌, List, [], ◌∷◌, ◌==◌, if◌then◌else◌,
}
use qml_and_bgfx_testbridge.Prelude.Int.{wrap}
use qml_and_bgfx_testbridge.Device.Bgfx.{Gpu, is_valid}
use qml_and_bgfx_testbridge.Device.Surface.{ViewSurface}
use qml_and_bgfx_testbridge.Device.{
  acquire, release, set_platform_data, create_surface, resize_surface, destroy_surface,
}
use qml_and_bgfx_testbridge.Presenter.State.{
  Size, ReadbackPresenter, ContentCall, set_render_target, resize, World, same_size,
  reset_readback_state, wait_and_stash,
}

-- `sizeChanged`
abbrev pub size_changed : Size → ViewSurface → Bool
size_changed sz s = not (s.width == wrap 32 sz.width) || not (s.height == wrap 32 sz.height)

-- The end: what the content is told, and whether the frame buffer of Qt is cleared.
unfoldable pub bind_content :
    Size → Bool → Bool → Bool → ReadbackPresenter → ReadbackPresenter × List ContentCall × Bool
bind_content sz content recreated changed p =
    let bound = set_render_target p.surface.render_view_id p.surface.framebuffer in
    let fits = resize (wrap 32 sz.width) (wrap 32 sz.height) in
    let cleared = recreated || changed || not (same_size p.last_size sz) in
    let done = record p { last_size = sz } in
    if content
    then if recreated || not p.scene_inited || changed
      then (record done { scene_inited = true }, bound ∷ fits ∷ [], cleared)
      else (done, bound ∷ [], cleared)
    else (done, [], cleared)

module _ {P : Type 0} where
  -- The parts of `ensureSurface`. First the device.
  unfoldable pub start_runtime : Gpu → P → Size → World P → Bool × World P
  start_runtime gpu pd sz (d, p) =
      let d' = (acquire gpu (wrap 32 sz.width) (wrap 32 sz.height) (set_platform_data pd d)).1 in
      if p.runtime_inited
      then (true, (d, p))
      else if d'.initialized
      then (true, (d', record p { runtime_inited = true }))
      else (false, (d', p))

  -- A surface of another generation goes.
  unfoldable pub drop_stale : Gpu → World P → World P
  drop_stale gpu (d, p) =
      let (d1, p1) = wait_and_stash gpu (d, p) in
      let (d2, s) = destroy_surface d1 p1.surface in
      if not (p.surface.generation == 0) && not (p.surface.generation == d.generation)
      then reset_readback_state (d2, record p1 { surface = s; scene_inited = false })
      else (d, p)

  -- The surface is made, or resized: whether that succeeded, and whether it is another one (`recreated`).
  unfoldable pub provide_surface : Gpu → Size → ℕ → World P → Bool × Bool × World P
  provide_surface gpu sz current_gen (d, p) =
      let w = wrap 32 sz.width in
      let h = wrap 32 sz.height in
      let (ok, (d1, s1)) = create_surface gpu w h d p.surface in
      let (d2, p2) = wait_and_stash gpu (d, p) in
      let (ok', (d3, s3)) = resize_surface gpu w h d2 p2.surface in
      if not (is_valid p.surface.framebuffer && p.surface.generation == current_gen)
      then (ok, ok, (d1, record p { surface = s1 }))
      else if size_changed sz p.surface
      then (ok', ok', (d3, record p2 { surface = s3 }))
      else (true, false, (d, p))

  -- `content` is whether one is given. `false` comes with no call of the content.
  unfoldable pub ensure_surface :
      Gpu → P → Size → Bool → World P → Bool × World P × List ContentCall × Bool
  ensure_surface gpu pd sz content w =
      let (up, w1) = start_runtime gpu pd sz w in
      let w2 = drop_stale gpu w1 in
      let changed = size_changed sz w2.1.surface in
      let (ok, recreated, w3) = provide_surface gpu sz w1.0.generation w2 in
      let (d4, p4) = if recreated then reset_readback_state w3 else w3 in
      let (p5, calls, cleared) = bind_content sz content recreated changed p4 in
      if up
      then if ok then (true, (d4, p5), calls, cleared) else (false, w3, [], false)
      else (false, w1, [], false)

  unfoldable pub drain_and_release : Gpu → World P → World P
  drain_and_release gpu w =
      let (d, p) = wait_and_stash gpu w in
      let (d', s) = destroy_surface d p.surface in
      let cleared = record p { ready_for_read = [] } in
      if p.runtime_inited
      then ((release d').1, record cleared { surface = s; runtime_inited = false })
      else (d, cleared)
