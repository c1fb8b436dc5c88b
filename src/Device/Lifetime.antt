-- ===== src/Device/Lifetime.antt =====
-- render_device.cpp, `createSurface`, `resizeSurface` and `destroySurface`: over any calls on a surface no
-- GPU resource is lost and none is destroyed twice.
use qml_and_bgfx_testbridge.Prelude.{
  ℕ, ◌+◌, ◌≡◌, refl, Bool, true, false, ◌&&◌, List, [], ◌∷◌, ◌==◌, if◌then◌else◌, arith, ap,
}
use qml_and_bgfx_testbridge.Device.Bgfx.{Gpu}
use qml_and_bgfx_testbridge.Device.Surface.{
  ViewSurface, Work, destroy_surface_resources, new_surface, refill_surface,
}
use qml_and_bgfx_testbridge.Device.Surface.Balance.{
  Resource, IsReal, made, gone, owned, destroy-Balanced, owned-destroy, owned-new_surface,
}
use qml_and_bgfx_testbridge.Device.Surface.Filling.{
  fill_surface-Balanced, owned-fill_surface, refill_surface-Balanced,
}
use qml_and_bgfx_testbridge.Device.{
  RenderDevice, ensure_resolution_internal, create_surface, resize_surface, destroy_surface,
}

-- A call on a surface.
pub data SurfaceCall : Type 0 where
  creates : ℕ → ℕ → SurfaceCall
  resizes : ℕ → ℕ → SurfaceCall
  destroys : SurfaceCall

module _ {P C : Type 0} where
  unfoldable pub step :
      Gpu → RenderDevice P C × ViewSurface → SurfaceCall → RenderDevice P C × ViewSurface
  step gpu (d, s) (creates w h) = (create_surface gpu w h d s).1
  step gpu (d, s) (resizes w h) = (resize_surface gpu w h d s).1
  step gpu (d, s) destroys = destroy_surface d s

  unfoldable pub run :
      Gpu → RenderDevice P C × ViewSurface → List SurfaceCall → RenderDevice P C × ViewSurface
  run gpu ds [] = ds
  run gpu ds (call ∷ calls) = run gpu (step gpu ds call) calls

  -- `Balanced` of a device and a surface.
  abbrev pub Kept :
      Resource → RenderDevice P C × ViewSurface → RenderDevice P C × ViewSurface → Type 0
  Kept r (d, s) (d', s') =
      made r d'.log + gone r d.log + owned r s ≡ made r d.log + gone r d'.log + owned r s'

  module _ (r : Resource) (real : IsReal r) (gpu : Gpu) where
    ensure-counts :
        (w h : ℕ) (d : RenderDevice P C)
        → let log = (ensure_resolution_internal w h d).1.log in
          (made r log ≡ made r d.log) × (gone r log ≡ gone r d.log)
    unfolding ensure_resolution_internal
    ensure-counts w h d = ground arith

    -- A branch is kept if both of its arms are.
    Kept-if :
        (b : Bool) (z : RenderDevice P C × ViewSurface)
        (x y : Bool × (RenderDevice P C × ViewSurface))
        → Kept r z x.1
        → Kept r z y.1
        → Kept r z (if b then x else y).1
    Kept-if true z x y p q = p
    Kept-if false z x y p q = q

    create-Kept :
        (w h : ℕ) (d : RenderDevice P C) (s : ViewSurface)
        → Kept r (d, s) (create_surface gpu w h d s).1
    unfolding create_surface
    create-Kept w h d s =
        let big = (ensure_resolution_internal w h d).1 in
        let start : Work = record { log = big.log; views = big.views; surface = s } in
        let bare = destroy_surface_resources false start in
        Kept-if d.initialized (d, s) _ (false, (d, s))
          (omega (
            arith,
            ensure-counts w h d,
            destroy-Balanced r real false start,
            fill_surface-Balanced r real gpu w h big.generation bare
                (owned-destroy r real false start),
          ))
          refl

    resize-Kept :
        (w h : ℕ) (d : RenderDevice P C) (s : ViewSurface)
        → Kept r (d, s) (resize_surface gpu w h d s).1
    unfolding resize_surface
    resize-Kept w h d s =
        let big = (ensure_resolution_internal w h d).1 in
        let start : Work = record { log = big.log; views = big.views; surface = s } in
        Kept-if d.initialized (d, s) _ (false, (d, s))
          (Kept-if (s.width == w && s.height == h && s.generation == big.generation) (d, s)
            (true, (big, s))
            (let (ok, made) = refill_surface gpu w h big.generation start in
              (ok, (record big { log = made.log; views = made.views }, made.surface)))
            (omega (arith, ensure-counts w h d))
            (omega (
              arith,
              ensure-counts w h d,
              refill_surface-Balanced r real gpu w h big.generation start,
            )))
          refl

    destroy-Kept : (d : RenderDevice P C) (s : ViewSurface) → Kept r (d, s) (destroy_surface d s)
    unfolding destroy_surface
    destroy-Kept d s =
        destroy-Balanced r real true (record { log = d.log; views = d.views; surface = s })

    step-Kept :
        (z : RenderDevice P C × ViewSurface) (call : SurfaceCall) → Kept r z (step gpu z call)
    unfolding step
    step-Kept (d, s) (creates w h) = create-Kept w h d s
    step-Kept (d, s) (resizes w h) = resize-Kept w h d s
    step-Kept (d, s) destroys = destroy-Kept d s

    -- For every resource that bgfx can give out and whatever bgfx answers: over any calls on a surface, what
    -- was made and not yet destroyed, together with what the surface held at first, is what the surface
    -- holds at the end.
    pub run-Kept :
        (z : RenderDevice P C × ViewSurface) (calls : List SurfaceCall) → Kept r z (run gpu z calls)
    unfolding run
    run-Kept z [] = refl
    run-Kept z (call ∷ calls) = omega (arith, step-Kept z call, run-Kept (step gpu z call) calls)

    -- From a device that has made no call and a new surface: once any calls on the surface are followed by
    -- `destroySurface`, each resource has been destroyed as often as it was made.
    pub destroyed_in_full :
        (d : RenderDevice P C) (calls : List SurfaceCall)
        → d.log ≡ []
        → let (d', s) = run gpu (d, new_surface) calls in
          made r (destroy_surface d' s).0.log ≡ gone r (destroy_surface d' s).0.log
    unfolding destroy_surface
    destroyed_in_full d calls fresh =
        let (d', s) = run gpu (d, new_surface) calls in
        omega (
          arith,
          run-Kept (d, new_surface) calls,
          destroy-Kept d' s,
          owned-destroy r real true (record { log = d'.log; views = d'.views; surface = s }),
          owned-new_surface r real,
          ap (made r) fresh,
          ap (gone r) fresh,
        )

    -- A creation that fails on a running device leaves a surface that holds nothing.
    pub owned-create_surface :
        (w h : ℕ) (d : RenderDevice P C) (s : ViewSurface)
        → d.initialized ≡ true
        → (create_surface gpu w h d s).0 ≡ false
        → owned r (create_surface gpu w h d s).1.1 ≡ 0
    unfolding create_surface
    owned-create_surface w h d s up failed =
        let big = (ensure_resolution_internal w h d).1 in
        let start : Work = record { log = big.log; views = big.views; surface = s } in
        outcome d.initialized _ up failed
          (owned-fill_surface r real gpu w h big.generation (destroy_surface_resources false start))
      where
        outcome :
            (running : Bool) (x : Bool × (RenderDevice P C × ViewSurface))
            → running ≡ true
            → (if running then x else (false, (d, s))).0 ≡ false
            → (x.0 ≡ false → owned r x.1.1 ≡ 0)
            → owned r (if running then x else (false, (d, s))).1.1 ≡ 0
        outcome true x e f empty = empty f
        outcome false x e f empty = cc
