-- ===== src/Device/LastView.antt =====
-- render_device.cpp, `createSurface` at the end of the view ids: 255 stands for "no view", and
-- `allocateViewId` gives it out.
use qml_and_bgfx_testbridge.Prelude.{
  ℕ, ◌%◌, ◌+◌, ◌<◌, ◌≡◌, refl, Bool, true, false, ◌∷◌, if◌then◌else◌, arith, ap, ◌∙◌,
}
use qml_and_bgfx_testbridge.Device.Bgfx.{Gpu}
use qml_and_bgfx_testbridge.Device.ViewIds.{Views, contains, allocate_view_id, free_view_id}
use qml_and_bgfx_testbridge.Device.ViewIds.Allocation.{contains-free_view_id}
use qml_and_bgfx_testbridge.Device.Surface.{
  ViewSurface, Work, destroy_surface_resources, fill_surface,
}
use qml_and_bgfx_testbridge.Device.{RenderDevice, ensure_resolution_internal, create_surface}

-- The search finds the id it stands at, if that is free.
allocate_here :
    (n : ℕ) (views : Views)
    → views.next ≡ n
    → n < 256
    → contains n views.used ≡ false
    → allocate_view_id views ≡ (n, record { used = n ∷ views.used; next = (n + 1) % 256 })
unfolding allocate_view_id
allocate_here n views last small free =
    let candidate : (views.next + 0) % 256 ≡ n = omega arith in rw candidate (rw free refl)

-- The two last ids are taken one after the other.
contains-last :
    (views : Views) → contains 255 views.used ≡ false → contains 255 (254 ∷ views.used) ≡ false
unfolding contains
contains-last views free = free

-- Freeing the ids of a surface never frees 255.
contains-destroy :
    (w : Work)
    → contains 255 w.views.used ≡ true
    → contains 255 (destroy_surface_resources true w).views.used ≡ true
unfolding destroy_surface_resources
contains-destroy w taken = ground (
  arith,
  contains-free_view_id 255 w.surface.render_view_id w.views,
  contains-free_view_id 255 w.surface.blit_view_id (free_view_id w.surface.render_view_id w.views),
)

module _ (gpu : Gpu) (w h gen : ℕ) (start : Work) where
  fill_last :
      start.views.next ≡ 254
      → contains 254 start.views.used ≡ false
      → contains 255 start.views.used ≡ false
      → ((fill_surface gpu w h gen start).0 ≡ false)
        × (contains 255 (fill_surface gpu w h gen start).1.views.used ≡ true)
  unfolding fill_surface
  fill_last last free free' =
      let between : Views = record { used = 254 ∷ start.views.used; next = 255 } in
      rw
        (
          allocate_here 254 start.views last (omega arith) free,
          allocate_here 255 between refl (omega arith) (contains-last start.views free'),
        )
        (refl, contains-destroy _ (unfold contains in refl))

views-ensure :
    {P C : Type 0} (w h : ℕ) (d : RenderDevice P C)
    → (ensure_resolution_internal w h d).1.views ≡ d.views
unfolding ensure_resolution_internal
views-ensure w h d = ground arith

-- When the search for view ids stands at 254 and both 254 and 255 are free, `createSurface` on a running device takes 255
-- for the blits and fails, whatever other ids are free and whatever bgfx answers, and 255 stays in use without an owner.
pub create_surface_last_view :
    {P C : Type 0} (gpu : Gpu) (w h : ℕ) (d : RenderDevice P C) (s : ViewSurface)
    → d.initialized ≡ true
    → d.views.next ≡ 254
    → contains 254 d.views.used ≡ false
    → contains 255 d.views.used ≡ false
    → ((create_surface gpu w h d s).0 ≡ false)
      × (contains 255 (create_surface gpu w h d s).1.0.views.used ≡ true)
unfolding create_surface destroy_surface_resources
create_surface_last_view {P} {C} gpu w h d s up last free free' =
    let big = (ensure_resolution_internal w h d).1 in
    let start : Work = record { log = big.log; views = big.views; surface = s } in
    let same = views-ensure w h d in
    outcome d.initialized _ up (
      fill_last gpu w h big.generation (destroy_surface_resources false start)
        (ap (λ v. v.next) same ∙ last) (ap (λ v. contains 254 v.used) same ∙ free)
        (ap (λ v. contains 255 v.used) same ∙ free'))
  where
    outcome :
        (running : Bool) (x : Bool × (RenderDevice P C × ViewSurface))
        → running ≡ true
        → (x.0 ≡ false) × (contains 255 x.1.0.views.used ≡ true)
        → ((if running then x else (false, (d, s))).0 ≡ false)
          × (contains 255 (if running then x else (false, (d, s))).1.0.views.used ≡ true)
    outcome true x e claim = claim
    outcome false x e claim = cc
