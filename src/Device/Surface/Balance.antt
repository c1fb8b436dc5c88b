-- ===== src/Device/Surface/Balance.antt =====
-- render_device.cpp, `createSurfaceResources` and `destroySurfaceResources`: no GPU resource is lost.
-- The calls to bgfx are counted: how often a handle was made, and how often it was destroyed.
use qml_and_bgfx_testbridge.Prelude.{
  ℕ, ◌+◌, ◌≡◌, ◌≢◌, inl, inr, Bool, true, false, List, [], ◌∷◌, ◌==◌, if◌then◌else◌, arith,
  Bool-cases,
}
use qml_and_bgfx_testbridge.Device.Bgfx.{
  GpuCall, create_texture, create_frame_buffer, destroy_texture, destroy_frame_buffer,
  invalid_handle, is_valid,
}
use qml_and_bgfx_testbridge.Device.Surface.{
  ViewSurface, Work, new_surface, destroy_readbacks, destroy_handles, destroy_surface_resources,
}

pub data Resource : Type 0 where
  texture : ℕ → Resource
  frame_buffer : ℕ → Resource

-- The handle is one that bgfx can give out.
abbrev pub IsReal : Resource → Type 0
IsReal (texture h) = h ≢ invalid_handle
IsReal (frame_buffer h) = h ≢ invalid_handle

-- 1 for the same resource, and 0 for another.
unfoldable pub hit : Resource → Resource → ℕ
hit (texture j) (texture k) = if j == k then 1 else 0
hit (frame_buffer j) (frame_buffer k) = if j == k then 1 else 0
hit (texture j) (frame_buffer k) = 0
hit (frame_buffer j) (texture k) = 0

module _ (r : Resource) where
  abbrev pub born : GpuCall → ℕ
  born (create_texture w h format made) = hit r (texture made)
  born (create_frame_buffer color depth made) = hit r (frame_buffer made)
  born _ = 0

  abbrev pub died : GpuCall → ℕ
  died (destroy_texture h) = hit r (texture h)
  died (destroy_frame_buffer h) = hit r (frame_buffer h)
  died _ = 0

  -- How often a resource was made and destroyed by the calls.
  abbrev pub made : List GpuCall → ℕ
  made [] = 0
  made (call ∷ log) = born call + made log

  abbrev pub gone : List GpuCall → ℕ
  gone [] = 0
  gone (call ∷ log) = died call + gone log

  abbrev pub hits : List ℕ → ℕ
  hits [] = 0
  hits (h ∷ hs) = hit r (texture h) + hits hs

  -- How often a surface holds it.
  abbrev pub owned : ViewSurface → ℕ
  owned s =
      hit r (frame_buffer s.framebuffer)
      + hit r (texture s.color_tex)
      + hit r (texture s.depth_tex)
      + hits s.readback_tex

  -- What is made and not destroyed lies in the surface, before as after.
  abbrev pub Balanced : Work → Work → Type 0
  Balanced w w' =
      made w'.log + gone w.log + owned w.surface ≡ made w.log + gone w'.log + owned w'.surface

pub hit-invalid :
    (r : Resource)
    → IsReal r
    → (hit r (texture invalid_handle) ≡ 0) × (hit r (frame_buffer invalid_handle) ≡ 0)
unfolding hit
hit-invalid (texture h) real = ground arith
hit-invalid (frame_buffer h) real = ground arith

module _ (r : Resource) (real : IsReal r) where
  hit-texture_of_invalid : (h : ℕ) → is_valid h ≡ false → hit r (texture h) ≡ 0
  hit-texture_of_invalid h e =
      let same : h ≡ invalid_handle = ground arith in rw same ((hit-invalid r real).0)

  hit-frame_buffer_of_invalid : (h : ℕ) → is_valid h ≡ false → hit r (frame_buffer h) ≡ 0
  hit-frame_buffer_of_invalid h e =
      let same : h ≡ invalid_handle = ground arith in rw same ((hit-invalid r real).1)

  destroy_readbacks-counts :
      (hs : List ℕ) (log : List GpuCall)
      → (made r (destroy_readbacks hs log) ≡ made r log)
        × (gone r (destroy_readbacks hs log) ≡ gone r log + hits r hs)
  unfolding destroy_readbacks
  destroy_readbacks-counts [] log = omega arith
  destroy_readbacks-counts (h ∷ hs) log = elim (Bool-cases (is_valid h)) [
    | inl valid ↦ rw valid (omega (arith, destroy_readbacks-counts hs (destroy_texture h ∷ log)))
    | inr invalid ↦
        rw invalid
          (omega (arith, destroy_readbacks-counts hs log, hit-texture_of_invalid h invalid))
  ]

  -- A valid handle is destroyed, and an invalid one counts for nothing.
  destroy_texture-counts :
      (h : ℕ) (log : List GpuCall)
      → let log' = if is_valid h then destroy_texture h ∷ log else log in
        (made r log' ≡ made r log) × (gone r log' ≡ gone r log + hit r (texture h))
  destroy_texture-counts h log = elim (Bool-cases (is_valid h)) [
    | inl valid ↦ rw valid (omega arith)
    | inr invalid ↦ rw invalid (omega (arith, hit-texture_of_invalid h invalid))
  ]

  destroy_frame_buffer-counts :
      (h : ℕ) (log : List GpuCall)
      → let log' = if is_valid h then destroy_frame_buffer h ∷ log else log in
        (made r log' ≡ made r log) × (gone r log' ≡ gone r log + hit r (frame_buffer h))
  destroy_frame_buffer-counts h log = elim (Bool-cases (is_valid h)) [
    | inl valid ↦ rw valid (omega arith)
    | inr invalid ↦ rw invalid (omega (arith, hit-frame_buffer_of_invalid h invalid))
  ]

  destroy_handles-counts :
      (s : ViewSurface) (log : List GpuCall)
      → (made r (destroy_handles s log) ≡ made r log)
        × (gone r (destroy_handles s log) ≡ gone r log + owned r s)
  unfolding destroy_handles
  destroy_handles-counts s log =
      let log1 = if is_valid s.framebuffer then destroy_frame_buffer s.framebuffer ∷ log else log in
      let log2 = if is_valid s.color_tex then destroy_texture s.color_tex ∷ log1 else log1 in
      let log3 = if is_valid s.depth_tex then destroy_texture s.depth_tex ∷ log2 else log2 in
      omega (
        arith,
        destroy_frame_buffer-counts s.framebuffer log,
        destroy_texture-counts s.color_tex log1,
        destroy_texture-counts s.depth_tex log2,
        destroy_readbacks-counts s.readback_tex log3,
      )

  pub owned-destroy :
      (views : Bool) (w : Work) → owned r (destroy_surface_resources views w).surface ≡ 0
  unfolding destroy_surface_resources
  owned-destroy true w = omega (arith, hit-invalid r real)
  owned-destroy false w = omega (arith, hit-invalid r real)

  pub destroy-Balanced :
      (views : Bool) (w : Work) → Balanced r w (destroy_surface_resources views w)
  unfolding destroy_surface_resources
  destroy-Balanced true w =
      omega (arith, destroy_handles-counts w.surface w.log, hit-invalid r real)
  destroy-Balanced false w =
      omega (arith, destroy_handles-counts w.surface w.log, hit-invalid r real)

  -- Two steps in a row.
  pub Balanced-trans : (u v w : Work) → Balanced r u v → Balanced r v w → Balanced r u w
  Balanced-trans u v w p q = omega arith

  pub owned-new_surface : owned r new_surface ≡ 0
  unfolding new_surface
  owned-new_surface = omega (arith, hit-invalid r real)
