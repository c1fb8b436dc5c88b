-- ===== src/Device/Session.antt =====
-- render_device.cpp over any calls of the device: what stays as it is while bgfx runs, and what becomes of
-- the deferred closures.
use mathlib.Core.List.{Perm, append_assoc, append-nil, map-append}
use mathlib.Core.List.Perm
use qml_and_bgfx_testbridge.Prelude.{
  ℕ, ◌≤◌, ◌≡◌, refl, true, false, List, [], ◌∷◌, ◌++◌, Option, none, some, arith, Bool-cases, inl,
  inr,
}
use qml_and_bgfx_testbridge.DeleteQueue.{enqueue, collect, flush_all}
use qml_and_bgfx_testbridge.DeleteQueue.Conservation.{fns, collect-perm}
use qml_and_bgfx_testbridge.Device.Bgfx.{Gpu, frame}
use qml_and_bgfx_testbridge.Device.{
  RenderDevice, ensure_resolution_internal, do_init, acquire, release, set_platform_data,
  ensure_resolution, end_frame, defer_until_frame_retired, do_shutdown,
}

-- A call that a client makes of the device, besides those on surfaces.
pub data DeviceCall (P C : Type 0) : Type 0 where
  acquires : ℕ → ℕ → DeviceCall P C
  releases : DeviceCall P C
  sets_platform_data : P → DeviceCall P C
  ensures : ℕ → ℕ → DeviceCall P C
  ends_frame : DeviceCall P C
  defers : Option C → ℕ → DeviceCall P C

module _ {P C : Type 0} (gpu : Gpu) where
  unfoldable pub step : RenderDevice P C → DeviceCall P C → RenderDevice P C
  step d (acquires w h) = (acquire gpu w h d).1
  step d releases = (release d).1
  step d (sets_platform_data p) = set_platform_data p d
  step d (ensures w h) = (ensure_resolution w h d).1
  step d ends_frame = (end_frame gpu d).1
  step d (defers fn safe) = defer_until_frame_retired fn safe d

  unfoldable pub run : RenderDevice P C → List (DeviceCall P C) → RenderDevice P C
  run d [] = d
  run d (call ∷ calls) = run (step d call) calls

  -- What surfaces rely on: bgfx runs, in the same generation, with a back buffer that has not shrunk.
  pub record Continues (d d' : RenderDevice P C) : Type 0 where
    pub running : d'.initialized ≡ true
    pub same_generation : d'.generation ≡ d.generation
    pub no_narrower : d.backbuffer_width ≤ d'.backbuffer_width
    pub no_lower : d.backbuffer_height ≤ d'.backbuffer_height

  step-Continues :
      (d : RenderDevice P C) (call : DeviceCall P C)
      → d.initialized ≡ true
      → Continues d (step d call)
  unfolding step acquire release set_platform_data ensure_resolution end_frame
      defer_until_frame_retired ensure_resolution_internal
  step-Continues d (acquires w h) up = ground arith
  step-Continues d releases up = ground arith
  step-Continues d (sets_platform_data p) up = ground arith
  step-Continues d (ensures w h) up = ground arith
  step-Continues d ends_frame up = ground arith
  step-Continues d (defers fn safe) up = ground arith

  -- Once bgfx runs, no sequence of calls of the device stops it, starts it anew or shrinks the back buffer:
  -- also not the release of the last reference.
  pub run-Continues :
      (d : RenderDevice P C) (calls : List (DeviceCall P C))
      → d.initialized ≡ true
      → Continues d (run d calls)
  unfolding run
  run-Continues d [] up = ground arith
  run-Continues d (call ∷ calls) up =
      let now = step-Continues d call up in
      let later = run-Continues (step d call) calls now.running in ground arith

  -- The closures that a call hands in.
  abbrev pub handed : DeviceCall P C → List C
  handed (acquires w h) = []
  handed releases = []
  handed (sets_platform_data p) = []
  handed (ensures w h) = []
  handed ends_frame = []
  handed (defers none safe) = []
  handed (defers (some fn) safe) = fn ∷ []

  abbrev pub all_handed : List (DeviceCall P C) → List C
  all_handed [] = []
  all_handed (call ∷ calls) = handed call ++ all_handed calls

  -- The closures that have run and those that wait.
  abbrev pub known : RenderDevice P C → List C
  known d = d.ran ++ fns d.delete_queue

  same-known :
      (d d' : RenderDevice P C)
      → d'.ran ≡ d.ran
      → d'.delete_queue ≡ d.delete_queue
      → Perm (known d ++ []) (known d')
  same-known d d' p q = rw (append-nil, p, q) (Perm.refl _)

  ended-known :
      (d : RenderDevice P C) (id : ℕ)
      → Perm
          (known d ++ [])
          ((d.ran ++ (collect id d.delete_queue).0) ++ fns (collect id d.delete_queue).1)
  ended-known d id =
      rw (append-nil, append_assoc) (Perm.append (Perm.refl d.ran) (collect-perm id d.delete_queue))

  step-known :
      (d : RenderDevice P C) (call : DeviceCall P C)
      → Perm (known d ++ handed call) (known (step d call))
  unfolding step acquire release set_platform_data ensure_resolution end_frame
      defer_until_frame_retired ensure_resolution_internal do_init enqueue
  step-known d (acquires w h) = same-known d (step d (acquires w h)) (ground arith) (ground arith)
  step-known d releases = same-known d (step d releases) (ground arith) (ground arith)
  step-known d (sets_platform_data p) = same-known d (step d (sets_platform_data p)) refl refl
  step-known d (ensures w h) = same-known d (step d (ensures w h)) (ground arith) (ground arith)
  step-known d ends_frame = elim (Bool-cases d.initialized) [
    | inl up ↦ rw up (ended-known d (gpu.next_frame (frame ∷ d.log)))
    | inr down ↦ rw down (same-known d d refl refl)
  ]
  step-known d (defers none safe) = same-known d d refl refl
  step-known d (defers (some fn) safe) = simp (map-append, append_assoc) (Perm.refl _)

  -- Whatever the calls of the device and the answers of bgfx: the closures that have run, together with
  -- those that wait, are those of the start and those handed in since, each as often.
  pub run-known :
      (d : RenderDevice P C) (calls : List (DeviceCall P C))
      → Perm (known d ++ all_handed calls) (known (run d calls))
  unfolding run
  run-known d [] = rw append-nil (Perm.refl _)
  run-known d (call ∷ calls) = rw (← append_assoc (known d) (handed call) (all_handed calls)) (
      Perm.trans (Perm.append (step-known d call) (Perm.refl (all_handed calls)))
        (run-known (step d call) calls))

  -- At the shutdown of a running device, after any calls on it, every closure that waited at the start or
  -- was handed in since has run, each as often, together with those that had run before.
  pub do_shutdown-ran :
      (d : RenderDevice P C) (calls : List (DeviceCall P C))
      → d.initialized ≡ true
      → let end = do_shutdown (run d calls) in
        (end.initialized ≡ false)
        × (end.delete_queue ≡ [])
        × Perm (known d ++ all_handed calls) end.ran
  unfolding do_shutdown flush_all
  do_shutdown-ran d calls up =
      let on = (run-Continues d calls up).running in
      (ground arith, ground arith, rw on (run-known d calls))
