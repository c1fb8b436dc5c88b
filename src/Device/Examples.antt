-- ===== src/Device/Examples.antt =====
-- Tests of render_device.cpp, and its theorems at inputs.
use mathlib.Core.List.{Perm}
use qml_and_bgfx_testbridge.Device.LastView.{create_surface_last_view}
use qml_and_bgfx_testbridge.Prelude.{
  ℕ, zero, suc, ◌≡◌, ◌≢◌, refl, true, false, List, [], ◌∷◌, some, arith, length, replicate,
}
use qml_and_bgfx_testbridge.Device.Bgfx.{Gpu}
use qml_and_bgfx_testbridge.Device.ViewIds.{Views, contains, allocate_view_id, free_view_id, erase}
use qml_and_bgfx_testbridge.Device.Surface.{
  new_surface, destroy_surface_resources, create_surface_resources, fill_surface, destroy_handles,
}
use qml_and_bgfx_testbridge.Device.Surface.Balance.{texture, made, gone}
use qml_and_bgfx_testbridge.Device.{
  RenderDevice, ensure_resolution_internal, create_surface, destroy_surface, do_shutdown,
}
use qml_and_bgfx_testbridge.Device.Lifetime
use qml_and_bgfx_testbridge.Device.Lifetime.{
  SurfaceCall, creates, resizes, destroys, Kept, run-Kept, destroyed_in_full, owned-create_surface,
}
use qml_and_bgfx_testbridge.Device.Session
use qml_and_bgfx_testbridge.Device.Session.{
  DeviceCall, acquires, releases, ends_frame, defers, Continues, known, all_handed, run-Continues,
  run-known, do_shutdown-ran,
}

-- A bgfx whose handles and frames count its calls.
abbrev counting_gpu : Gpu
counting_gpu = record {
  new_texture = λ log. length log;
  new_frame_buffer = λ log. length log;
  init_ok = λ log. true;
  next_frame = λ log. length log;
  read_frame = λ log. length log;
  read_bytes = λ log n. replicate n 7;
}

-- One that has no frame buffer to give.
abbrev poor_gpu : Gpu
poor_gpu = record counting_gpu { new_frame_buffer = λ log. 0xffff }

abbrev running : RenderDevice ℕ ℕ
running = record {
  initialized = true;
  ref_count = 1;
  generation = 1;
  last_frame_id = 0;
  backbuffer_width = 64;
  backbuffer_height = 64;
  views = record { used = []; next = 0 };
  platform_data = 0;
  delete_queue = [];
  log = [];
  ran = [];
}

abbrev crowded : Views
crowded = record { used = 0 ∷ 1 ∷ 255 ∷ []; next = 255 }

next_is_two : (allocate_view_id crowded).0 ≡ 2
unfolding allocate_view_id contains
next_is_two = refl

abbrev surface_calls : List SurfaceCall
surface_calls = creates 32 32 ∷ resizes 100 50 ∷ destroys ∷ creates 8 8 ∷ []

real_texture : ◌≢◌ {A = ℕ} 2 0xffff
real_texture = omega arith

run-Kept_example :
    Kept
      (texture 2)
      (running, new_surface)
      (Lifetime.run counting_gpu (running, new_surface) surface_calls)
run-Kept_example =
    run-Kept (texture 2) real_texture counting_gpu (running, new_surface) surface_calls

destroyed_in_full_example :
    let (d, s) = Lifetime.run counting_gpu (running, new_surface) surface_calls in
    made (texture 2) (destroy_surface d s).0.log ≡ gone (texture 2) (destroy_surface d s).0.log
destroyed_in_full_example =
    destroyed_in_full (texture 2) real_texture counting_gpu running surface_calls refl

poor_creation_fails : (create_surface poor_gpu 32 32 running new_surface).0 ≡ false
unfolding create_surface fill_surface create_surface_resources allocate_view_id contains
    destroy_surface_resources ensure_resolution_internal destroy_handles new_surface
poor_creation_fails = refl

abbrev late : RenderDevice ℕ ℕ
late = record running { views = record { used = 4 ∷ 5 ∷ []; next = 254 } }

-- Surfaces that are created and destroyed one after the other.
turns : ℕ → Views → Views
turns zero views = views
turns (suc n) views =
    let (render, views') = allocate_view_id views in
    let (blit, views'') = allocate_view_id views' in
    turns n (free_view_id blit (free_view_id render views''))

-- After 124 of them, from the three first on, the search stands at 254.
turns-late :
    turns 124 (record { used = 4 ∷ 5 ∷ []; next = 6 }) ≡ record { used = 4 ∷ 5 ∷ []; next = 254 }
unfolding turns allocate_view_id contains free_view_id erase
turns-late = refl

abbrev device_calls : List (DeviceCall ℕ ℕ)
device_calls = defers (some 7) 3 ∷ releases ∷ acquires 80 20 ∷ ends_frame ∷ []

do_shutdown-ran_example :
    let end = do_shutdown (Session.run counting_gpu running device_calls) in
    (end.initialized ≡ false) × (end.delete_queue ≡ []) × Perm (7 ∷ []) end.ran
do_shutdown-ran_example = do_shutdown-ran counting_gpu running device_calls refl

create_surface_last_view_example :
    ((create_surface counting_gpu 32 32 late new_surface).0 ≡ false)
    × (contains 255 (create_surface counting_gpu 32 32 late new_surface).1.0.views.used ≡ true)
unfolding contains
create_surface_last_view_example =
    create_surface_last_view counting_gpu 32 32 late new_surface refl refl refl refl
