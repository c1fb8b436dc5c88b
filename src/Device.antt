-- ===== src/Device.antt =====
-- src/engine/terrain/render_device.h and .cpp, `RenderDevice`: the shared bgfx device, its view ids and
-- the offscreen surfaces made on it. bgfx itself is the parameter `Gpu`: each of its answers may depend
-- on all calls made before, which the device's state lists, newest first. `lock_guard` makes each
-- operation one step. The type P is bgfx's platform data, and C that of the deferred closures.
pub mod Bgfx
pub mod ViewIds
pub mod Surface
pub mod Lifetime
pub mod LastView
pub mod Session
mod Examples
use qml_and_bgfx_testbridge.Prelude.{
  ℕ, suc, ◌+◌, ◌-◌, ◌%◌, ◌^◌, max, Bool, true, false, ◌&&◌, ◌||◌, List, [], ◌∷◌, ◌++◌, ◌==◌, leb,
  if◌then◌else◌, Option,
}
use qml_and_bgfx_testbridge.DeleteQueue.{Item, enqueue, collect, flush_all}
use Bgfx.{Gpu, GpuCall, reset, render_frame, init, frame, shutdown}
use ViewIds.{Views}
use Surface.{ViewSurface, Work, destroy_surface_resources, fill_surface, refill_surface, u16}

pub record RenderDevice (P C : Type 0) : Type 0 where
  pub initialized : Bool
  pub ref_count : ℕ
  pub generation : ℕ
  pub last_frame_id : ℕ
  pub backbuffer_width : ℕ
  pub backbuffer_height : ℕ
  pub views : Views
  pub platform_data : P
  pub delete_queue : List (Item C)
  pub log : List GpuCall
  -- The deferred closures that have run, oldest first.
  pub ran : List C

module _ {P C : Type 0} where
  unfoldable pub new_device : P → RenderDevice P C
  new_device p = record {
    initialized = false;
    ref_count = 0;
    generation = 0;
    last_frame_id = 0;
    backbuffer_width = 0;
    backbuffer_height = 0;
    views = record { used = []; next = 0 };
    platform_data = p;
    delete_queue = [];
    log = [];
    ran = [];
  }

  unfoldable pub ensure_resolution_internal : ℕ → ℕ → RenderDevice P C → Bool × RenderDevice P C
  ensure_resolution_internal w h d =
      let new_w = max 1 (max w d.backbuffer_width) in
      let new_h = max 1 (max h d.backbuffer_height) in
      if new_w == d.backbuffer_width && new_h == d.backbuffer_height then (false, d) else (
        true,
        record d {
          backbuffer_width = new_w;
          backbuffer_height = new_h;
          log = reset (u16 new_w) (u16 new_h) ∷ d.log;
        },
      )

  -- `probeRenderCaps` at the end is another component: the module Caps.
  unfoldable pub do_init : Gpu → ℕ → ℕ → RenderDevice P C → Bool × RenderDevice P C
  do_init gpu w h d =
      let width = max 1 w in
      let height = max 1 h in
      let asked = record d {
        backbuffer_width = width;
        backbuffer_height = height;
        views = record { used = []; next = 0 };
        log = init width height ∷ render_frame ∷ d.log;
      } in
      if d.initialized
      then (false, d)
      else if gpu.init_ok asked.log
      then (true, record asked { initialized = true; generation = (d.generation + 1) % 2 ^ 64 })
      else (false, asked)

  unfoldable pub acquire : Gpu → ℕ → ℕ → RenderDevice P C → Bool × RenderDevice P C
  acquire gpu w h d =
      let held = record d { ref_count = suc d.ref_count } in
      if d.initialized
      then (false, (ensure_resolution_internal w h held).1)
      else do_init gpu w h held

  unfoldable pub release : RenderDevice P C → Bool × RenderDevice P C
  release d =
      let dropped = record d { ref_count = d.ref_count - 1 } in
      if leb d.ref_count 0 then (false, d) else (dropped.ref_count == 0 && d.initialized, dropped)

  unfoldable pub set_platform_data : P → RenderDevice P C → RenderDevice P C
  set_platform_data p d = record d { platform_data = p }

  unfoldable pub ensure_resolution : ℕ → ℕ → RenderDevice P C → Bool × RenderDevice P C
  ensure_resolution w h d = if d.initialized then ensure_resolution_internal w h d else (false, d)

  abbrev work : RenderDevice P C → ViewSurface → Work
  work d s = record { log = d.log; views = d.views; surface = s }

  abbrev put : RenderDevice P C → Work → RenderDevice P C × ViewSurface
  put d w = (record d { log = w.log; views = w.views }, w.surface)

  unfoldable pub create_surface :
      Gpu → ℕ → ℕ → RenderDevice P C → ViewSurface → Bool × (RenderDevice P C × ViewSurface)
  create_surface gpu w h d s =
      let big = (ensure_resolution_internal w h d).1 in
      let (ok, made) =
        fill_surface gpu w h big.generation (destroy_surface_resources false (work big s)) in
      if d.initialized then (ok, put big made) else (false, (d, s))

  unfoldable pub resize_surface :
      Gpu → ℕ → ℕ → RenderDevice P C → ViewSurface → Bool × (RenderDevice P C × ViewSurface)
  resize_surface gpu w h d s =
      let big = (ensure_resolution_internal w h d).1 in
      let (ok, made) = refill_surface gpu w h big.generation (work big s) in
      if d.initialized
      then if s.width == w && s.height == h && s.generation == big.generation
        then (true, (big, s))
        else (ok, put big made)
      else (false, (d, s))

  unfoldable pub destroy_surface : RenderDevice P C → ViewSurface → RenderDevice P C × ViewSurface
  destroy_surface d s = put d (destroy_surface_resources true (work d s))

  unfoldable pub end_frame : Gpu → RenderDevice P C → ℕ × RenderDevice P C
  end_frame gpu d =
      let id = gpu.next_frame (frame ∷ d.log) in
      let (ready, pending) = collect id d.delete_queue in
      if d.initialized
      then (
        id,
        record d {
          last_frame_id = id;
          delete_queue = pending;
          ran = d.ran ++ ready;
          log = frame ∷ d.log;
        },
      )
      else (0, d)

  unfoldable pub defer_until_frame_retired : Option C → ℕ → RenderDevice P C → RenderDevice P C
  defer_until_frame_retired fn safe d = record d { delete_queue = enqueue fn safe d.delete_queue }

  unfoldable pub do_shutdown : RenderDevice P C → RenderDevice P C
  do_shutdown d =
      let (ready, pending) = flush_all d.delete_queue in
      if d.initialized
      then record d {
        views = record { used = []; next = 0 };
        delete_queue = pending;
        ran = d.ran ++ ready;
        log = shutdown ∷ d.log;
        initialized = false;
        backbuffer_width = 0;
        backbuffer_height = 0;
      }
      else d
