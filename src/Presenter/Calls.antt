-- ===== src/Presenter/Calls.antt =====
-- readback_presenter.cpp over any calls: a slot of the ring never has two users.
use qml_and_bgfx_testbridge.Prelude.{
  ℕ, zero, suc, ◌+◌, ◌-◌, ◌%◌, ◌≤◌, ◌≡◌, refl, Bool, true, false, List, [], ◌∷◌, Option, some,
  if◌then◌else◌, arith, get_or, Bool-cases, inl, inr,
}
use qml_and_bgfx_testbridge.Device.Bgfx.{Gpu}
use qml_and_bgfx_testbridge.Device.Surface.{readback_buffer_count}
use qml_and_bgfx_testbridge.Presenter.State.{
  Size, ReadbackPresenter, World, reset_readback_state, wait_and_stash, wait_for_pending_readbacks,
}
use qml_and_bgfx_testbridge.Presenter.Lifecycle.{
  start_runtime, drop_stale, provide_surface, bind_content, ensure_surface, drain_and_release,
  size_changed,
}
use qml_and_bgfx_testbridge.Presenter.Ring.{
  process_completed_readbacks, schedule_readbacks_from_queue, free_slot, blit_for_readback,
  finish_frame, bump_frame_index,
}
use qml_and_bgfx_testbridge.Presenter.Slots.{
  holders, flag_at, Tracked, process-Tracked, schedule-Tracked, blit_into-Tracked,
}

-- A call within a frame, and any call.
pub data FrameCall : Type 0 where
  processes : Bool → Bool → Option (Size × ℕ) → FrameCall
  schedules : FrameCall
  blits : Size → FrameCall
  ends : FrameCall
  bumps : FrameCall

pub data Call (P : Type 0) : Type 0 where
  in_frame : FrameCall → Call P
  ensures : P → Size → Bool → Call P
  drains : Call P

-- The slot that the search gives is free.
pub free_slot-free :
    (left i next : ℕ) (in_use : List Bool) (dst : ℕ)
    → free_slot left i next in_use ≡ some dst
    → get_or in_use dst true ≡ false
unfolding free_slot
free_slot-free zero i next in_use dst e = ground arith
free_slot-free (suc left) i next in_use dst e =
    let ih = free_slot-free left (suc i) next in_use dst in
    elim (Bool-cases (get_or in_use ((next + i) % readback_buffer_count) true)) [
      | inl taken ↦ ih (rw taken at e)
      | inr free ↦ cc
    ]

-- Each flag is set just when one blit or read holds its slot.
abbrev pub Exact : ReadbackPresenter → Type 0
Exact p = (i : ℕ) → holders i p ≡ flag_at i p

-- A slot that is held is flagged, and held once.
abbrev pub Exclusive : ReadbackPresenter → Type 0
Exclusive p = (i : ℕ) → holders i p ≤ flag_at i p

bind-Exclusive :
    (sz : Size) (content recreated changed : Bool) (p : ReadbackPresenter)
    → Exclusive p
    → Exclusive (bind_content sz content recreated changed p).0
unfolding bind_content
bind-Exclusive sz content recreated changed p h i = let now = h i in ground arith

module _ {P : Type 0} (gpu : Gpu) where
  unfoldable pub frame_step : World P → FrameCall → World P
  frame_step (d, p) (processes gl flip fbo) = (d, (process_completed_readbacks gl flip fbo p).0)
  frame_step w schedules = schedule_readbacks_from_queue gpu w
  frame_step w (blits sz) = blit_for_readback sz w
  frame_step w ends = (finish_frame gpu w).1
  frame_step (d, p) bumps = (d, bump_frame_index p)

  unfoldable pub step : World P → Call P → World P
  step w (in_frame call) = frame_step w call
  step w (ensures pd sz content) = (ensure_surface gpu pd sz content w).1
  step w drains = drain_and_release gpu w

  unfoldable pub run_frame : World P → List FrameCall → World P
  run_frame w [] = w
  run_frame w (call ∷ calls) = run_frame (frame_step w call) calls

  unfoldable pub run : World P → List (Call P) → World P
  run w [] = w
  run w (call ∷ calls) = run (step w call) calls

  frame_step-Tracked :
      (lost : ℕ → ℕ) (w : World P) (call : FrameCall)
      → Tracked lost w.1
      → Tracked lost (frame_step w call).1
  unfolding frame_step finish_frame bump_frame_index blit_for_readback
  frame_step-Tracked lost (d, p) (processes gl flip fbo) h = process-Tracked lost gl flip fbo p h
  frame_step-Tracked lost w schedules h = schedule-Tracked lost gpu w h
  frame_step-Tracked lost (d, p) (blits sz) h =
      blit_into-Tracked lost sz _ (d, p)
        (free_slot-free readback_buffer_count 0 p.next_readback_index p.readback_in_use) h
  frame_step-Tracked lost (d, p) ends h = h
  frame_step-Tracked lost (d, p) bumps h = h

  frame_step-Exclusive :
      (w : World P) (call : FrameCall) → Exclusive w.1 → Exclusive (frame_step w call).1
  frame_step-Exclusive w call h i =
      let spare : ℕ → ℕ = λ j. flag_at j w.1 - holders j w.1 in
      omega (arith, frame_step-Tracked spare w call (λ j. omega (arith, h j)) i)

  -- Within frames: if each flag is set just when one queued blit or pending read holds its slot, then this
  -- stays so over any calls of a frame, so that every slot comes free again.
  pub run_frame-Exact :
      (w : World P) (calls : List FrameCall) → Exact w.1 → Exact (run_frame w calls).1
  unfolding run_frame
  run_frame-Exact w [] h = h
  run_frame-Exact w (call ∷ calls) h =
      run_frame-Exact (frame_step w call) calls
        (λ i. omega (arith, frame_step-Tracked (λ j. 0) w call (λ j. omega (arith, h j)) i))

  reset-Exact : (w : World P) → Exact (reset_readback_state w).1
  unfolding reset_readback_state
  reset-Exact (d, p) zero = refl
  reset-Exact (d, p) (suc zero) = refl
  reset-Exact (d, p) (suc (suc zero)) = refl
  reset-Exact (d, p) (suc (suc (suc i))) = refl

  -- The waiting gives reads away, and leaves the queue and the flags.
  stash-Exclusive : (w : World P) → Exclusive w.1 → Exclusive (wait_and_stash gpu w).1
  unfolding wait_and_stash wait_for_pending_readbacks
  stash-Exclusive (d, p) h i = let now = h i in ground arith

  -- A branch is exclusive if both of its arms are.
  Exclusive-if :
      (b : Bool) (x y : World P) → Exclusive x.1 → Exclusive y.1 → Exclusive (if b then x else y).1
  Exclusive-if true x y h k = h
  Exclusive-if false x y h k = k

  reset-Exclusive : (w : World P) → Exclusive (reset_readback_state w).1
  reset-Exclusive w i = omega (arith, reset-Exact w i)

  drop-Exclusive : (w : World P) → Exclusive w.1 → Exclusive (drop_stale gpu w).1
  unfolding drop_stale
  drop-Exclusive (d, p) h = Exclusive-if _ _ (d, p) (reset-Exclusive _) h

  provide-Exclusive :
      (sz : Size) (gen : ℕ) (w : World P)
      → Exclusive w.1
      → Exclusive (provide_surface gpu sz gen w).2.1
  unfolding provide_surface
  provide-Exclusive sz gen (d, p) h i =
      let now = h i in let less = stash-Exclusive (d, p) h i in ground arith

  start-Exclusive :
      (pd : P) (sz : Size) (w : World P) → Exclusive w.1 → Exclusive (start_runtime gpu pd sz w).1.1
  unfolding start_runtime
  start-Exclusive pd sz (d, p) h i = let now = h i in ground arith

  ensure-Exclusive :
      (pd : P) (sz : Size) (content : Bool) (w : World P)
      → Exclusive w.1
      → Exclusive (ensure_surface gpu pd sz content w).1.1
  unfolding ensure_surface
  ensure-Exclusive pd sz content w h =
      let w1 = (start_runtime gpu pd sz w).1 in
      let w2 = drop_stale gpu w1 in
      let made = provide_surface gpu sz w1.0.generation w2 in
      let h1 = start-Exclusive pd sz w h in
      let h3 = provide-Exclusive sz w1.0.generation w2 (drop-Exclusive w1 h1) in
      let w4 : World P = if made.1 then reset_readback_state made.2 else made.2 in
      let h4 = Exclusive-if made.1 _ made.2 (reset-Exclusive made.2) h3 in
      let changed = size_changed sz w2.1.surface in
      let h5 = bind-Exclusive sz content made.1 changed w4.1 h4 in
      λ i. let a = h1 i in let b = h3 i in let c = h5 i in ground arith

  drain-Exclusive : (w : World P) → Exclusive w.1 → Exclusive (drain_and_release gpu w).1
  unfolding drain_and_release
  drain-Exclusive w h i = let less = stash-Exclusive w h i in ground arith

  -- From any state in which it holds, and over any calls of the presenter, whatever bgfx answers and whether
  -- the calls succeed: a slot that a queued blit or a pending read holds is flagged as in use, and it is held
  -- once.
  pub run-Exclusive :
      (w : World P) (calls : List (Call P)) → Exclusive w.1 → Exclusive (run w calls).1
  unfolding run step
  run-Exclusive w [] h = h
  run-Exclusive w (in_frame call ∷ calls) h =
      run-Exclusive (frame_step w call) calls (frame_step-Exclusive w call h)
  run-Exclusive w (ensures pd sz content ∷ calls) h =
      run-Exclusive _ calls (ensure-Exclusive pd sz content w h)
  run-Exclusive w (drains ∷ calls) h = run-Exclusive _ calls (drain-Exclusive w h)
