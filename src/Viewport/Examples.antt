-- ===== src/Viewport/Examples.antt =====
-- Tests of render_viewport_item.cpp, and its theorems at inputs.
use qml_and_bgfx_testbridge.Prelude.{
  ℕ, ◌+◌, ◌-◌, ◌*◌, ◌≡◌, refl, true, false, ◌&&◌, [], ◌∷◌, none, some, ltb, leb, ◌==◌,
}
use qml_and_bgfx_testbridge.Viewport.{Values, new_item}
use qml_and_bgfx_testbridge.Viewport.Frames.{Frame, Renderer, render}
use qml_and_bgfx_testbridge.Viewport.Frames.Settling.{asks, is_drawn, has_reason, render-asks}
use qml_and_bgfx_testbridge.Viewport.Mouse.{
  left, Distances, MouseEvent, Mouse, handles_press, handles_move, is_far,
}
use qml_and_bgfx_testbridge.Viewport.Mouse.Gesture.{
  HoldsLeft, drag, gesture, outcome, gesture-Outcome,
}
use qml_and_bgfx_testbridge.Viewport.Sync.LastTold.{
  sets_heightfield_source, sets_rotation, sets_overlays, syncs, run, sync, start, WasTold,
  run-WasTold,
}

abbrev naturals : Values
naturals = record {
  F = ℕ;
  F32 = ℕ;
  to_float = λ n. n;
  OverlayRect = ℕ;
  zero_f = 0;
  one_f = 1;
  is_positive = ltb 0;
  fuzzy_equal = ◌==◌;
}

run-WasTold_example :
    let w =
      run naturals
        (λ p. p)
        (sets_heightfield_source "a"
          ∷ syncs none false
          ∷ sets_rotation 3
          ∷ sets_overlays (7 ∷ [])
          ∷ [])
        (start naturals (λ p. p) 0) in
    WasTold naturals (λ p. p) w.viewport (sync naturals (λ p. p) (some 2) true w).told_last
run-WasTold_example =
    run-WasTold naturals (λ p. p) 0
      (sets_heightfield_source "a"
        ∷ syncs none false
        ∷ sets_rotation 3
        ∷ sets_overlays (7 ∷ [])
        ∷ [])
      (some 2) true

abbrev quiet : Frame
quiet = record {
  has_fbo = true;
  has_size = true;
  has_window = true;
  surface_ready = true;
  needs_update = false;
  has_free_slot = true;
  picked = none;
  overlay_max_ready = false;
  has_overlay_rects = true;
  still_needs_update = false;
  in_flight = false;
}

abbrev settling : Renderer
settling = record { has_scene = true; idle_settle_frames = 2; pick_pending = false }

render-asks_example :
    asks (render quiet settling).1 ≡ (is_drawn quiet settling && has_reason quiet settling)
render-asks_example = render-asks quiet settling

-- A full ring of which the last readback has come back in this frame.
drained :
    asks
      (render
        (record quiet { has_free_slot = false })
        (record settling { idle_settle_frames = 1 })).1
    ≡ false
drained =
    render-asks (record quiet { has_free_slot = false })
      (record settling { idle_settle_frames = 1 })

abbrev distances : Distances naturals
distances = record {
  plus = λ a b. a + b;
  minus = λ a b. a - b;
  times = λ a b. a * b;
  is_at_least_nine = leb 9;
}

abbrev left_at : ℕ → MouseEvent naturals
left_at x = record {
  button = left;
  has_left = true;
  has_middle = false;
  has_right = false;
  local_pos = (x, 0);
}

left_at-HoldsLeft : (x : ℕ) → HoldsLeft naturals distances (left_at x)
left_at-HoldsLeft x = record { has_left = refl; has_middle = refl; has_right = refl }

abbrev released : Mouse naturals
released = record { left_down = false; left_dragging = false; left_press_pos = (0, 0) }

a_drag :
    drag naturals distances (1, 0) (left_at 3 ∷ left_at 4 ∷ left_at 2 ∷ [])
    ≡ some (handles_press (left_at 4) ∷ handles_move (left_at 4) ∷ handles_move (left_at 2) ∷ [])
unfolding is_far
a_drag = refl

gesture-Outcome_example :
    gesture naturals distances none
      (left_at 1)
      (left_at 3 ∷ left_at 4 ∷ [])
      (left_at 5)
      released
      (new_item naturals)
    ≡ outcome naturals distances none
        (left_at 1)
        (left_at 5)
        (drag naturals distances (1, 0) (left_at 3 ∷ left_at 4 ∷ []))
        (new_item naturals)
gesture-Outcome_example =
    gesture-Outcome naturals distances none (left_at 1) (left_at 3 ∷ left_at 4 ∷ []) (left_at 5)
      released (new_item naturals) refl (left_at-HoldsLeft 3, (left_at-HoldsLeft 4, tt)) refl
