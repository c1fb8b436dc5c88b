-- ===== src/Viewport/Mouse.antt =====
-- render_viewport_item.cpp, `mousePressEvent`, `mouseMoveEvent` and `mouseReleaseEvent`: a click on the item picks, a
-- drag goes to the scene's camera.
pub mod Gesture
use qml_and_bgfx_testbridge.Prelude.{
  Bool, true, false, not, ◌&&◌, ◌||◌, List, [], ◌∷◌, ◌++◌, Option, none, some, if◌then◌else◌,
}
use qml_and_bgfx_testbridge.Viewport.{Values, RenderViewportItem}

pub data MouseButton : Type 0 where
  left middle right other : MouseButton

module _ (v : Values) where
  -- What the handlers reckon with: the distance a press may slip is compared as its square with 9.0.
  pub record Distances : Type 0 where
    pub plus : v.F → v.F → v.F
    pub minus : v.F → v.F → v.F
    pub times : v.F → v.F → v.F
    pub is_at_least_nine : v.F → Bool

  pub record MouseEvent : Type 0 where
    pub button : MouseButton
    pub has_left : Bool  -- `buttons()`
    pub has_middle : Bool
    pub has_right : Bool
    pub local_pos : v.F × v.F

  pub record Mouse : Type 0 where
    pub left_down : Bool
    pub left_dragging : Bool
    pub left_press_pos : v.F × v.F

  -- What is called of the scene.
  pub data MouseCall : Type 0 where
    handles_press handles_move handles_release : MouseEvent → MouseCall
    requests_overlay_max : MouseCall

  -- A handler's outcome. An event that is not accepted is ignored, and asks for no frame.
  pub record Handled : Type 0 where
    pub mouse : Mouse
    pub viewport : RenderViewportItem v
    pub calls : List MouseCall
    pub accepts : Bool

  abbrev pub is_for_camera : MouseButton → Bool
  is_for_camera middle = true
  is_for_camera right = true
  is_for_camera _ = false

  abbrev pub to_camera :
      Bool
      → (MouseEvent → MouseCall)
      → MouseEvent
      → Mouse
      → RenderViewportItem v
      → List MouseCall
      → Handled
  to_camera b call e m i cs =
      if b
      then record { mouse = m; viewport = i; calls = cs ++ call e ∷ []; accepts = true }
      else record { mouse = m; viewport = i; calls = cs; accepts = false }

  abbrev pub press_by : MouseButton → MouseEvent → Mouse → RenderViewportItem v → Handled
  press_by left e m i = record {
    mouse = record { left_down = true; left_dragging = false; left_press_pos = e.local_pos };
    viewport = i;
    calls = [];
    accepts = true;
  }
  press_by b e m i = to_camera (is_for_camera b) handles_press e m i []

  unfoldable pub mouse_press_event : MouseEvent → Mouse → RenderViewportItem v → Handled
  mouse_press_event e m i = press_by e.button e m i

  module _ (d : Distances) where
    unfoldable pub is_far : v.F × v.F → v.F × v.F → Bool
    is_far (x, y) (x', y') =
        let dx = d.minus x x' in
        let dy = d.minus y y' in d.is_at_least_nine (d.plus (d.times dx dx) (d.times dy dy))

    unfoldable pub mouse_move_event : MouseEvent → Mouse → RenderViewportItem v → Handled
    mouse_move_event e m i =
        let start_rotate =
          e.has_left && m.left_down && not m.left_dragging && is_far e.local_pos m.left_press_pos in
        let m' = if start_rotate then record m { left_dragging = true } else m in
        let pressed = if start_rotate then handles_press e ∷ [] else [] in
        if e.has_left && m'.left_dragging
        then record {
          mouse = m';
          viewport = i;
          calls = pressed ++ handles_move e ∷ [];
          accepts = true;
        }
        else to_camera (e.has_middle || e.has_right) handles_move e m' i pressed

    -- The ratio is the window's, 1.0 without a window.
    abbrev pub pick_at : v.F → v.F × v.F → v.F × v.F
    pick_at ratio (x, y) = (d.times x ratio, d.times y ratio)

    abbrev pub release_by : MouseButton → v.F → MouseEvent → Mouse → RenderViewportItem v → Handled
    release_by left ratio e m i =
        let m' = record m { left_down = false; left_dragging = false } in
        if m.left_dragging
        then record { mouse = m'; viewport = i; calls = handles_release e ∷ []; accepts = true }
        else record {
          mouse = m';
          viewport = record i { pick_pending = true; pick_pos = pick_at ratio e.local_pos };
          calls = requests_overlay_max ∷ [];
          accepts = true;
        }
    release_by b ratio e m i = to_camera (is_for_camera b) handles_release e m i []

    unfoldable pub mouse_release_event :
        Option v.F → MouseEvent → Mouse → RenderViewportItem v → Handled
    mouse_release_event (some ratio) e m i = release_by e.button ratio e m i
    mouse_release_event none e m i = release_by e.button v.one_f e m i
