-- ===== src/RenderScene/Mouse.antt =====
-- render_scene.cpp, `handleMousePress`, `handleMouseMove`, `handleMouseRelease` and `handleWheel`: the events that the
-- item hands over, as gestures of the camera. The two types of `double` are
-- joined by a conversion.
use qml_and_bgfx_testbridge.Prelude.{Bool, true, false, ◌||◌, if◌then◌else◌}
use qml_and_bgfx_testbridge.Camera.{Floats, OrbitCamera}
use qml_and_bgfx_testbridge.Camera.Gestures.{
  begin_rotate, rotate_to, end_rotate, begin_pan, pan_to, end_pan, begin_zoom_drag, zoom_drag_to,
  end_zoom_drag,
}
use qml_and_bgfx_testbridge.Viewport.{Values}
use qml_and_bgfx_testbridge.Viewport.Mouse.{
  MouseButton, left, middle, right, other, MouseEvent, MouseCall, handles_press, handles_move,
  handles_release, requests_overlay_max,
}

abbrev pub is_left : MouseButton → Bool
is_left left = true
is_left _ = false

abbrev pub is_middle : MouseButton → Bool
is_middle middle = true
is_middle _ = false

abbrev pub is_right : MouseButton → Bool
is_right right = true
is_right _ = false

module _ (v : Values) (fl : Floats) (to_double : v.F → fl.D) where
  abbrev pub place : MouseEvent v → fl.D × fl.D
  place e = (to_double e.local_pos.0, to_double e.local_pos.1)

  unfoldable pub handle_mouse_press : MouseEvent v → OrbitCamera fl → OrbitCamera fl
  handle_mouse_press e c =
      if is_left e.button || e.has_left
      then (begin_rotate fl (place e) c).0
      else if is_middle e.button || e.has_middle
      then (begin_pan fl (place e) c).0
      else if is_right e.button || e.has_right
      then (begin_zoom_drag fl (place e) c).0
      else c

  unfoldable pub handle_mouse_move : MouseEvent v → OrbitCamera fl → OrbitCamera fl
  handle_mouse_move e c =
      if e.has_left
      then (rotate_to fl (place e) c).0
      else if e.has_middle
      then (pan_to fl (place e) c).0
      else if e.has_right
      then (zoom_drag_to fl (place e) c).0
      else c

  abbrev pub release : MouseButton → OrbitCamera fl → OrbitCamera fl
  release left c = (end_rotate fl c).0
  release middle c = (end_pan fl c).0
  release right c = (end_zoom_drag fl c).0
  release other c = c

  unfoldable pub handle_mouse_release : MouseEvent v → OrbitCamera fl → OrbitCamera fl
  handle_mouse_release e c = release e.button c

  -- What the item calls of the scene, at its camera.
  unfoldable pub handle : MouseCall v → OrbitCamera fl → OrbitCamera fl
  handle (handles_press e) c = handle_mouse_press e c
  handle (handles_move e) c = handle_mouse_move e c
  handle (handles_release e) c = handle_mouse_release e c
  handle requests_overlay_max c = c
