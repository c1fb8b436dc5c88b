-- ===== src/Camera/Gestures.antt =====
-- render_scene.cpp, `OrbitCamera`: the gestures of the mouse and the wheel, the size of the viewport, the distance
-- that fits a model, and the matrices, of which only the flags are kept. Sizes are below 2^31, as `int` holds them.
use qml_and_bgfx_testbridge.Prelude.{ℕ, Bool, true, false, ◌||◌, not, max, ltb, if◌then◌else◌}
use qml_and_bgfx_testbridge.Camera.{
  Floats, Vector, OrbitCamera, q_min, q_max, q_bound, bound_pitch, bound_distance, forward_of,
  right_of, up_of,
}

module _ (fl : Floats) where
  -- `notifyConfigChanged`: the camera, and if the function was called.
  abbrev pub notify_config_changed : OrbitCamera fl → OrbitCamera fl × Bool
  notify_config_changed c = (c, c.on_config_changed)

  abbrev pub quietly : OrbitCamera fl → OrbitCamera fl × Bool
  quietly c = (c, false)

  unfoldable pub resize : ℕ → ℕ → OrbitCamera fl → OrbitCamera fl × Bool
  resize w h c = quietly (record c { viewport = (max 1 w, max 1 h); proj_dirty = true })

  unfoldable pub begin_rotate : fl.D × fl.D → OrbitCamera fl → OrbitCamera fl × Bool
  begin_rotate pos c = quietly (record c {
    last_pos = pos;
    target = (fl.of_nat 0, fl.of_nat 0, fl.of_nat 0);
    view_dirty = true;
    rotating = true;
  })

  unfoldable pub rotate_to : fl.D × fl.D → OrbitCamera fl → OrbitCamera fl × Bool
  rotate_to (x, y) c =
      let speed = fl.thousandths 200 in
      let dx = fl.narrow (fl.minus_d x c.last_pos.0) in
      let dy = fl.narrow (fl.minus_d y c.last_pos.1) in
      if c.rotating
      then notify_config_changed (record c {
        last_pos = (x, y);
        yaw = fl.minus c.yaw (fl.times dx speed);
        pitch = bound_pitch fl (fl.plus c.pitch (fl.times dy speed));
        view_dirty = true;
      })
      else quietly c

  unfoldable pub end_rotate : OrbitCamera fl → OrbitCamera fl × Bool
  end_rotate c = quietly (record c { rotating = false })

  unfoldable pub begin_pan : fl.D × fl.D → OrbitCamera fl → OrbitCamera fl × Bool
  begin_pan pos c = quietly (record c { last_pan_pos = pos; panning = true })

  -- `m_target += (-dx) * right + (-dy) * up`
  unfoldable pub panned : OrbitCamera fl → fl.F → fl.F → Vector fl
  panned c dx dy =
      let (rx, ry, rz) = right_of fl c in
      let (ux, uy, uz) = up_of fl c in
      let moved = λ (t r u : fl.F).
        fl.plus t (fl.plus (fl.times (fl.negative dx) r) (fl.times (fl.negative dy) u)) in
      let (tx, ty, tz) = c.target in (moved tx rx ux, moved ty ry uy, moved tz rz uz)

  unfoldable pub pan_to : fl.D × fl.D → OrbitCamera fl → OrbitCamera fl × Bool
  pan_to (x, y) c =
      let zero = fl.of_nat 0 in
      let two = fl.of_nat 2 in
      let w = fl.of_nat c.viewport.0 in
      let h = fl.of_nat c.viewport.1 in
      let aspect = if fl.less zero h then fl.over w h else fl.of_nat 1 in
      let view_h =
        fl.times (fl.times two (fl.tan (fl.times (fl.radians c.fov_y) (fl.thousandths 500))))
          c.distance in
      let view_w = fl.times view_h aspect in
      let dx = fl.times (fl.over (fl.narrow (fl.minus_d x c.last_pan_pos.0)) w) view_w in
      let dy = fl.times (fl.over (fl.narrow (fl.minus_d y c.last_pan_pos.1)) h) view_h in
      let held = record c { last_pan_pos = (x, y) } in
      if not c.panning
      then quietly c
      else if not (fl.less zero w) || not (fl.less zero h)
      then quietly held
      else notify_config_changed (record held { target = panned held dx dy; view_dirty = true })

  unfoldable pub end_pan : OrbitCamera fl → OrbitCamera fl × Bool
  end_pan c = quietly (record c { panning = false })

  unfoldable pub begin_zoom_drag : fl.D × fl.D → OrbitCamera fl → OrbitCamera fl × Bool
  begin_zoom_drag pos c = quietly (record c { last_zoom_pos = pos; zooming = true })

  unfoldable pub zoom_drag_to : fl.D × fl.D → OrbitCamera fl → OrbitCamera fl × Bool
  zoom_drag_to (x, y) c =
      let dy = fl.narrow (fl.minus_d y c.last_zoom_pos.1) in
      if c.zooming
      then notify_config_changed (record c {
        last_zoom_pos = (x, y);
        distance = bound_distance fl (fl.plus c.distance (fl.times dy (fl.thousandths 10)));
        view_dirty = true;
      })
      else quietly c

  unfoldable pub end_zoom_drag : OrbitCamera fl → OrbitCamera fl × Bool
  end_zoom_drag c = quietly (record c { zooming = false })

  -- `speed` is 0.0015f.
  unfoldable pub zoom : fl.F → fl.F → OrbitCamera fl → OrbitCamera fl × Bool
  zoom speed delta c = notify_config_changed (record c {
    distance = bound_distance fl (fl.minus c.distance (fl.times delta speed));
    view_dirty = true;
  })

  unfoldable pub set_distance : fl.F → Bool → OrbitCamera fl → OrbitCamera fl × Bool
  set_distance value notify c =
      let clamped = bound_distance fl value in
      let moved = record c { distance = clamped; view_dirty = true } in
      if fl.fuzzy_equal c.distance clamped
      then quietly c
      else if notify
      then notify_config_changed moved
      else quietly moved

  -- `updateMatrices`, without the matrices.
  unfoldable pub update_matrices : OrbitCamera fl → OrbitCamera fl × Bool
  update_matrices c = quietly (record c { view_dirty = false; proj_dirty = false })

  -- |v.x| * x + |v.y| * y + |v.z| * z
  abbrev pub extent : Vector fl → Vector fl → fl.F
  extent (vx, vy, vz) (x, y, z) =
      fl.plus (fl.plus (fl.times (fl.fabs vx) x) (fl.times (fl.fabs vy) y))
        (fl.times (fl.fabs vz) z)

  unfoldable pub compute_fit_distance : Vector fl → fl.F → OrbitCamera fl → fl.F
  compute_fit_distance half fill_ratio c =
      let safe_fill = q_bound fl (fl.thousandths 500) fill_ratio (fl.thousandths 980) in
      let aspect =
        if ltb 0 c.viewport.1
        then fl.over (fl.of_nat c.viewport.0) (fl.of_nat c.viewport.1)
        else fl.of_nat 1 in
      let tan_half_y = fl.tan (fl.times (fl.radians c.fov_y) (fl.thousandths 500)) in
      let tan_half_x = fl.times tan_half_y (q_max fl (fl.thousandths 10) aspect) in
      let depth = extent (forward_of fl c) half in
      let req_x =
        fl.plus
          (fl.over (extent (right_of fl c) half)
            (q_max fl (fl.thousandths 1) (fl.times tan_half_x safe_fill)))
          depth in
      let req_y =
        fl.plus
          (fl.over (extent (up_of fl c) half)
            (q_max fl (fl.thousandths 1) (fl.times tan_half_y safe_fill)))
          depth in
      let cover_distance = fl.times (q_min fl req_x req_y) (fl.thousandths 1050) in
      let near_safety = fl.plus (fl.plus depth (fl.thousandths 100)) (fl.thousandths 120) in
      q_max fl (fl.thousandths 200) (q_max fl cover_distance near_safety)
