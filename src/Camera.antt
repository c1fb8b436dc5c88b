-- ===== src/Camera.antt =====
-- src/engine/quick/render_scene.h and .cpp, `RenderScene::OrbitCamera`. The numbers of `float` are a parameter with
-- the operations that the code uses, and so are the vectors and matrices of Qt. A `std::function` that is set is a
-- Bool, and each operation gives, beside the camera, if the function was called.
pub mod Config
pub mod Gestures
pub mod Ranges
mod Examples
use qml_and_bgfx_testbridge.Prelude.{ℕ, ◌+◌, ◌≡◌, Bool, true, false, max, ltb, if◌then◌else◌}

pub record Floats : Type 1 where
  pub F : Type 0
  pub D : Type 0  -- double, of the places of QPointF
  pub zero_d : D
  pub minus_d : D → D → D
  pub narrow : D → F  -- float(d)
  pub plus : F → F → F
  pub minus : F → F → F
  pub times : F → F → F
  pub over : F → F → F
  pub negative : F → F
  pub less : F → F → Bool
  pub of_nat : ℕ → F
  pub thousandths : ℕ → F  -- a constant of so many thousandths
  pub sin : F → F
  pub cos : F → F
  pub tan : F → F
  pub fabs : F → F
  pub radians : F → F  -- qDegreesToRadians
  pub fuzzy_equal : F → F → Bool  -- qFuzzyCompare
  -- QVector3D
  pub normalized : F × F × F → F × F × F
  pub cross : F × F × F → F × F × F → F × F × F

module _ (fl : Floats) where
  abbrev pub Vector : Type 0
  Vector = fl.F × fl.F × fl.F

  -- What the library promises of the order: true of IEEE 754, NaN included.
  pub record IsOrder : Type 0 where
    pub irreflexive : (a : fl.F) → fl.less a a ≡ false
    pub asymmetric : (a b : fl.F) → fl.less a b ≡ true → fl.less b a ≡ false
    pub pitch_bounds : fl.less (fl.of_nat 0) (fl.of_nat 89) ≡ true
    pub distance_bounds : fl.less (fl.thousandths 200) (fl.of_nat 250) ≡ true
    pub three_above : fl.less (fl.thousandths 200) (fl.of_nat 3) ≡ true
    pub three_below : fl.less (fl.of_nat 250) (fl.of_nat 3) ≡ false

  -- `qMin`, `qMax` and `qBound`, which is `qMax(min, qMin(max, val))`.
  abbrev pub q_min : fl.F → fl.F → fl.F
  q_min a b = if fl.less a b then a else b

  abbrev pub q_max : fl.F → fl.F → fl.F
  q_max a b = if fl.less a b then b else a

  unfoldable pub q_bound : fl.F → fl.F → fl.F → fl.F
  q_bound low value high = q_max low (q_min high value)

  abbrev pub bound_pitch : fl.F → fl.F
  bound_pitch p = q_bound (fl.of_nat 0) p (fl.of_nat 89)

  abbrev pub bound_distance : fl.F → fl.F
  bound_distance d = q_bound (fl.thousandths 200) d (fl.of_nat 250)

  pub record OrbitCamera : Type 0 where
    pub last_pos : fl.D × fl.D
    pub last_pan_pos : fl.D × fl.D
    pub last_zoom_pos : fl.D × fl.D
    pub viewport : ℕ × ℕ
    pub target : Vector
    pub yaw : fl.F
    pub pitch : fl.F
    pub distance : fl.F
    pub fov_y : fl.F
    pub rotating : Bool
    pub panning : Bool
    pub zooming : Bool
    pub view_dirty : Bool
    pub proj_dirty : Bool
    pub on_config_changed : Bool

  abbrev pub origin : fl.D × fl.D
  origin = (fl.zero_d, fl.zero_d)

  -- A new camera, behind the constructor of RenderScene, which sets the function.
  unfoldable pub new_camera : OrbitCamera
  new_camera = record {
    last_pos = origin;
    last_pan_pos = origin;
    last_zoom_pos = origin;
    viewport = (1, 1);
    target = (fl.of_nat 0, fl.of_nat 0, fl.of_nat 0);
    yaw = fl.of_nat 0;
    pitch = fl.of_nat 0;
    distance = fl.of_nat 3;
    fov_y = fl.of_nat 60;
    rotating = false;
    panning = false;
    zooming = false;
    view_dirty = true;
    proj_dirty = true;
    on_config_changed = true;
  }

  -- The axes of the view, as `panTo`, `computeFitDistance` and `updateView` compute them.
  abbrev pub forward_of : OrbitCamera → Vector
  forward_of c =
      let yaw = fl.radians c.yaw in
      let pitch = fl.radians c.pitch in
      fl.normalized
        (fl.times (fl.sin yaw) (fl.cos pitch), fl.sin pitch, fl.times (fl.cos yaw) (fl.cos pitch))

  abbrev pub right_of : OrbitCamera → Vector
  right_of c = fl.normalized (fl.cross (forward_of c) (fl.of_nat 0, fl.of_nat 1, fl.of_nat 0))

  abbrev pub up_of : OrbitCamera → Vector
  up_of c = fl.normalized (fl.cross (right_of c) (forward_of c))
