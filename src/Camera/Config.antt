-- ===== src/Camera/Config.antt =====
-- render_scene.cpp, `OrbitCamera::exportConfig` and `loadConfig`. A number of nlohmann::json as `float`, with its
-- exception, is a parameter. An exception leaves the assignments made before it, and all behind them undone.
use qml_and_bgfx_testbridge.Prelude.{
  ◌≡◌, refl, ◌∙◌, Bool, true, false, [], ◌∷◌, Option, none, some, String,
}
use qml_and_bgfx_testbridge.Json.{
  Json, null, boolean, integer, float, string, array, object, object_of, member,
}
use qml_and_bgfx_testbridge.Camera.{Floats, OrbitCamera, bound_pitch, bound_distance}

-- `get<float>()`, which throws on what is no number, and the JSON of a `float`.
pub record JsonFloats (fl : Floats) : Type 0 where
  pub as_float : Json → Option fl.F
  pub of_float : fl.F → Json

module _ (fl : Floats) (jf : JsonFloats fl) where
  unfoldable pub export_config : OrbitCamera fl → Json
  export_config c =
      let (x, y, z) = c.target in
      object_of (
        ("yaw", jf.of_float c.yaw)
        ∷ ("pitch", jf.of_float c.pitch)
        ∷ ("distance", jf.of_float c.distance)
        ∷ (
          "target",
          object_of (("x", jf.of_float x) ∷ ("y", jf.of_float y) ∷ ("z", jf.of_float z) ∷ []),
        )
        ∷ ("fovY", jf.of_float c.fov_y)
        ∷ [])

  -- A camera, and if no exception came so far.
  abbrev pub Loading : Type 0
  Loading = OrbitCamera fl × Bool

  abbrev pub value_of : Option Json → fl.F → Option fl.F
  value_of none default = some default
  value_of (some j) default = jf.as_float j

  abbrev pub assign :
      (fl.F → OrbitCamera fl → OrbitCamera fl) → Option fl.F → OrbitCamera fl → Loading
  assign put none c = (c, false)
  assign put (some v) c = (put v c, true)

  abbrev pub when_fine : (OrbitCamera fl → Loading) → Loading → Loading
  when_fine f (c, true) = f c
  when_fine f (c, false) = (c, false)

  -- `field = config.value(k, default)`
  unfoldable pub load_field :
      String → fl.F → (fl.F → OrbitCamera fl → OrbitCamera fl) → Json → Loading → Loading
  load_field k default put config l = when_fine (assign put (value_of (member k config) default)) l

  abbrev pub set_yaw : fl.F → OrbitCamera fl → OrbitCamera fl
  set_yaw v c = record c { yaw = v }

  abbrev pub set_pitch : fl.F → OrbitCamera fl → OrbitCamera fl
  set_pitch v c = record c { pitch = v }

  abbrev pub set_camera_distance : fl.F → OrbitCamera fl → OrbitCamera fl
  set_camera_distance v c = record c { distance = v }

  abbrev pub set_fov_y : fl.F → OrbitCamera fl → OrbitCamera fl
  set_fov_y v c = record c { fov_y = v }

  abbrev pub set_x : fl.F → OrbitCamera fl → OrbitCamera fl
  set_x v c = record c { target = (v, c.target.1, c.target.2) }

  abbrev pub set_y : fl.F → OrbitCamera fl → OrbitCamera fl
  set_y v c = record c { target = (c.target.0, v, c.target.2) }

  abbrev pub set_z : fl.F → OrbitCamera fl → OrbitCamera fl
  set_z v c = record c { target = (c.target.0, c.target.1, v) }

  -- `target`, if it is an object.
  unfoldable pub load_target : Option Json → Loading → Loading
  load_target (some (object fs)) l =
      let zero = fl.of_nat 0 in
      load_field "z" zero set_z (object fs)
        (load_field "y" zero set_y (object fs) (load_field "x" zero set_x (object fs) l))
  load_target none l = l
  load_target (some null) l = l
  load_target (some (boolean _)) l = l
  load_target (some (integer _)) l = l
  load_target (some (float _)) l = l
  load_target (some (string _)) l = l
  load_target (some (array _)) l = l

  -- The end of the `try` block: the bounds, the flags and the function again.
  abbrev pub finish_load : Bool → Loading → OrbitCamera fl
  finish_load old_callback (c, true) = record c {
    pitch = bound_pitch fl c.pitch;
    distance = bound_distance fl c.distance;
    view_dirty = true;
    proj_dirty = true;
    on_config_changed = old_callback;
  }
  finish_load old_callback (c, false) = c

  -- The assignments of the `try` block, with the function unset.
  unfoldable pub load_all : Json → OrbitCamera fl → Loading
  load_all config c = load_target (member "target" config) (
      load_field "fovY" (fl.of_nat 60) set_fov_y config (
        load_field "distance" (fl.of_nat 3) set_camera_distance config (
          load_field "pitch" (fl.of_nat 20) set_pitch config (
            load_field "yaw" (fl.negative (fl.of_nat 90)) set_yaw config
              (record c { on_config_changed = false }, true)))))

  unfoldable pub load_config : Json → OrbitCamera fl → OrbitCamera fl
  load_config (object fs) c = finish_load c.on_config_changed (load_all (object fs) c)
  load_config null c = c
  load_config (boolean _) c = c
  load_config (integer _) c = c
  load_config (float _) c = c
  load_config (string _) c = c
  load_config (array _) c = c

  module _ (back : (v : fl.F) → jf.as_float (jf.of_float v) ≡ some v) where
    read_field :
        (k : String) (default : fl.F) (put : fl.F → OrbitCamera fl → OrbitCamera fl) (config : Json)
        (v : fl.F) (c : OrbitCamera fl)
        → member k config ≡ some (jf.of_float v)
        → load_field k default put config (c, true) ≡ (put v c, true)
    unfolding load_field
    read_field k default put config v c e = rw (e, back v) refl

    load_all-export_config :
        (c d : OrbitCamera fl)
        → load_all (export_config c) d ≡ (
          record d {
            yaw = c.yaw;
            pitch = c.pitch;
            distance = c.distance;
            target = c.target;
            fov_y = c.fov_y;
            on_config_changed = false;
          },
          true,
        )
    unfolding load_all load_target export_config member
    load_all-export_config c d =
        let config = export_config c in
        let (x, y, z) = c.target in
        let t =
          object_of (("x", jf.of_float x) ∷ ("y", jf.of_float y) ∷ ("z", jf.of_float z) ∷ []) in
        let c0 = record d { on_config_changed = false } in
        let c1 = set_yaw c.yaw c0 in
        let c2 = set_pitch c.pitch c1 in
        let c3 = set_camera_distance c.distance c2 in
        let c4 = set_fov_y c.fov_y c3 in
        let c5 = set_x x c4 in
        let c6 = set_y y c5 in
        rw
          (
            read_field "yaw" (fl.negative (fl.of_nat 90)) set_yaw config c.yaw c0 refl,
            read_field "pitch" (fl.of_nat 20) set_pitch config c.pitch c1 refl,
            read_field "distance" (fl.of_nat 3) set_camera_distance config c.distance c2 refl,
            read_field "fovY" (fl.of_nat 60) set_fov_y config c.fov_y c3 refl,
            read_field "x" (fl.of_nat 0) set_x t x c4 refl,
            read_field "y" (fl.of_nat 0) set_y t y c5 refl,
            read_field "z" (fl.of_nat 0) set_z t z c6 refl,
          )
          refl

    load_config-object :
        (c d : OrbitCamera fl)
        → load_config (export_config c) d
          ≡ finish_load d.on_config_changed (load_all (export_config c) d)
    unfolding load_config export_config
    load_config-object c d = refl

    -- A configuration that a camera exports, whose pitch and distance are in their bounds, gives any camera the view
    -- of the first, to be drawn anew, and changes nothing else.
    pub load_config-export_config :
        (c d : OrbitCamera fl)
        → bound_pitch fl c.pitch ≡ c.pitch
        → bound_distance fl c.distance ≡ c.distance
        → load_config (export_config c) d ≡ record d {
          yaw = c.yaw;
          pitch = c.pitch;
          distance = c.distance;
          target = c.target;
          fov_y = c.fov_y;
          view_dirty = true;
          proj_dirty = true;
        }
    load_config-export_config c d p q =
        load_config-object c d ∙ rw (load_all-export_config c d, p, q) refl
