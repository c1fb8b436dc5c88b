-- ===== src/Camera/Examples.antt =====
-- Tests of the camera of render_scene.cpp, and its theorems at inputs.
use qml_and_bgfx_testbridge.Prelude.{
  ℕ, ◌+◌, ◌-◌, ◌*◌, ◌/◌, ◌≡◌, refl, true, false, List, [], ◌∷◌, Option, none, some, ltb, ◌==◌,
  arith,
}
use qml_and_bgfx_testbridge.Json.{Json, float, string, object_of, fields, member}
use qml_and_bgfx_testbridge.Camera.{
  Floats, IsOrder, OrbitCamera, new_camera, q_bound, bound_pitch, bound_distance,
}
use qml_and_bgfx_testbridge.Camera.Config.{
  JsonFloats, load_config, load_all, load_target, load_field,
}
use qml_and_bgfx_testbridge.Camera.Gestures.{begin_rotate, rotate_to, zoom}
use qml_and_bgfx_testbridge.Camera.Ranges.{
  InRange, Call, begins_rotate, rotates, zooms, run, step, Loaded, load_config-Loaded, run-InRange,
}

-- Numbers in thousandths, without a sign.
abbrev thousandths : Floats
thousandths = record {
  F = ℕ;
  D = ℕ;
  zero_d = 0;
  minus_d = λ a b. a - b;
  narrow = λ a. a;
  plus = λ a b. a + b;
  minus = λ a b. a - b;
  times = λ a b. a * b / 1000;
  over = λ a b. a * 1000 / b;
  negative = λ a. a;
  less = ltb;
  of_nat = λ n. n * 1000;
  thousandths = λ n. n;
  sin = λ a. a;
  cos = λ a. a;
  tan = λ a. a;
  fabs = λ a. a;
  radians = λ a. a;
  fuzzy_equal = λ a b. a == b;
  normalized = λ v. v;
  cross = λ v w. v;
}

irreflexive : (a : ℕ) → ltb a a ≡ false
irreflexive a = ground arith

asymmetric : (a b : ℕ) → ltb a b ≡ true → ltb b a ≡ false
asymmetric a b h = ground arith

abbrev order : IsOrder thousandths
order = record {
  irreflexive = irreflexive;
  asymmetric = asymmetric;
  pitch_bounds = refl;
  distance_bounds = refl;
  three_above = refl;
  three_below = refl;
}

abbrev as_float : Json → Option ℕ
as_float (float n) = some n
as_float _ = none

abbrev json_floats : JsonFloats thousandths
json_floats = record { as_float = as_float; of_float = float }

abbrev camera : OrbitCamera thousandths
camera = record {
  last_pos = (0, 0);
  last_pan_pos = (0, 0);
  last_zoom_pos = (0, 0);
  viewport = (1, 1);
  target = (0, 0, 0);
  yaw = 5;
  pitch = 20000;
  distance = 3000;
  fov_y = 60000;
  rotating = false;
  panning = false;
  zooming = false;
  view_dirty = false;
  proj_dirty = false;
  on_config_changed = true;
}

in_pitch : bound_pitch thousandths 20000 ≡ 20000
unfolding q_bound
in_pitch = refl

in_distance : bound_distance thousandths 3000 ≡ 3000
unfolding q_bound
in_distance = refl

-- A distance that is no number leaves the pitch as it was read, and takes the function away.
abbrev broken : Json
broken = object_of (("pitch", float 1000000) ∷ ("distance", string "far") ∷ [])

broken_load :
    load_config thousandths json_floats broken camera
    ≡ record camera { yaw = 90000; pitch = 1000000; on_config_changed = false }
unfolding load_config load_all load_target load_field member
broken_load = refl

load_config-Loaded_example :
    Loaded thousandths json_floats 2 camera false
      (load_config thousandths json_floats broken camera)
unfolding load_all load_target member load_field
load_config-Loaded_example =
    load_config-Loaded thousandths json_floats 2 order
      (fields (("pitch", float 1000000) ∷ ("distance", string "far") ∷ [])) camera

abbrev calls : List (Call thousandths)
calls = begins_rotate (0, 0) ∷ rotates (100, 900000) ∷ zooms 5 ∷ []

still_set : (run thousandths json_floats 2 calls (new_camera thousandths)).on_config_changed ≡ true
unfolding run step new_camera begin_rotate rotate_to zoom
still_set = refl

run-InRange_example :
    InRange thousandths (run thousandths json_floats 2 calls (new_camera thousandths))
run-InRange_example = run-InRange thousandths json_floats 2 order calls still_set
