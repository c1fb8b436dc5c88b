-- ===== src/RenderScene/Examples.antt =====
-- Tests of render_scene.cpp, and its theorems at inputs.
use qml_and_bgfx_testbridge.Prelude.{
  ℕ, ◌+◌, ◌-◌, ◌*◌, ◌/◌, ◌≡◌, refl, true, false, List, [], ◌∷◌, Option, none, some, String, ltb,
  ◌==◌,
}
use qml_and_bgfx_testbridge.Json.{Json, null, float}
use qml_and_bgfx_testbridge.Camera.{Floats}
use qml_and_bgfx_testbridge.Camera.Config.{JsonFloats}
use qml_and_bgfx_testbridge.RenderScene.{new_scene}
use qml_and_bgfx_testbridge.RenderScene.Paths.{Files, normalize_local_path}
use qml_and_bgfx_testbridge.RenderScene.Loads.{
  SceneCall, resizes_to, targets, asks_heightfield, asks_diffuse, drops_diffuse, run, wanted,
  file_of,
}
use qml_and_bgfx_testbridge.RenderScene.Loads.Wanted.{nothing_loaded, run-Wanted}

abbrev thousandths : Floats
thousandths = record {
  F = ℕ;
  D = ℕ;
  zero_d = 0;
  minus_d = λ a b. a - b;
  narrow = λ a. a;
  plus = λ a b. a + b;
  minus = λ a b. a - b;
  times = λ a b. a * b / 1000;
  over = λ a b. a * 1000 / b;
  negative = λ a. a;
  less = ltb;
  of_nat = λ n. n * 1000;
  thousandths = λ n. n;
  sin = λ a. a;
  cos = λ a. a;
  tan = λ a. a;
  fabs = λ a. a;
  radians = λ a. a;
  fuzzy_equal = λ a b. a == b;
  normalized = λ v. v;
  cross = λ v w. v;
}

abbrev as_float : Json → Option ℕ
as_float (float n) = some n
as_float _ = none

abbrev numbers : JsonFloats thousandths
numbers = record { as_float = as_float; of_float = float }

-- Every path is that of a file.
abbrev files : Files
files = record {
  local_file = λ path. none;
  qrc_path = λ path. none;
  exists = λ path. true;
  behind_slash = λ path. none;
  from_native_separators = λ path. path;
}

abbrev normalize : String → String
normalize = normalize_local_path files

a_file : normalize_local_path files "a.r16" ≡ "a.r16"
unfolding normalize_local_path
a_file = refl

no_file : normalize_local_path (record files { exists = λ path. false }) "a.r16" ≡ ""
unfolding normalize_local_path
no_file = refl

abbrev scene_calls : List (SceneCall thousandths numbers normalize)
scene_calls =
    asks_heightfield "a.r16"
    ∷ asks_diffuse "b.png"
    ∷ targets 3 (some 7)
    ∷ resizes_to null 64 32
    ∷ asks_heightfield "c.r16"
    ∷ drops_diffuse
    ∷ []

run-Wanted_example :
    let w =
      wanted thousandths numbers normalize scene_calls
        (nothing_loaded thousandths numbers normalize) in
    let (s, l) =
      run thousandths numbers normalize scene_calls
        (new_scene thousandths numbers normalize)
        (nothing_loaded thousandths numbers normalize) in
    (l.heightfield ≡ file_of thousandths numbers normalize s.inited w.heightfield)
    × (l.diffuse ≡ file_of thousandths numbers normalize s.inited w.diffuse)
unfolding normalize_local_path
run-Wanted_example =
    run-Wanted thousandths numbers normalize scene_calls
      ((λ e. refl), ((λ e. refl), (tt, (tt, ((λ e. refl), (tt, tt))))))
