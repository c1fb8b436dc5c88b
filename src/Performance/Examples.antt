-- ===== src/Performance/Examples.antt =====
-- Tests of performance_monitor.cpp, and its theorem at an input.
use qml_and_bgfx_testbridge.Prelude.{ℕ, ◌+◌, ◌*◌, ◌≡◌, refl, [], ◌∷◌, none, some}
use qml_and_bgfx_testbridge.Performance.{Floats, FramePerfSample, new_monitor}
use qml_and_bgfx_testbridge.Performance.Periods.{run, means, run-period}

-- An average that is the sum.
abbrev sums : Floats
sums = record { F = ℕ; zero_f = 0; plus = λ a b. a + b; times = λ a b. a * b; inverse = λ n. 1 }

abbrev sample : ℕ → FramePerfSample sums
sample n = record {
  update_ms = n;
  upload_ms = n;
  render_submit_ms = n;
  texture_load_ms = n;
  smap_ms = n;
}

run-period_example :
    run sums (sample 1 ∷ sample 2 ∷ []) (new_monitor sums 2)
    ≡ (none ∷ some (means sums (sample 1 ∷ sample 2 ∷ []) 2) ∷ [], new_monitor sums 2)
run-period_example = run-period sums 2 (sample 1 ∷ sample 2 ∷ []) refl

the_mean : means sums (sample 1 ∷ sample 2 ∷ []) 2 ≡ sample 3
the_mean = refl
