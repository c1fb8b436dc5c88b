-- ===== src/Performance/Periods.antt =====
-- performance_monitor.cpp: when the monitor reports, and what.
use qml_and_bgfx_testbridge.Prelude.{
  ℕ, suc, ◌+◌, ◌-◌, ◌<◌, ◌≡◌, refl, ap, ◌∙◌, map, true, false, List, [], ◌∷◌, ◌++◌, Option, none,
  some, ltb, ◌==◌, length, replicate, if◌then◌else◌, arith,
}
use qml_and_bgfx_testbridge.Performance.{
  Floats, FramePerfSample, RollingPerformanceMonitor, no_sample, new_monitor, reset, add, average,
  push,
}

module _ (fl : Floats) where
  -- What the pushes report, one after the other.
  unfoldable pub run :
      List (FramePerfSample fl)
      → RollingPerformanceMonitor fl
      → List (Option (FramePerfSample fl)) × RollingPerformanceMonitor fl
  run [] m = ([], m)
  run (s ∷ ss) m =
      let (report, m') = push fl s m in let (reports, m'') = run ss m' in (report ∷ reports, m'')

  abbrev pub sum : FramePerfSample fl → List (FramePerfSample fl) → FramePerfSample fl
  sum a [] = a
  sum a (s ∷ ss) = sum (add fl a s) ss

  -- A monitor at the start of a period.
  abbrev pub fresh : ℕ → RollingPerformanceMonitor fl
  fresh n = record { report_every_frames = n; count = 0; accum = no_sample fl }

  push_more :
      (n count : ℕ) (a s : FramePerfSample fl)
      → suc count < n
      → push fl s (record { report_every_frames = n; count = count; accum = a })
        ≡ (none, record { report_every_frames = n; count = suc count; accum = add fl a s })
  unfolding push
  push_more n count a s h = let e : ltb (suc count) n ≡ true = ground arith in rw e refl

  push_last :
      (n count : ℕ) (a s : FramePerfSample fl)
      → suc count ≡ n
      → push fl s (record { report_every_frames = n; count = count; accum = a })
        ≡ (some (average fl (add fl a s) n), fresh n)
  unfolding push reset
  push_last n count a s h = let e : ltb (suc count) n ≡ false = ground arith in rw (e, h) refl

  run_nil : (m : RollingPerformanceMonitor fl) → run [] m ≡ ([], m)
  unfolding run
  run_nil m = refl

  run_cons :
      (s : FramePerfSample fl) (ss : List (FramePerfSample fl))
      (m m' m'' : RollingPerformanceMonitor fl) (r : Option (FramePerfSample fl))
      (rs : List (Option (FramePerfSample fl)))
      → push fl s m ≡ (r, m')
      → run ss m' ≡ (rs, m'')
      → run (s ∷ ss) m ≡ (r ∷ rs, m'')
  unfolding run
  run_cons s ss m m' m'' r rs e f = rw (e, f) refl

  rest_of_period :
      (n count : ℕ) (a s : FramePerfSample fl) (ss : List (FramePerfSample fl))
      → count + suc (length ss) ≡ n
      → run (s ∷ ss) (record { report_every_frames = n; count = count; accum = a })
        ≡ (replicate (length ss) none ++ some (average fl (sum a (s ∷ ss)) n) ∷ [], fresh n)
  rest_of_period n count a s [] h =
      run_cons s [] (record { report_every_frames = n; count = count; accum = a }) (fresh n) _ _ _
        (push_last n count a s (omega arith)) (run_nil (fresh n))
  rest_of_period n count a s (s' ∷ ss) h =
      run_cons s (s' ∷ ss) (record { report_every_frames = n; count = count; accum = a })
        (record { report_every_frames = n; count = suc count; accum = add fl a s }) _ _ _
        (push_more n count a s (omega arith))
        (rest_of_period n (suc count) (add fl a s) s' ss (omega arith))

  -- The sum of a list of numbers, in the order of the pushes.
  abbrev pub sum_from : fl.F → List fl.F → fl.F
  sum_from a [] = a
  sum_from a (x ∷ xs) = sum_from (fl.plus a x) xs

  -- The mean of what the samples have of one kind.
  abbrev pub mean : (FramePerfSample fl → fl.F) → List (FramePerfSample fl) → ℕ → fl.F
  mean field samples n = fl.times (sum_from fl.zero_f (map field samples)) (fl.inverse n)

  abbrev pub means : List (FramePerfSample fl) → ℕ → FramePerfSample fl
  means samples n = record {
    update_ms = mean (λ s. s.update_ms) samples n;
    upload_ms = mean (λ s. s.upload_ms) samples n;
    render_submit_ms = mean (λ s. s.render_submit_ms) samples n;
    texture_load_ms = mean (λ s. s.texture_load_ms) samples n;
    smap_ms = mean (λ s. s.smap_ms) samples n;
  }

  -- The sum of samples goes kind by kind.
  sum-kinds :
      (a : FramePerfSample fl) (ss : List (FramePerfSample fl))
      → sum a ss ≡ record {
        update_ms = sum_from a.update_ms (map (λ s. s.update_ms) ss);
        upload_ms = sum_from a.upload_ms (map (λ s. s.upload_ms) ss);
        render_submit_ms = sum_from a.render_submit_ms (map (λ s. s.render_submit_ms) ss);
        texture_load_ms = sum_from a.texture_load_ms (map (λ s. s.texture_load_ms) ss);
        smap_ms = sum_from a.smap_ms (map (λ s. s.smap_ms) ss);
      }
  unfolding add
  sum-kinds a [] = refl
  sum-kinds a (s ∷ ss) = sum-kinds (add fl a s) ss

  average-sum :
      (ss : List (FramePerfSample fl)) (n : ℕ) → average fl (sum (no_sample fl) ss) n ≡ means ss n
  unfolding average
  average-sum ss n = ap (λ a. average fl a n) (sum-kinds (no_sample fl) ss)

  -- In each period of pushes, of the length asked for, or 120 for none, the monitor reports at the last push and at no
  -- other, and what it reports is, for each of the five kinds of time, the sum of this period's samples of that kind
  -- times the inverse of their number; after it the next period begins.
  pub run-period :
      (every : ℕ) (samples : List (FramePerfSample fl))
      → let n = if every == 0 then 120 else every in
        length samples ≡ n
        → run samples (new_monitor fl every)
          ≡ (replicate (n - 1) none ++ some (means samples n) ∷ [], new_monitor fl every)
  unfolding new_monitor
  run-period every [] h = absurd (ground arith)
  run-period every (s ∷ ss) h =
      let n = if every == 0 then 120 else every in
      let less : length ss ≡ n - 1 = omega arith in
      rest_of_period n 0 (no_sample fl) s ss (omega arith)
      ∙ ap
          (λ k.
            (replicate k none ++ some (average fl (sum (no_sample fl) (s ∷ ss)) n) ∷ [], fresh n))
          less
      ∙ ap (λ a. (replicate (n - 1) none ++ some a ∷ [], fresh n)) (average-sum (s ∷ ss) n)
