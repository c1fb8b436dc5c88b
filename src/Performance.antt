-- ===== src/Performance.antt =====
-- src/engine/terrain/performance_monitor.h and .cpp, `RollingPerformanceMonitor`. The numbers of `float` are a
-- parameter. The count stays below the period, which is an uint32_t, so that it does not wrap.
pub mod Periods
mod Examples
use qml_and_bgfx_testbridge.Prelude.{
  ℕ, suc, Bool, true, false, List, [], ◌∷◌, Option, none, some, ltb, ◌==◌, if◌then◌else◌,
}

pub record Floats : Type 1 where
  pub F : Type 0
  pub zero_f : F
  pub plus : F → F → F
  pub times : F → F → F
  pub inverse : ℕ → F  -- 1.0f / float(n)

module _ (fl : Floats) where
  pub record FramePerfSample : Type 0 where
    pub update_ms : fl.F
    pub upload_ms : fl.F
    pub render_submit_ms : fl.F
    pub texture_load_ms : fl.F
    pub smap_ms : fl.F

  pub record RollingPerformanceMonitor : Type 0 where
    pub report_every_frames : ℕ
    pub count : ℕ
    pub accum : FramePerfSample

  abbrev pub no_sample : FramePerfSample
  no_sample = record {
    update_ms = fl.zero_f;
    upload_ms = fl.zero_f;
    render_submit_ms = fl.zero_f;
    texture_load_ms = fl.zero_f;
    smap_ms = fl.zero_f;
  }

  unfoldable pub new_monitor : ℕ → RollingPerformanceMonitor
  new_monitor report_every_frames = record {
    report_every_frames = if report_every_frames == 0 then 120 else report_every_frames;
    count = 0;
    accum = no_sample;
  }

  unfoldable pub reset : RollingPerformanceMonitor → RollingPerformanceMonitor
  reset m = record m { count = 0; accum = no_sample }

  unfoldable pub add : FramePerfSample → FramePerfSample → FramePerfSample
  add a s = record {
    update_ms = fl.plus a.update_ms s.update_ms;
    upload_ms = fl.plus a.upload_ms s.upload_ms;
    render_submit_ms = fl.plus a.render_submit_ms s.render_submit_ms;
    texture_load_ms = fl.plus a.texture_load_ms s.texture_load_ms;
    smap_ms = fl.plus a.smap_ms s.smap_ms;
  }

  unfoldable pub average : FramePerfSample → ℕ → FramePerfSample
  average a n =
      let inv = fl.inverse n in
      record {
        update_ms = fl.times a.update_ms inv;
        upload_ms = fl.times a.upload_ms inv;
        render_submit_ms = fl.times a.render_submit_ms inv;
        texture_load_ms = fl.times a.texture_load_ms inv;
        smap_ms = fl.times a.smap_ms inv;
      }

  -- The average, if there is one to report.
  unfoldable pub push :
      FramePerfSample
      → RollingPerformanceMonitor
      → Option FramePerfSample × RollingPerformanceMonitor
  push sample m =
      let accum = add m.accum sample in
      let count = suc m.count in
      if ltb count m.report_every_frames
      then (none, record m { count = count; accum = accum })
      else (some (average accum count), reset (record m { count = count; accum = accum }))
