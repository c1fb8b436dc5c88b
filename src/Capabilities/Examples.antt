-- ===== src/Capabilities/Examples.antt =====
-- Tests of render_capabilities.cpp, and its theorems at inputs.
use qml_and_bgfx_testbridge.Prelude.{◌≡◌, refl, [], none, some}
use qml_and_bgfx_testbridge.Capabilities.{
  no_compute_override, codes, to_lower, parse_tier_override_env, probe_render_caps, bytes_eq,
  is_software, contains_ci, finds, starts_with, trigger_of, decide_tier,
}

software_is_limited :
    (probe_render_caps none (codes "LLVMpipe (LLVM 6.0)") [] none).override_source ≡ "auto:software"
unfolding probe_render_caps parse_tier_override_env is_software contains_ci finds starts_with
    to_lower trigger_of decide_tier
software_is_limited = refl

reads_env : parse_tier_override_env (some (codes "No-Compute")) ≡ no_compute_override
unfolding parse_tier_override_env to_lower bytes_eq
reads_env = refl
