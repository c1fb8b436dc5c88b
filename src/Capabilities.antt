-- ===== src/Capabilities.antt =====
-- src/engine/terrain/render_capabilities.h and .cpp, and `probeRenderCaps` of render_device.cpp: whether the GPU computes.
-- A text is the list of its bytes. What OpenGL, bgfx and the environment tell is a parameter. The branch for Windows,
-- which takes no text of OpenGL, is the case of two empty texts.
pub mod Decision
pub mod Reading
mod Examples
use Prim.Native.Char.{code}
use qml_and_bgfx_testbridge.Prelude.{
  ℕ, ◌+◌, Bool, true, false, not, ◌&&◌, ◌||◌, List, [], ◌∷◌, map, Option, none, some, String,
  str_append, str_eq, ltb, leb, ◌==◌, if◌then◌else◌,
}

-- The bytes of a text of ASCII.
abbrev pub codes : String → List ℕ
codes String.[] = []
codes (String.◌∷◌ c s) = code c ∷ codes s

pub data RenderTier : Type 0 where
  full_tier no_compute_tier : RenderTier

pub data RenderTierOverride : Type 0 where
  auto_override full_override no_compute_override : RenderTierOverride

pub record RenderCaps : Type 0 where
  pub tier : RenderTier
  pub has_compute : Bool
  pub has_indirect : Bool
  pub has_image_rw : Bool
  pub is_software_backend : Bool
  pub renderer_str : List ℕ
  pub gl_version_str : List ℕ
  pub override_source : String

-- `std::tolower` in the locale of C.
unfoldable pub to_lower : ℕ → ℕ
to_lower c = if leb 65 c && leb c 90 then c + 32 else c

unfoldable pub bytes_eq : List ℕ → List ℕ → Bool
bytes_eq [] [] = true
bytes_eq [] (y ∷ ys) = false
bytes_eq (x ∷ xs) [] = false
bytes_eq (x ∷ xs) (y ∷ ys) = x == y && bytes_eq xs ys

-- `TESTBRIDGE_RENDER_TIER`, if it is set.
unfoldable pub parse_tier_override_env : Option (List ℕ) → RenderTierOverride
parse_tier_override_env none = auto_override
parse_tier_override_env (some []) = auto_override
parse_tier_override_env (some (c ∷ cs)) =
    let v = map to_lower (c ∷ cs) in
    if bytes_eq v (codes "full")
    then full_override
    else if bytes_eq v (codes "nocompute")
        || bytes_eq v (codes "no-compute")
        || bytes_eq v (codes "no_compute")
    then no_compute_override
    else auto_override

-- `std::string::find` of a needle.
unfoldable pub starts_with : List ℕ → List ℕ → Bool
starts_with [] hay = true
starts_with (n ∷ ns) [] = false
starts_with (n ∷ ns) (h ∷ hs) = n == h && starts_with ns hs

unfoldable pub finds : List ℕ → List ℕ → Bool
finds needle [] = starts_with needle []
finds needle (h ∷ hs) = starts_with needle (h ∷ hs) || finds needle hs

unfoldable pub contains_ci : List ℕ → List ℕ → Bool
contains_ci [] needle = false
contains_ci (h ∷ hs) [] = false
contains_ci (h ∷ hs) (n ∷ ns) = finds (map to_lower (n ∷ ns)) (map to_lower (h ∷ hs))

-- The names of renderers that are software.
unfoldable pub is_software : List ℕ → Bool
is_software renderer =
    contains_ci renderer (codes "llvmpipe")
    || contains_ci renderer (codes "softpipe")
    || contains_ci renderer (codes "swrast")
    || contains_ci renderer (codes "swiftshader")
    || contains_ci renderer (codes "osmesa")
    || contains_ci renderer (codes "mesa offscreen")
    || contains_ci renderer (codes "software renderer")

-- What bgfx supports of the three; without `getCaps` each stays true.
pub record Supported : Type 0 where
  pub compute : Bool
  pub draw_indirect : Bool
  pub image_rw : Bool

abbrev pub supported_or : Option Supported → Supported
supported_or none = record { compute = true; draw_indirect = true; image_rw = true }
supported_or (some s) = s

unfoldable pub trigger_of : Bool → Supported → String
trigger_of software s =
    if software
    then "software"
    else if not s.compute
    then "no_compute"
    else if not s.draw_indirect
    then "no_indirect"
    else if not s.image_rw
    then "no_image_rw"
    else "none"

-- The tier with the source of the decision.
unfoldable pub decide_tier : RenderTierOverride → String → RenderTier × String
decide_tier full_override trigger = (full_tier, "env:full")
decide_tier no_compute_override trigger = (no_compute_tier, "env:nocompute")
decide_tier auto_override trigger =
    if not (str_eq trigger "none")
    then (no_compute_tier, str_append "auto:" trigger)
    else (full_tier, "auto")

unfoldable pub probe_render_caps : Option Supported → List ℕ → List ℕ → Option (List ℕ) → RenderCaps
probe_render_caps caps renderer version env =
    let s = supported_or caps in
    let software = is_software renderer in
    let (tier, source) = decide_tier (parse_tier_override_env env) (trigger_of software s) in
    record {
      tier = tier;
      has_compute = s.compute;
      has_indirect = s.draw_indirect;
      has_image_rw = s.image_rw;
      is_software_backend = software;
      renderer_str = renderer;
      gl_version_str = version;
      override_source = source;
    }
