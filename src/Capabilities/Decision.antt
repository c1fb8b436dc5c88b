-- ===== src/Capabilities/Decision.antt =====
-- render_device.cpp, `probeRenderCaps`: when the tier is which, and that upper and lower case are the same.
use qml_and_bgfx_testbridge.Prelude.{
  ℕ, ◌≡◌, refl, ap, ◌⊎◌, Bool, true, false, not, ◌||◌, List, [], ◌∷◌, map, Option, none, some,
  str_eq, arith,
}
use qml_and_bgfx_testbridge.Capabilities.{
  full_tier, no_compute_tier, RenderTierOverride, auto_override, full_override, no_compute_override,
  RenderCaps, Supported, to_lower, parse_tier_override_env, contains_ci, is_software,
  probe_render_caps, finds, codes,
}

-- The backend is software or lacks something.
abbrev pub is_limited : RenderCaps → Bool
is_limited c =
    c.is_software_backend || not c.has_compute || not c.has_indirect || not c.has_image_rw

-- The environment decides if it can, and otherwise the backend.
abbrev pub Decided : RenderTierOverride → RenderCaps → Type 0
Decided full_override c = (c.tier ≡ full_tier) × (c.override_source ≡ "env:full")
Decided no_compute_override c = (c.tier ≡ no_compute_tier) × (c.override_source ≡ "env:nocompute")
Decided auto_override c =
    ((is_limited c ≡ true) × (c.tier ≡ no_compute_tier) × (str_eq c.override_source "auto" ≡ false))
    ⊎ ((is_limited c ≡ false) × (c.tier ≡ full_tier) × (c.override_source ≡ "auto"))

-- What bgfx supports stands in the capabilities; without an answer of bgfx all of it does.
abbrev pub Told : Option Supported → RenderCaps → Type 0
Told none c = (c.has_compute ≡ true) × (c.has_indirect ≡ true) × (c.has_image_rw ≡ true)
Told (some s) c =
    (c.has_compute ≡ s.compute) × (c.has_indirect ≡ s.draw_indirect) × (c.has_image_rw ≡ s.image_rw)

to_lower_idem : (c : ℕ) → to_lower (to_lower c) ≡ to_lower c
unfolding to_lower
to_lower_idem c = ground arith

lower_lower : (cs : List ℕ) → map to_lower (map to_lower cs) ≡ map to_lower cs
lower_lower [] = refl
lower_lower (c ∷ cs) = rw (to_lower_idem c, lower_lower cs) refl

contains_ci-lower :
    (hay needle : List ℕ) → contains_ci (map to_lower hay) needle ≡ contains_ci hay needle
unfolding contains_ci
contains_ci-lower [] needle = refl
contains_ci-lower (h ∷ hs) [] = refl
contains_ci-lower (h ∷ hs) (n ∷ ns) = ap (finds (map to_lower (n ∷ ns))) (lower_lower (h ∷ hs))

abbrev pub lower_env : Option (List ℕ) → Option (List ℕ)
lower_env none = none
lower_env (some cs) = some (map to_lower cs)

is_software-lower : (hay : List ℕ) → is_software (map to_lower hay) ≡ is_software hay
unfolding is_software
is_software-lower hay =
    rw
      (
        contains_ci-lower hay (codes "llvmpipe"),
        contains_ci-lower hay (codes "softpipe"),
        contains_ci-lower hay (codes "swrast"),
        contains_ci-lower hay (codes "swiftshader"),
        contains_ci-lower hay (codes "osmesa"),
        contains_ci-lower hay (codes "mesa offscreen"),
        contains_ci-lower hay (codes "software renderer"),
      )
      refl

parse-lower :
    (env : Option (List ℕ)) → parse_tier_override_env (lower_env env) ≡ parse_tier_override_env env
unfolding parse_tier_override_env
parse-lower none = refl
parse-lower (some []) = refl
parse-lower (some (c ∷ cs)) = rw (to_lower_idem c, lower_lower cs) refl

-- The tier and its source are the same if the renderer's name and the environment come in lower case.
pub probe_render_caps-lower :
    (caps : Option Supported) (renderer version : List ℕ) (env : Option (List ℕ))
    → let c = probe_render_caps caps renderer version env in
      let d = probe_render_caps caps (map to_lower renderer) version (lower_env env) in
      (d.tier ≡ c.tier) × (d.override_source ≡ c.override_source)
unfolding probe_render_caps
probe_render_caps-lower caps renderer version env =
    rw (is_software-lower renderer, parse-lower env) (refl, refl)
