-- ===== src/Endpoint/Variants.antt =====
-- bus_endpoint.cpp, `variantToJson` after `jsonToVariant`: what a payload is on its way through the bus.
use qml_and_bgfx_testbridge.Prelude.{ℕ, ◌<◌, ◌^◌, ◌≡◌, refl, ap, Bool, String, arith}
use qml_and_bgfx_testbridge.Prelude.Int.{pos, negsuc, wrap, signed}
use qml_and_bgfx_testbridge.Json.{Json, null, boolean, integer, float, string}
use qml_and_bgfx_testbridge.Endpoint.{variant_to_json, json_to_variant}

-- The values that a `QVariant` of the bus can stand for.
pub data IsScalar : Json → Type 0 where
  is_null : IsScalar null
  is_boolean : (b : Bool) → IsScalar (boolean b)
  is_positive : (n : ℕ) → n < 2 ^ 63 → IsScalar (integer (pos n))
  is_negative : (n : ℕ) → n < 2 ^ 63 → IsScalar (integer (negsuc n))
  is_float : (bits : ℕ) → IsScalar (float bits)
  is_string : (s : String) → IsScalar (string s)

-- A scalar payload, its integers within 64 bits with the sign, comes out of the bus as it went in.
pub variant_to_json-json_to_variant :
    (dump : Json → String) (j : Json) → IsScalar j → variant_to_json (json_to_variant dump j) ≡ j
unfolding variant_to_json json_to_variant
variant_to_json-json_to_variant dump _ is_null = refl
variant_to_json-json_to_variant dump _ (is_boolean b) = refl
variant_to_json-json_to_variant dump _ (is_positive n low) =
    let e : signed 64 (wrap 64 (pos n)) ≡ pos n = ground arith in ap integer e
variant_to_json-json_to_variant dump _ (is_negative n low) =
    let e : signed 64 (wrap 64 (negsuc n)) ≡ negsuc n = ground arith in ap integer e
variant_to_json-json_to_variant dump _ (is_float bits) = refl
variant_to_json-json_to_variant dump _ (is_string s) = refl
