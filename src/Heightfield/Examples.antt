-- ===== src/Heightfield/Examples.antt =====
-- Tests of heightfield_asset.cpp, and its theorems at inputs.
use qml_and_bgfx_testbridge.Prelude.{
  ℕ, ◌+◌, ◌*◌, ◌-◌, some, ◌/◌, ◌≡◌, refl, true, false, [], ◌∷◌, ltb, leb, if◌then◌else◌, arith,
}
use qml_and_bgfx_testbridge.Prelude.Int.{ℤ, pos, negsuc}
use qml_and_bgfx_testbridge.Heightfield.{
  Floats, HeightfieldLoadOptions, success, raw_r16, normalized_unsigned, aspect, load_raw_r16,
  read_u16, read_i16, infer_square_dimensions,
}
use qml_and_bgfx_testbridge.Heightfield.Samples.{write_all, load_raw_r16-write_all}

-- Numbers without a sign or a fraction, and a root that is right up to four.
abbrev of_int : ℤ → ℕ
of_int (pos n) = n
of_int (negsuc n) = 0

abbrev naturals : Floats
naturals = record {
  F = ℕ;
  of_int = of_int;
  infinity = 65536;
  minus_infinity = 0;
  nan = 65536;
  less = ltb;
  is_finite = λ a. ltb a 65536;
  plus = λ a b. a + b;
  minus = λ a b. a - b;
  times = λ a b. a * b;
  over = λ a b. a / b;
  half = 0;
  display_scale = 1;
  to_u16 = λ a. a;
  rounded_root = λ n. if leb 4 n then 2 else if leb 1 n then 1 else 0;
}

abbrev options : HeightfieldLoadOptions
options = record { raw_width = 2; raw_height = 1; raw_big_endian = true; raw_signed = false }

negative : read_i16 true 255 254 ≡ negsuc 1
unfolding read_i16 read_u16
negative = refl

square_of_four : infer_square_dimensions naturals 4 ≡ some (2, 2)
unfolding infer_square_dimensions
square_of_four = refl

load_raw_r16-write_all_example :
    load_raw_r16 naturals "a.r16" (write_all true (258 ∷ 772 ∷ [])) options
    ≡ success (record {
      path = "a.r16";
      format_name = "RAW_R16";
      encoding = raw_r16;
      sample_type = normalized_unsigned;
      width = 2;
      height = 1;
      height_min = 0;
      height_max = 1;
      aspect_ratio = aspect naturals 2 1;
      samples = 258 ∷ 772 ∷ [];
    })
load_raw_r16-write_all_example =
    load_raw_r16-write_all naturals "a.r16" options (258 ∷ 772 ∷ [])
      (omega arith, (omega arith, tt)) refl refl refl
