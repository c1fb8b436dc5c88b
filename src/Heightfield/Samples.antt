-- ===== src/Heightfield/Samples.antt =====
-- heightfield_asset.cpp, `loadRawR16` and `loadSrtmHgt`: the sizes of what they load, and the samples.
use qml_and_bgfx_testbridge.Prelude.{
  ℕ, ◌+◌, ◌*◌, ◌/◌, ◌%◌, ◌^◌, ◌<◌, ◌≡◌, refl, ◌∙◌, sym, Bool, true, false, not, ◌||◌, ◌&&◌, List,
  [], ◌∷◌, map, Option, none, some, String, ◌==◌, ltb, if◌then◌else◌, length, arith, Bool-cases,
  inl, inr, ==_iff,
}
use qml_and_bgfx_testbridge.Prelude.Lists.{length-map}
use qml_and_bgfx_testbridge.Prelude.Int.{ℤ, pos}
use qml_and_bgfx_testbridge.Heightfield.{
  Floats, HeightfieldLoadOptions, HeightfieldLoadResult, error, success, read_u16, read_all,
  infer_square_dimensions, bounds, value_of, normalize_sample, normalize_float_samples,
  raw_r16_asset, raw_dimensions, load_with, load_raw_r16, raw_r16, normalized_unsigned, aspect,
  valid_sample, load_square, load_srtm_hgt, read_i16,
}

length-read_all :
    {A : Type 0} (read : ℕ → ℕ → A) (bytes : List ℕ)
    → length (read_all read bytes) ≡ length bytes / 2
unfolding read_all
length-read_all read [] = omega arith
length-read_all read (p0 ∷ []) = omega arith
length-read_all read (p0 ∷ p1 ∷ rest) = omega (arith, length-read_all read rest)

-- The bytes of samples.
abbrev pub write_u16 : Bool → ℕ → List ℕ → List ℕ
write_u16 big_endian v rest =
    if big_endian then v / 2 ^ 8 ∷ v % 2 ^ 8 ∷ rest else v % 2 ^ 8 ∷ v / 2 ^ 8 ∷ rest

abbrev pub write_all : Bool → List ℕ → List ℕ
write_all big_endian [] = []
write_all big_endian (v ∷ vs) = write_u16 big_endian v (write_all big_endian vs)

abbrev pub AllU16 : List ℕ → Type 0
AllU16 [] = Unit {0}
AllU16 (v ∷ vs) = (v < 2 ^ 16) × AllU16 vs

read_all-write_all :
    (big_endian : Bool) (vs : List ℕ)
    → AllU16 vs
    → read_all (read_u16 big_endian) (write_all big_endian vs) ≡ vs
unfolding read_all read_u16
read_all-write_all big_endian [] h = refl
read_all-write_all true (v ∷ vs) (low, h) =
    let whole : (v / 2 ^ 8 * 2 ^ 8 + v % 2 ^ 8) % 2 ^ 16 ≡ v = omega arith in
    rw (whole, read_all-write_all true vs h) refl
read_all-write_all false (v ∷ vs) (low, h) =
    let whole : (v / 2 ^ 8 * 2 ^ 8 + v % 2 ^ 8) % 2 ^ 16 ≡ v = omega arith in
    rw (whole, read_all-write_all false vs h) refl

length-write_all :
    (big_endian : Bool) (vs : List ℕ) → length (write_all big_endian vs) ≡ length vs * 2
length-write_all big_endian [] = refl
length-write_all true (v ∷ vs) = omega (arith, length-write_all true vs)
length-write_all false (v ∷ vs) = omega (arith, length-write_all false vs)

module _ (fl : Floats) where
  length-normalize_float_samples :
      (values : List fl.F) (low high : fl.F)
      → length (normalize_float_samples fl values low high) ≡ length values
  unfolding normalize_float_samples
  length-normalize_float_samples values low high =
      elim (Bool-cases (fl.less (fl.of_int (pos 0)) (fl.minus high low))) [
        | inl e ↦ rw e (length-map values (normalize_sample fl low (fl.minus high low)))
        | inr e ↦ rw e (length-map values (λ v. 0))
      ]

  -- What is loaded has as many samples as the file has pairs of bytes, and fills its rectangle.
  abbrev pub Sized : List ℕ → HeightfieldLoadResult fl.F → Type 0
  Sized bytes (error e) = Unit
  Sized bytes (success a) =
      (length a.samples ≡ length bytes / 2) × (a.width * a.height ≡ length a.samples)

  length-normalized_values :
      (values : List (Option ℤ)) (low high : fl.F)
      → length (normalize_float_samples fl (map (value_of fl) values) low high) ≡ length values
  length-normalized_values values low high =
      length-normalize_float_samples (map (value_of fl) values) low high
      ∙ length-map values (value_of fl)

  length-raw_r16_asset :
      (path : String) (bytes : List ℕ) (options : HeightfieldLoadOptions) (width height : ℕ)
      → length (raw_r16_asset fl path bytes options width height).samples ≡ length bytes / 2
  unfolding raw_r16_asset
  length-raw_r16_asset path bytes options width height =
      let values = read_all (read_i16 options.raw_big_endian) bytes in
      let (low, high) = bounds fl fl.infinity fl.minus_infinity (map some values) in
      elim (Bool-cases options.raw_signed) [
        | inl e ↦ rw e (
            length-normalized_values (map some values) low high
            ∙ length-map values some
            ∙ length-read_all (read_i16 options.raw_big_endian) bytes)
        | inr e ↦ rw e (length-read_all (read_u16 options.raw_big_endian) bytes)
      ]

  dims-raw_r16_asset :
      (path : String) (bytes : List ℕ) (options : HeightfieldLoadOptions) (width height : ℕ)
      → (raw_r16_asset fl path bytes options width height).width
          * (raw_r16_asset fl path bytes options width height).height
        ≡ width * height
  unfolding raw_r16_asset
  dims-raw_r16_asset path bytes options width height = elim (Bool-cases options.raw_signed) [
    | inl e ↦ rw e refl
    | inr e ↦ rw e refl
  ]

  load_with-Sized :
      (path : String) (bytes : List ℕ) (options : HeightfieldLoadOptions) (dims : Option (ℕ × ℕ))
      → Sized bytes (load_with fl path bytes options dims)
  unfolding load_with
  load_with-Sized path bytes options none = tt
  load_with-Sized path bytes options (some (width, height)) =
      let counted = length-raw_r16_asset path bytes options width height in
      let sides = dims-raw_r16_asset path bytes options width height in
      elim (Bool-cases (width * height == length bytes / 2)) [
        | inl e ↦
            rw e (counted, sides ∙ (==_iff (width * height) (length bytes / 2)).0 e ∙ sym counted)
        | inr e ↦ rw e tt
      ]

  -- A RAW R16 file is loaded with as many samples as it has pairs of bytes, and they fill its rectangle, whether
  -- the dimensions are given or found, whatever the order of its bytes and signed or not.
  pub load_raw_r16-Sized :
      (path : String) (bytes : List ℕ) (options : HeightfieldLoadOptions)
      → Sized bytes (load_raw_r16 fl path bytes options)
  unfolding load_raw_r16
  load_raw_r16-Sized path bytes options = elim (Bool-cases (length bytes % 2 == 0)) [
    | inl e ↦
        rw e (load_with-Sized path bytes options (raw_dimensions fl options (length bytes / 2)))
    | inr e ↦ rw e tt
  ]

  -- An unsigned file of the bytes of 16-bit samples, in the order that the options say and with the dimensions
  -- given, is loaded with just these samples.
  pub load_raw_r16-write_all :
      (path : String) (options : HeightfieldLoadOptions) (vs : List ℕ)
      → AllU16 vs
      → options.raw_signed ≡ false
      → (options.raw_width == 0 || options.raw_height == 0) ≡ false
      → options.raw_width * options.raw_height ≡ length vs
      → load_raw_r16 fl path (write_all options.raw_big_endian vs) options
        ≡ success (record {
          path = path;
          format_name = "RAW_R16";
          encoding = raw_r16;
          sample_type = normalized_unsigned;
          width = options.raw_width;
          height = options.raw_height;
          height_min = fl.of_int (pos 0);
          height_max = fl.display_scale;
          aspect_ratio = aspect fl options.raw_width options.raw_height;
          samples = vs;
        })
  unfolding load_raw_r16 raw_dimensions load_with raw_r16_asset
  load_raw_r16-write_all path options vs low unsigned given fills =
      let size = length-write_all options.raw_big_endian vs in
      let even : (length (write_all options.raw_big_endian vs) % 2 == 0) ≡ true =
        (==_iff (length (write_all options.raw_big_endian vs) % 2) 0).1 (omega (arith, size)) in
      let halved : length (write_all options.raw_big_endian vs) / 2 ≡ length vs =
        omega (arith, size) in
      let same : (options.raw_width * options.raw_height == length vs) ≡ true =
        (==_iff (options.raw_width * options.raw_height) (length vs)).1 fills in
      rw (even, given, halved, same, unsigned, read_all-write_all options.raw_big_endian vs low)
        refl

  -- Inferred dimensions are equal, not zero, and fit the number of samples.
  abbrev pub Square : ℕ → Option (ℕ × ℕ) → Type 0
  Square count none = Unit
  Square count (some (width, height)) = (width * height ≡ count) × (0 < width) × (height ≡ width)

  infer_square_dimensions-Square : (count : ℕ) → Square count (infer_square_dimensions fl count)
  unfolding infer_square_dimensions
  infer_square_dimensions-Square count =
      let dim = fl.rounded_root count in
      elim (Bool-cases (dim * dim == count && ltb 0 dim)) [
        | inl e ↦ rw e ((==_iff (dim * dim) count).0 (ground arith), ground arith, refl)
        | inr e ↦ rw e tt
      ]

  -- A loaded HGT file is a square with an edge, and full.
  abbrev pub FullSquare : List ℕ → HeightfieldLoadResult fl.F → Type 0
  FullSquare bytes (error e) = Unit
  FullSquare bytes (success a) =
      (length a.samples ≡ length bytes / 2)
      × (a.width * a.height ≡ length a.samples)
      × (0 < a.width)
      × (a.height ≡ a.width)

  load_square-FullSquare :
      (path : String) (bytes : List ℕ) (dims : Option (ℕ × ℕ))
      → Square (length bytes / 2) dims
      → FullSquare bytes (load_square fl path bytes dims)
  unfolding load_square
  load_square-FullSquare path bytes none h = tt
  load_square-FullSquare path bytes (some (width, height)) (fills, edge, same) =
      let values = read_all (valid_sample fl) bytes in
      let (low, high) = bounds fl fl.infinity fl.minus_infinity values in
      let counted =
        length-normalized_values values low high ∙ length-read_all (valid_sample fl) bytes in
      elim (Bool-cases (not (fl.is_finite low) || not (fl.is_finite high))) [
        | inl e ↦ rw e tt
        | inr e ↦ rw e (counted, fills ∙ sym counted, edge, same)
      ]

  -- An HGT file is loaded only as a square with an edge, and with as many samples as it has pairs of bytes,
  -- which fill the square.
  pub load_srtm_hgt-FullSquare :
      (path : String) (bytes : List ℕ) → FullSquare bytes (load_srtm_hgt fl path bytes)
  unfolding load_srtm_hgt
  load_srtm_hgt-FullSquare path bytes = elim (Bool-cases (length bytes % 2 == 0)) [
    | inl e ↦
        let dims = infer_square_dimensions fl (length bytes / 2) in
        rw e (
          load_square-FullSquare path bytes dims
            (infer_square_dimensions-Square (length bytes / 2)))
    | inr e ↦ rw e tt
  ]
