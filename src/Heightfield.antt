-- ===== src/Heightfield.antt =====
-- src/engine/terrain/heightfield_asset.h and .cpp: the decoding of RAW R16 and of SRTM HGT files. The numbers of
-- `float` and `double` are a parameter with the operations that the code uses; `uint32_t(sqrt(n) + 0.5)` is one
-- of them. On an error only its text is kept of the result.
pub mod Samples
mod Examples
use qml_and_bgfx_testbridge.Prelude.{
  ℕ, suc, ◌+◌, ◌*◌, ◌/◌, ◌%◌, ◌^◌, Bool, true, false, not, ◌||◌, ◌&&◌, List, [], ◌∷◌, map, Option,
  none, some, String, ◌==◌, ltb, if◌then◌else◌, length,
}
use qml_and_bgfx_testbridge.Prelude.Int.{ℤ, pos, negsuc, signed, eq_ℤ}

pub record Floats : Type 1 where
  pub F : Type 0
  pub of_int : ℤ → F
  pub infinity : F
  pub minus_infinity : F
  pub nan : F
  pub less : F → F → Bool
  pub is_finite : F → Bool
  pub plus : F → F → F
  pub minus : F → F → F
  pub times : F → F → F
  pub over : F → F → F
  pub half : F  -- 0.5f
  pub display_scale : F  -- kUnitlessDisplayScale
  pub to_u16 : F → ℕ
  pub rounded_root : ℕ → ℕ

pub data HeightfieldEncoding : Type 0 where
  unknown image raw_r16 srtm_hgt : HeightfieldEncoding

pub data HeightSampleType : Type 0 where
  normalized_unsigned elevation_meters : HeightSampleType

pub record HeightfieldLoadOptions : Type 0 where
  pub raw_width : ℕ  -- uint32_t
  pub raw_height : ℕ  -- uint32_t
  pub raw_big_endian : Bool
  pub raw_signed : Bool

pub record HeightfieldAsset (F : Type 0) : Type 0 where
  pub path : String
  pub format_name : String
  pub encoding : HeightfieldEncoding
  pub sample_type : HeightSampleType
  pub width : ℕ
  pub height : ℕ
  pub height_min : F
  pub height_max : F
  pub aspect_ratio : F
  pub samples : List ℕ

pub data HeightfieldLoadResult (F : Type 0) : Type 0 where
  error : String → HeightfieldLoadResult F
  success : HeightfieldAsset F → HeightfieldLoadResult F

-- The two halves of a sample do not overlap, so that `|` is their sum.
unfoldable pub read_u16 : Bool → ℕ → ℕ → ℕ
read_u16 big_endian p0 p1 =
    if big_endian then (p0 * 2 ^ 8 + p1) % 2 ^ 16 else (p1 * 2 ^ 8 + p0) % 2 ^ 16

unfoldable pub read_i16 : Bool → ℕ → ℕ → ℤ
read_i16 big_endian p0 p1 = signed 16 (read_u16 big_endian p0 p1)

-- The loops over the samples, with the reader of one.
unfoldable pub read_all : {A : Type 0} → (ℕ → ℕ → A) → List ℕ → List A
read_all read [] = []
read_all read (p0 ∷ []) = []
read_all read (p0 ∷ p1 ∷ rest) = read p0 p1 ∷ read_all read rest

module _ (fl : Floats) where
  unfoldable pub infer_square_dimensions : ℕ → Option (ℕ × ℕ)
  infer_square_dimensions count =
      let dim = fl.rounded_root count in
      if dim * dim == count && ltb 0 dim then some (dim, dim) else none

  -- `std::min` and `std::max`.
  abbrev pub min_f : fl.F → fl.F → fl.F
  min_f a b = if fl.less b a then b else a

  abbrev pub max_f : fl.F → fl.F → fl.F
  max_f a b = if fl.less a b then b else a

  -- The least and the greatest value that a loop over the samples finds; a void sample is passed over.
  unfoldable pub bounds : fl.F → fl.F → List (Option ℤ) → fl.F × fl.F
  bounds low high [] = (low, high)
  bounds low high (none ∷ vs) = bounds low high vs
  bounds low high (some v ∷ vs) = bounds (min_f low (fl.of_int v)) (max_f high (fl.of_int v)) vs

  abbrev pub value_of : Option ℤ → fl.F
  value_of none = fl.nan
  value_of (some v) = fl.of_int v

  unfoldable pub normalize_sample : fl.F → fl.F → fl.F → ℕ
  normalize_sample low range v =
      let one = fl.of_int (pos 1) in
      let n = max_f (fl.of_int (pos 0)) (min_f one (fl.over (fl.minus v low) range)) in
      if fl.is_finite v then fl.to_u16 (fl.plus (fl.times n (fl.of_int (pos 65535))) fl.half) else 0

  unfoldable pub normalize_float_samples : List fl.F → fl.F → fl.F → List ℕ
  normalize_float_samples values low high =
      let range = fl.minus high low in
      if fl.less (fl.of_int (pos 0)) range
      then map (normalize_sample low range) values
      else map (λ v. 0) values

  abbrev pub aspect : ℕ → ℕ → fl.F
  aspect width height =
      if ltb 0 height
      then fl.over (fl.of_int (pos width)) (fl.of_int (pos height))
      else fl.of_int (pos 1)

  -- The end of `loadRawR16`, with dimensions that fit.
  unfoldable pub raw_r16_asset :
      String → List ℕ → HeightfieldLoadOptions → ℕ → ℕ → HeightfieldAsset fl.F
  raw_r16_asset path bytes options width height =
      let values = map some (read_all (read_i16 options.raw_big_endian) bytes) in
      let (low, high) = bounds fl.infinity fl.minus_infinity values in
      let signed_asset : HeightfieldAsset fl.F = record {
        path = path;
        format_name = "RAW_R16";
        encoding = raw_r16;
        sample_type = elevation_meters;
        width = width;
        height = height;
        height_min = low;
        height_max = high;
        aspect_ratio = aspect width height;
        samples = normalize_float_samples (map value_of values) low high;
      } in
      let unitless_asset : HeightfieldAsset fl.F = record {
        path = path;
        format_name = "RAW_R16";
        encoding = raw_r16;
        sample_type = normalized_unsigned;
        width = width;
        height = height;
        height_min = fl.of_int (pos 0);
        height_max = fl.display_scale;
        aspect_ratio = aspect width height;
        samples = read_all (read_u16 options.raw_big_endian) bytes;
      } in
      if options.raw_signed then signed_asset else unitless_asset

  -- The dimensions given, or those of a square.
  unfoldable pub raw_dimensions : HeightfieldLoadOptions → ℕ → Option (ℕ × ℕ)
  raw_dimensions options count =
      if options.raw_width == 0 || options.raw_height == 0
      then infer_square_dimensions count
      else some (options.raw_width, options.raw_height)

  unfoldable pub load_with :
      String → List ℕ → HeightfieldLoadOptions → Option (ℕ × ℕ) → HeightfieldLoadResult fl.F
  load_with path bytes options none =
      error "RAW R16 dimensions were not provided and sample count is not square"
  load_with path bytes options (some (width, height)) =
      if width * height == length bytes / 2
      then success (raw_r16_asset path bytes options width height)
      else error "RAW R16 dimensions do not match file size"

  unfoldable pub load_raw_r16 :
      String → List ℕ → HeightfieldLoadOptions → HeightfieldLoadResult fl.F
  load_raw_r16 path bytes options =
      if length bytes % 2 == 0
      then load_with path bytes options (raw_dimensions options (length bytes / 2))
      else error "RAW R16 byte count is not even"

  -- `kSrtmVoidSample`
  abbrev pub valid_sample : ℕ → ℕ → Option ℤ
  valid_sample p0 p1 = let v = read_i16 true p0 p1 in if eq_ℤ v (negsuc 32767) then none else some v

  unfoldable pub load_square : String → List ℕ → Option (ℕ × ℕ) → HeightfieldLoadResult fl.F
  load_square path bytes none = error "HGT sample count is not square"
  load_square path bytes (some (width, height)) =
      let values = read_all valid_sample bytes in
      let (low, high) = bounds fl.infinity fl.minus_infinity values in
      if not (fl.is_finite low) || not (fl.is_finite high)
      then error "HGT contains no valid elevation samples"
      else success (record {
        path = path;
        format_name = "SRTM_HGT";
        encoding = srtm_hgt;
        sample_type = elevation_meters;
        width = width;
        height = height;
        height_min = low;
        height_max = high;
        aspect_ratio = fl.of_int (pos 1);
        samples = normalize_float_samples (map value_of values) low high;
      })

  unfoldable pub load_srtm_hgt : String → List ℕ → HeightfieldLoadResult fl.F
  load_srtm_hgt path bytes =
      if length bytes % 2 == 0
      then load_square path bytes (infer_square_dimensions (length bytes / 2))
      else error "HGT byte count is not even"
