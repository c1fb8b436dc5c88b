-- ===== src/Compute/Decode.antt =====
-- terrain_cpu_compute.cpp, `decodePixel` and `cpuDecodeAndNormalizeHeightfield`.
use qml_and_bgfx_testbridge.Prelude.{
  ℕ, ◌+◌, ◌*◌, ◌/◌, ◌%◌, ◌^◌, ◌<◌, ◌≡◌, refl, Bool, true, false, not, ◌||◌, List, [], ◌∷◌, map,
  ◌==◌, if◌then◌else◌, length, replicate, arith, Bool-cases, inl, inr,
}
use qml_and_bgfx_testbridge.Prelude.Int.{ℤ, pos, negsuc, signed, eq_ℤ}
use qml_and_bgfx_testbridge.Compute.{Floats, min_f, max_f, le_f, is_valid_float}

-- Four bytes of the raw image.
pub record Pixel : Type 0 where
  pub px0 : ℕ
  pub px1 : ℕ
  pub px2 : ℕ
  pub px3 : ℕ

-- The bytes do not overlap, so that `|` is their sum.
abbrev pub pack : ℕ → ℕ → ℕ → ℕ → ℕ
pack o0 o1 o2 o3 = o0 + o1 * 2 ^ 8 + o2 * 2 ^ 16 + o3 * 2 ^ 24

-- `packed`, with b0, b1, b2, b3 as the channels B, G, R and A of the order.
unfoldable pub packed : Pixel → ℕ → Bool → ℕ
packed px order_id raw_is_bgra =
    let r = if raw_is_bgra then px.px2 else px.px0 in
    let b = if raw_is_bgra then px.px0 else px.px2 in
    let g = px.px1 in
    let a = px.px3 in
    if order_id == 1
    then pack r g b a
    else if order_id == 2
    then pack a r g b
    else if order_id == 3
    then pack a b g r
    else pack b g r a

unfoldable pub is_int_sentinel : ℤ → Bool
is_int_sentinel v = eq_ℤ v (negsuc 999999) || eq_ℤ v (pos 1000000) || eq_ℤ v (negsuc 499999)

module _ (fl : Floats) where
  abbrev pub is_invalid_sentinel : fl.F → Bool
  is_invalid_sentinel v =
      fl.equal v (fl.of_int (negsuc 999999))
      || fl.equal v (fl.of_int (pos 1000000))
      || fl.equal v (fl.of_int (negsuc 499999))

  -- A height as the two modes read it.
  abbrev pub read_int : ℕ → fl.F
  read_int p =
      let v = signed 32 p in
      if is_int_sentinel v then fl.nan else fl.over (fl.of_int v) (fl.of_int (pos 100))

  abbrev pub read_float : ℕ → fl.F
  read_float p = let f = fl.of_bits p in if is_invalid_sentinel f then fl.nan else f

  unfoldable pub decode_pixel : Pixel → ℕ → ℕ → Bool → fl.F
  decode_pixel px decode_mode order_id raw_is_bgra =
      let p = packed px order_id raw_is_bgra in
      if decode_mode == 0 then read_int p else read_float p

  -- `minVal` and `maxVal` over the heights.
  unfoldable pub height_range : List fl.F → fl.F × fl.F → fl.F × fl.F
  height_range [] s = s
  height_range (h ∷ hs) (low, high) = height_range hs (
      if is_valid_float fl h
      then (if fl.less h low then h else low, if fl.less high h then h else high)
      else (low, high))

  abbrev pub unit_clamp : fl.F → fl.F
  unit_clamp v = min_f fl (fl.of_int (pos 1)) (max_f fl (fl.of_int (pos 0)) v)

  unfoldable pub normalize_height : fl.F → fl.F → Bool → fl.F → fl.F
  normalize_height low range shift h =
      let invalid_norm =
        if shift then unit_clamp (fl.over (fl.negative low) range) else fl.of_int (pos 0) in
      let norm =
        if is_valid_float fl h
        then unit_clamp (fl.over (if shift then fl.minus h low else h) range)
        else invalid_norm in
      fl.over (fl.floor (fl.times norm (fl.of_int (pos 65535)))) (fl.of_int (pos 65535))

  -- The normalized heights with `outMin` and `outMax`, from the pixels of the image.
  unfoldable pub decode_and_normalize : List Pixel → ℕ → ℕ → Bool → List fl.F × fl.F × fl.F
  decode_and_normalize pixels decode_mode order_id raw_is_bgra =
      let zero_f = fl.of_int (pos 0) in
      let heights = map (λ px. decode_pixel px decode_mode (order_id % 4) raw_is_bgra) pixels in
      let (low, high) = height_range heights (fl.infinity, fl.minus_infinity) in
      let shift = fl.less low zero_f in
      let range = if shift then fl.minus high low else high in
      let flat = replicate (length pixels) zero_f in
      if not (is_valid_float fl low) || not (is_valid_float fl high) || le_f fl high low
      then (flat, zero_f, zero_f)
      else if le_f fl range zero_f
      then (flat, low, high)
      else (map (normalize_height low range shift) heights, low, high)

-- A number as a pixel, of which an order and a layout read it.
abbrev pub laid_out : Bool → ℕ → ℕ → ℕ → ℕ → Pixel
laid_out true b g r a = record { px0 = b; px1 = g; px2 = r; px3 = a }
laid_out false b g r a = record { px0 = r; px1 = g; px2 = b; px3 = a }

abbrev pub encode_pixel : ℕ → ℕ → Bool → Pixel
encode_pixel p order_id bgra =
    let x = p % 2 ^ 8 in
    let y = p / 2 ^ 8 % 2 ^ 8 in
    let z = p / 2 ^ 16 % 2 ^ 8 in
    let w = p / 2 ^ 24 % 2 ^ 8 in
    if order_id == 1
    then laid_out bgra z y x w
    else if order_id == 2
    then laid_out bgra w z y x
    else if order_id == 3
    then laid_out bgra y z w x
    else laid_out bgra x y z w

pack_bytes :
    (p : ℕ)
    → p < 2 ^ 32
    → pack (p % 2 ^ 8) (p / 2 ^ 8 % 2 ^ 8) (p / 2 ^ 16 % 2 ^ 8) (p / 2 ^ 24 % 2 ^ 8) ≡ p
pack_bytes p h = omega arith

packed-encode_pixel :
    (p order_id : ℕ) (bgra : Bool)
    → p < 2 ^ 32
    → packed (encode_pixel p order_id bgra) order_id bgra ≡ p
unfolding packed
packed-encode_pixel p order_id true h = elim (Bool-cases (order_id == 1)) [
  | inl one ↦ rw one (pack_bytes p h)
  | inr not_one ↦ rw not_one (elim (Bool-cases (order_id == 2)) [
    | inl two ↦ rw two (pack_bytes p h)
    | inr not_two ↦ rw not_two (elim (Bool-cases (order_id == 3)) [
      | inl three ↦ rw three (pack_bytes p h)
      | inr other ↦ rw other (pack_bytes p h)
    ])
  ])
]
packed-encode_pixel p order_id false h = elim (Bool-cases (order_id == 1)) [
  | inl one ↦ rw one (pack_bytes p h)
  | inr not_one ↦ rw not_one (elim (Bool-cases (order_id == 2)) [
    | inl two ↦ rw two (pack_bytes p h)
    | inr not_two ↦ rw not_two (elim (Bool-cases (order_id == 3)) [
      | inl three ↦ rw three (pack_bytes p h)
      | inr other ↦ rw other (pack_bytes p h)
    ])
  ])
]

-- A height that is laid out in the order and the layout of an image is read back, as a number of hundredths or as the bit
-- pattern of a float, whichever the mode is.
pub decode_pixel-encode_pixel :
    (fl : Floats) (p decode_mode order_id : ℕ) (bgra : Bool)
    → p < 2 ^ 32
    → decode_pixel fl (encode_pixel p order_id bgra) decode_mode order_id bgra
      ≡ (if decode_mode == 0 then read_int fl p else read_float fl p)
unfolding decode_pixel
decode_pixel-encode_pixel fl p decode_mode order_id bgra h =
    rw (packed-encode_pixel p order_id bgra h) refl
