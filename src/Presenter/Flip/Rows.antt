-- ===== src/Presenter/Flip/Rows.antt =====
-- readback_presenter.cpp, `flipImageVertical`: what the swaps do to each byte of the picture.
use qml_and_bgfx_testbridge.Prelude.{
  ℕ, zero, suc, ◌+◌, ◌-◌, ◌*◌, ◌/◌, ◌<◌, ◌≤◌, ◌≡◌, ◌≢◌, refl, sym, Option, ◌∙◌, ap, inl, inr, ◌⊎◌,
  ◌&&◌, ◌||◌, List, ◌++◌, take, drop, length, get_elem?, ltb, leb, ◌==◌, if◌then◌else◌,
  length-append, length-take, length-drop, arith,
}
use qml_and_bgfx_testbridge.Prelude.Int.{ℤ, pos, negsuc}
use qml_and_bgfx_testbridge.Prelude.Index.{
  get_elem?-take, get_elem?-drop, get_elem?-append, rows-apart,
}
use qml_and_bgfx_testbridge.Presenter.Flip.{
  read_at, write_at, swap_rows, flip_loop, flip_image_vertical,
}

length-write_at :
    (off : ℕ) (bytes image : List ℕ)
    → off + length bytes ≤ length image
    → length (write_at off bytes image) ≡ length image
length-write_at off bytes image fits =
    let same : write_at off bytes image
        ≡ take off image ++ bytes ++ drop (off + length bytes) image =
      refl in
    omega (
      arith,
      ap length same,
      length-append (take off image ++ bytes) (drop (off + length bytes) image),
      length-append (take off image) bytes,
      length-take off image,
      length-drop (off + length bytes) image,
    )

length-read_at :
    (off n : ℕ) (image : List ℕ) → off + n ≤ length image → length (read_at off n image) ≡ n
length-read_at off n image fits =
    omega (arith, length-take n (drop off image), length-drop off image)

get_elem?-read_at :
    (off n : ℕ) (image : List ℕ) (k : ℕ)
    → k < n
    → get_elem? (read_at off n image) k ≡ get_elem? image (off + k)
get_elem?-read_at off n image k h =
    ground (arith, get_elem?-take n (drop off image) k, get_elem?-drop off image k)

get_elem?-write_at :
    (off : ℕ) (bytes image : List ℕ) (k : ℕ)
    → off + length bytes ≤ length image
    → get_elem? (write_at off bytes image) k ≡ (
        if leb off k && ltb k (off + length bytes)
        then get_elem? bytes (k - off)
        else get_elem? image k)
get_elem?-write_at off bytes image k fits =
    let after = drop (off + length bytes) image in
    let same : write_at off bytes image ≡ take off image ++ bytes ++ after = refl in
    let whole = ap (λ xs. get_elem? xs k) same in
    ground (
      arith,
      get_elem?-append (take off image ++ bytes) after k,
      get_elem?-append (take off image) bytes k,
      length-append (take off image) bytes,
      length-take off image,
      get_elem?-take off image k,
      get_elem?-drop (off + length bytes) image (k - off - length bytes),
    )

module _ (n : ℕ) where
  -- A row that is written, and another.
  write_row_self :
      (z c : ℕ) (bytes image : List ℕ)
      → length bytes ≡ n
      → z * n + n ≤ length image
      → c < n
      → get_elem? (write_at (z * n) bytes image) (z * n + c) ≡ get_elem? bytes c
  write_row_self z c bytes image len fits inside =
      let k : z * n + c - z * n ≡ c = omega arith in
      let at = ap (get_elem? bytes) k in
      let here = get_elem?-write_at (z * n) bytes image (z * n + c) (omega arith) in ground arith

  write_row_other :
      (z r c : ℕ) (bytes image : List ℕ)
      → length bytes ≡ n
      → z * n + n ≤ length image
      → c < n
      → r ≢ z
      → get_elem? (write_at (z * n) bytes image) (r * n + c) ≡ get_elem? image (r * n + c)
  write_row_other z r c bytes image len fits inside other =
      let here = get_elem?-write_at (z * n) bytes image (r * n + c) (omega arith) in
      elim (trichotomy r z) [
        | inl below ↦ let apart = rows-apart n r z below in ground arith
        | inr (inl same) ↦ absurd (other same)
        | inr (inr above) ↦ let apart = rows-apart n z r above in ground arith
      ]
    where
      trichotomy : (a b : ℕ) → (a < b) ⊎ (a ≡ b) ⊎ (b < a)
      trichotomy a b = ground arith

  abbrev pub swapped : ℕ → ℕ → ℕ → ℕ
  swapped y z r = if r == z then y else if r == y then z else r

  length-swap_rows :
      (y z : ℕ) (image : List ℕ)
      → y * n + n ≤ length image
      → z * n + n ≤ length image
      → length (swap_rows n y z image) ≡ length image
  unfolding swap_rows
  length-swap_rows y z image fy fz =
      let a = length-read_at (z * n) n image fz in
      let b = length-read_at (y * n) n image fy in
      let upper = length-write_at (y * n) (read_at (z * n) n image) image (omega arith) in
      omega (
        arith,
        length-write_at (z * n) (read_at (y * n) n image)
            (write_at (y * n) (read_at (z * n) n image) image) (omega arith),
      )

  get_elem?-swap_rows :
      (y z r c : ℕ) (image : List ℕ)
      → y * n + n ≤ length image
      → z * n + n ≤ length image
      → c < n
      → get_elem? (swap_rows n y z image) (r * n + c) ≡ get_elem? image (swapped y z r * n + c)
  unfolding swap_rows
  get_elem?-swap_rows y z r c image fy fz inside =
      let lower = read_at (z * n) n image in
      let row_buf = read_at (y * n) n image in
      let upper = write_at (y * n) lower image in
      let la = length-read_at (z * n) n image fz in
      let lb = length-read_at (y * n) n image fy in
      let lu = length-write_at (y * n) lower image (omega arith) in
      let at : ℕ → Option ℕ = λ t. get_elem? image (t * n + c) in
      let written : ℕ → Option ℕ = λ t. get_elem? (swap_rows n y z image) (t * n + c) in
      elim (decide r z) [
        | inl e ↦
            let goes : swapped y z r ≡ y = ground arith in
            ap written e
            ∙ write_row_self z c row_buf upper lb (omega arith) inside
            ∙ get_elem?-read_at (y * n) n image c inside
            ∙ ap at (sym goes)
        | inr e ↦
            let up = write_row_other z r c row_buf upper lb (omega arith) inside e in
            elim (decide r y) [
              | inl e' ↦
                  let goes : swapped y z r ≡ z = ground arith in
                  up
                  ∙ ap (λ t. get_elem? upper (t * n + c)) e'
                  ∙ write_row_self y c lower image la fy inside
                  ∙ get_elem?-read_at (z * n) n image c inside
                  ∙ ap at (sym goes)
              | inr e' ↦
                  let goes : swapped y z r ≡ r = ground arith in
                  up ∙ write_row_other y r c lower image la fy inside e' ∙ ap at (sym goes)
            ]
      ]
    where
      decide : (a b : ℕ) → (a ≡ b) ⊎ (a ≢ b)
      decide a b = ground arith

  -- The rows that the passes of the loop from y on have turned.
  abbrev pub turned : ℕ → ℕ → ℕ → ℕ → ℕ
  turned left y height r =
      if (leb y r && ltb r (y + left)) || (ltb r (height - y) && leb (height - y - left) r)
      then height - 1 - r
      else r

  flip_loop-turned :
      (left y height r c : ℕ) (image : List ℕ)
      → 2 * (y + left) ≤ height
      → height * n ≤ length image
      → r < height
      → c < n
      → (length (flip_loop left y n height image) ≡ length image)
        × (get_elem? (flip_loop left y n height image) (r * n + c)
            ≡ get_elem? image (turned left y height r * n + c))
  unfolding flip_loop
  flip_loop-turned zero y height r c image half fits low inside =
      let goes : turned zero y height r ≡ r = ground arith in
      (refl, ap (λ t. get_elem? image (t * n + c)) (sym goes))
  flip_loop-turned (suc left) y height r c image half fits low inside =
      let z = height - 1 - y in
      let fy = rows-apart n y height (omega arith) in
      let fz = rows-apart n z height (omega arith) in
      let len = length-swap_rows y z image (omega arith) (omega arith) in
      let next = swap_rows n y z image in
      let ih =
        flip_loop-turned left (suc y) height r c next (omega arith) (omega arith) low inside in
      let r' = turned left (suc y) height r in
      let goes : swapped y z r' ≡ turned (suc left) y height r = ground arith in
      (
        ih.0 ∙ len,
        ih.1
            ∙ get_elem?-swap_rows y z r' c image (omega arith) (omega arith) inside
            ∙ ap (λ t. get_elem? image (t * n + c)) goes,
      )

turned-half : (height r : ℕ) → r < height → turned 0 (height / 2) 0 height r ≡ height - 1 - r
turned-half height r low = ground arith

-- A picture of positive size whose bytes are all there: the flip keeps the length, and puts in every row, byte
-- for byte, the row as far from the other end.
pub get_elem?-flip_image_vertical :
    (image : List ℕ) (width height r c : ℕ)
    → width * 4 * height ≤ length image
    → r < height
    → c < width * 4
    → let flipped = flip_image_vertical image (pos width) (pos height) in
      (length flipped ≡ length image)
      × (get_elem? flipped (r * (width * 4) + c)
          ≡ get_elem? image ((height - 1 - r) * (width * 4) + c))
unfolding flip_image_vertical
get_elem?-flip_image_vertical image width height r c fits low inside =
    let loop =
      flip_loop-turned (width * 4) (height / 2) 0 height r c image (omega arith) (omega arith) low
        inside in
    let at : ℕ → Option ℕ = λ t. get_elem? image (t * (width * 4) + c) in
    let goes = ap at (turned-half height r low) in
    let alone : height ≡ 1 → at r ≡ at (height - 1 - r) =
      λ e. let same : r ≡ height - 1 - r = omega arith in ap at same in
    ground arith

pub length-flip_image_vertical :
    (image : List ℕ) (width height : ℤ)
    → length (flip_image_vertical image width height) ≡ length image
unfolding flip_image_vertical
length-flip_image_vertical image (pos width) (pos height) =
    let loop : 0 < width
        → 1 < height
        → width * 4 * height ≤ length image
        → length (flip_loop (height / 2) 0 (width * 4) height image) ≡ length image =
      λ a b fits.
        (flip_loop-turned (width * 4) (height / 2) 0 height 0 0 image (omega arith) (omega arith)
          (omega arith) (omega arith)).0 in
    ground arith
length-flip_image_vertical image (negsuc width) height = ground arith
length-flip_image_vertical image (pos width) (negsuc height) = ground arith
