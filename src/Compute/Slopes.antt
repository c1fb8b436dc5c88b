-- ===== src/Compute/Slopes.antt =====
-- terrain_cpu_compute.cpp, `cpuGenerateSmap`: the slopes at each texel from its four neighbours.
use qml_and_bgfx_testbridge.Prelude.{
  ℕ, zero, suc, ◌+◌, ◌-◌, ◌*◌, ◌%◌, ◌^◌, ◌<◌, ◌≡◌, refl, ◌∙◌, List, [], ◌∷◌, ◌++◌, Option, none,
  some, ltb, get_elem?, length, length-append, subst, if◌then◌else◌, arith,
}
use qml_and_bgfx_testbridge.Prelude.Int.{ℤ, pos, wrap}
use qml_and_bgfx_testbridge.Compute.{Floats, ◌>>=◌}

-- So many zeros, before the guard, or the slopes; a negative side goes into the count as an uint64_t.
pub data Smap (F : Type 0) : Type 0 where
  zeros : ℕ → Smap F
  slopes : List F → Smap F

-- `std::min(side - 1, std::max(0, x))` at x, x - 1 and x + 1, for 0 ≤ x.
abbrev pub clamped : ℕ → ℕ → ℕ
clamped side x = if ltb x side then x else side - 1

module _ (fl : Floats) (dmap : List fl.F) (width height : ℕ) where
  unfoldable pub sample : ℕ → ℕ → Option fl.F
  sample x y = get_elem? dmap (clamped height y * width + clamped width x)

  -- `sample(i - 1, j)` with i = 0 is `sample(0, j)`, as ℕ subtracts.
  unfoldable pub texel : ℕ → ℕ → Option (List fl.F)
  texel i j = do
    let half_of = λ (n : ℕ). fl.times (fl.of_int (pos n)) fl.half
    left ← sample (i - 1) j
    right ← sample (i + 1) j
    below ← sample i (j - 1)
    above ← sample i (j + 1)
    some (
        fl.times (half_of width) (fl.minus right left)
        ∷ fl.times (half_of height) (fl.minus above below)
        ∷ fl.of_int (pos 0)
        ∷ fl.of_int (pos 0)
        ∷ [])

  -- The columns of a row from i on, and the rows from j on.
  unfoldable pub row : ℕ → ℕ → ℕ → Option (List fl.F)
  row zero i j = some []
  row (suc left) i j = do t ← texel i j; rest ← row left (suc i) j; some (t ++ rest)

  unfoldable pub rows : ℕ → ℕ → Option (List fl.F)
  rows zero j = some []
  rows (suc left) j = do r ← row width 0 j; rest ← rows left (suc j); some (r ++ rest)

module _ (fl : Floats) where
  abbrev pub slopes_of : Option (List fl.F) → Option (Smap fl.F)
  slopes_of none = none
  slopes_of (some r) = some (slopes r)

  -- `dmap` may be the null pointer.
  unfoldable pub generate_smap : Option (List fl.F) → ℤ → ℤ → Option (Smap fl.F)
  generate_smap (some dmap) (pos (suc w)) (pos (suc h)) =
      slopes_of (rows fl dmap (suc w) (suc h) (suc h) 0)
  generate_smap dmap width height = some (zeros (wrap 64 width * wrap 64 height * 4 % 2 ^ 64))

pub get_elem?-some {ℓ} :
    {A : Type ℓ} (xs : List A) (i : ℕ) → i < length xs → (a : A) × (get_elem? xs i ≡ some a)
get_elem?-some [] i h = absurd (omega arith)
get_elem?-some (x ∷ xs) zero h = (x, refl)
get_elem?-some (x ∷ xs) (suc i) h = get_elem?-some xs i (omega arith)

module _ (fl : Floats) (dmap : List fl.F) (width height : ℕ)
    (full : length dmap ≡ width * height) where
  -- A list of n numbers.
  abbrev Many : ℕ → Option (List fl.F) → Type 0
  Many n none = ⊥
  Many n (some xs) = length xs ≡ n

  sample_read :
      (x y : ℕ) → 0 < width → 0 < height → (a : fl.F) × (sample fl dmap width height x y ≡ some a)
  unfolding sample
  sample_read x y w h =
      let row_in : clamped height y < height = ground arith in
      let column_in : clamped width x < width = ground arith in
      let inside : clamped height y * width + clamped width x < length dmap = grind arith in
      get_elem?-some dmap (clamped height y * width + clamped width x) inside

  Many-join :
      (a b : ℕ) (o p : Option (List fl.F))
      → Many a o
      → Many b p
      → Many (a + b) (o >>= λ t. p >>= λ rest. some (t ++ rest))
  Many-join a b none p h k = absurd h
  Many-join a b (some xs) none h k = absurd k
  Many-join a b (some xs) (some ys) h k = omega (arith, length-append xs ys)

  module _ (w : 0 < width) (h : 0 < height) where
    texel-Many : (i j : ℕ) → Many 4 (texel fl dmap width height i j)
    unfolding texel
    texel-Many i j =
        let (l, e1) = sample_read (i - 1) j w h in
        let (r, e2) = sample_read (i + 1) j w h in
        let (b, e3) = sample_read i (j - 1) w h in
        let (a, e4) = sample_read i (j + 1) w h in rw (e1, e2, e3, e4) refl

    row-Many : (left i j : ℕ) → Many (left * 4) (row fl dmap width height left i j)
    unfolding row
    row-Many zero i j = omega arith
    row-Many (suc left) i j =
        let joined =
          Many-join 4 (left * 4) (texel fl dmap width height i j)
            (row fl dmap width height left (suc i) j) (texel-Many i j) (row-Many left (suc i) j) in
        let e : 4 + left * 4 ≡ suc left * 4 = omega arith in
        subst (λ n. Many n (row fl dmap width height (suc left) i j)) e joined

    rows-Many : (left j : ℕ) → Many (left * (width * 4)) (rows fl dmap width height left j)
    unfolding rows
    rows-Many zero j = omega arith
    rows-Many (suc left) j =
        let joined =
          Many-join (width * 4) (left * (width * 4)) (row fl dmap width height width 0 j)
            (rows fl dmap width height left (suc j)) (row-Many width 0 j)
            (rows-Many left (suc j)) in
        let e : width * 4 + left * (width * 4) ≡ suc left * (width * 4) = grind arith in
        subst (λ n. Many n (rows fl dmap width height (suc left) j)) e joined

-- The map of slopes of a height map that fills its sides is made without a read out of bounds, and has four numbers for
-- each texel.
abbrev pub Filled : {F : Type 0} → ℕ → Option (Smap F) → Type 0
Filled n none = ⊥
Filled n (some (zeros k)) = k ≡ n
Filled n (some (slopes xs)) = length xs ≡ n

module _ (fl : Floats) where
  Filled-slopes :
      (n m : ℕ) (dmap : List fl.F) (width height : ℕ) (full : length dmap ≡ width * height)
      (o : Option (List fl.F))
      → Many fl dmap width height full n o
      → n ≡ m
      → Filled m (slopes_of fl o)
  Filled-slopes n m dmap width height full none h e = absurd h
  Filled-slopes n m dmap width height full (some xs) h e = h ∙ e

  -- For sides of any size above 0, and a height map that fills them, each read of a neighbour lies in the map, and
  -- there are four numbers for each texel.
  pub generate_smap-Filled :
      (dmap : List fl.F) (w h : ℕ)
      → length dmap ≡ suc w * suc h
      → Filled (suc w * suc h * 4) (generate_smap fl (some dmap) (pos (suc w)) (pos (suc h)))
  unfolding generate_smap
  generate_smap-Filled dmap w h full =
      Filled-slopes (suc h * (suc w * 4)) (suc w * suc h * 4) dmap (suc w) (suc h) full
        (rows fl dmap (suc w) (suc h) (suc h) 0)
        (rows-Many fl dmap (suc w) (suc h) full (omega arith) (omega arith) (suc h) 0) (grind arith)
