-- ===== src/FrameGraph/Order.antt =====
-- frame_graph.h, `validate`: what the returned flag and the error text say of the order of the passes.
use Prim.Native.Nat.{bit_and, bit_or}
use mathlib.Core.Path.{fun_ext}
use qml_and_bgfx_testbridge.Prelude.{
  ℕ, zero, suc, ◌^◌, ◌<◌, ◌≡◌, refl, ◌↔◌, inl, inr, Bool, true, false, not, ◌&&◌, ◌||◌, [], ◌∷◌,
  some, ap, subst, subst, String, str_append, arith, Bool-cases, get_elem?, take, ◌==◌,
}
use qml_and_bgfx_testbridge.Prelude.Int.{ℤ}
use qml_and_bgfx_testbridge.Prelude.Bits.{
  has_bit, has_bit-bit_and, has_bit-bit_or, bit_not, has_bit-bit_not, bit_or-lt, bit_and-lt,
  has_bit-zero, has_bit_of_pos,
}
use qml_and_bgfx_testbridge.FrameGraph.{
  FramePass, FramePassList, mask_names, produced_from, check_passes, validate, terrain_frame_passes,
}

-- Some pass of the list writes the resource of bit k.
abbrev pub writes_bit : FramePassList → ℕ → Bool
writes_bit [] k = false
writes_bit (p ∷ ps) k = has_bit p.writes k || writes_bit ps k

-- The masks are 32-bit words.
abbrev pub Words : FramePassList → Type 0
Words [] = Unit {0}
Words (p ∷ ps) = (p.reads < 2 ^ 32) × (p.writes < 2 ^ 32) × Words ps

-- What pass i reads, if the list produces it at all, was written by a pass before it.
abbrev pub IsOrdered : FramePassList → Type 0
IsOrdered ps =
    (i k : ℕ) (p : FramePass)
    → get_elem? ps i ≡ some p
    → k < 32
    → has_bit p.reads k ≡ true
    → writes_bit ps k ≡ true
    → writes_bit (take i ps) k ≡ true

has_bit-produced_from :
    (m k : ℕ) (ps : FramePassList)
    → has_bit (produced_from m ps) k ≡ (has_bit m k || writes_bit ps k)
unfolding produced_from
has_bit-produced_from m k [] = ground arith
has_bit-produced_from m k (p ∷ ps) =
    ground (arith, has_bit-produced_from (bit_or m p.writes) k ps, has_bit-bit_or m p.writes k)

-- The bits that a pass lacks.
abbrev missing : ℕ → ℕ → FramePass → ℕ
missing produced available p = bit_and (bit_and p.reads produced) (bit_not 32 available)

has_bit-missing :
    (produced available k : ℕ) (p : FramePass)
    → available < 2 ^ 32
    → k < 32
    → has_bit (missing produced available p) k
      ≡ (has_bit p.reads k && has_bit produced k && not (has_bit available k))
has_bit-missing produced available k p fits h = ground (
  arith,
  has_bit-bit_and (bit_and p.reads produced) (bit_not 32 available) k,
  has_bit-bit_and p.reads produced k,
  has_bit-bit_not 32 k available h fits,
)

-- What pass i reads of the produced resources is available at the start or written by an earlier one.
abbrev pub Covered : (ℕ → Bool) → ℕ → FramePassList → ℕ → FramePass → Type 0
Covered produced available ps i p =
    (k : ℕ)
    → k < 32
    → has_bit p.reads k ≡ true
    → produced k ≡ true
    → (has_bit available k || writes_bit (take i ps) k) ≡ true

abbrev pub message : FramePass → ℕ → String
message p m =
    str_append (str_append (str_append "pass '" p.name) "' reads resource(s) not yet produced: ")
      (mask_names m)

-- Pass i is the first that is not covered, and m holds just the bits that it lacks.
pub record Violation (produced : ℕ → Bool) (available : ℕ) (ps : FramePassList) (i m : ℕ)
    (p : FramePass) : Type 0 where
  pub at : get_elem? ps i ≡ some p
  pub positive : 0 < m
  pub word : m < 2 ^ 32
  pub lacks :
      (k : ℕ)
      → k < 32
      → has_bit m k
        ≡ (has_bit p.reads k && produced k && not (has_bit available k || writes_bit (take i ps) k))
  pub earlier :
      (j : ℕ) (q : FramePass) → j < i → get_elem? ps j ≡ some q → Covered produced available ps j q

abbrev pub Verdict : (ℕ → Bool) → ℕ → FramePassList → Bool × String → Type 0
Verdict produced available ps (true, e) =
    (e ≡ "")
    × ((i : ℕ) (p : FramePass) → get_elem? ps i ≡ some p → Covered produced available ps i p)
Verdict produced available ps (false, e) =
    (i : ℕ) × (m : ℕ) × (p : FramePass) × (e ≡ message p m) × Violation produced available ps i m p

module _ (produced available : ℕ) (fits : available < 2 ^ 32) (p : FramePass) where
  head-Covered :
      (ps : FramePassList)
      → missing produced available p ≡ 0
      → Covered (has_bit produced) available (p ∷ ps) 0 p
  head-Covered ps clean k h r q = ground (
    arith,
    has_bit-missing produced available k p fits h,
    ap (λ m. has_bit m k) clean,
    has_bit-zero k,
  )

  tail-Covered :
      (ps : FramePassList) (i : ℕ) (q : FramePass)
      → Covered (has_bit produced) (bit_or available p.writes) ps i q
      → Covered (has_bit produced) available (p ∷ ps) (suc i) q
  tail-Covered ps i q c k h r w = ground (arith, c k h r w, has_bit-bit_or available p.writes k)

  head-Violation :
      (ps : FramePassList)
      → p.reads < 2 ^ 32
      → 0 < missing produced available p
      → Violation (has_bit produced) available (p ∷ ps) 0 (missing produced available p) p
  head-Violation ps small h = record {
    at = refl;
    positive = h;
    word = bit_and-lt 32 (bit_and p.reads produced) _ (bit_and-lt 32 p.reads produced small);
    lacks = λ k below. ground (arith, has_bit-missing produced available k p fits below);
    earlier = λ j q before. absurd (omega arith);
  }

  tail-Violation :
      (ps : FramePassList) (i m : ℕ) (q : FramePass)
      → missing produced available p ≡ 0
      → Violation (has_bit produced) (bit_or available p.writes) ps i m q
      → Violation (has_bit produced) available (p ∷ ps) (suc i) m q
  tail-Violation ps i m q clean v = record {
    at = v.at;
    positive = v.positive;
    word = v.word;
    lacks = λ k small. ground (arith, v.lacks k small, has_bit-bit_or available p.writes k);
    earlier = λ j r before found. all_earlier j r before found;
  }
    where
      all_earlier :
          (j : ℕ) (r : FramePass)
          → j < suc i
          → get_elem? (p ∷ ps) j ≡ some r
          → Covered (has_bit produced) available (p ∷ ps) j r
      all_earlier zero r before found =
          let same : p ≡ r = cc in
          subst (Covered (has_bit produced) available (p ∷ ps) 0) same (head-Covered ps clean)
      all_earlier (suc j) r before found = tail-Covered ps j r (v.earlier j r (omega arith) found)

  all-Covered :
      (ps : FramePassList)
      → missing produced available p ≡ 0
      → ((i : ℕ) (q : FramePass)
          → get_elem? ps i ≡ some q
          → Covered (has_bit produced) (bit_or available p.writes) ps i q)
      → (i : ℕ) (q : FramePass) → get_elem? (p ∷ ps) i ≡ some q
      → Covered (has_bit produced) available (p ∷ ps) i q
  all-Covered ps clean rest zero q found =
      let same : p ≡ q = cc in
      subst (Covered (has_bit produced) available (p ∷ ps) 0) same (head-Covered ps clean)
  all-Covered ps clean rest (suc i) q found = tail-Covered ps i q (rest i q found)

  cons-Verdict :
      (ps : FramePassList) (r : Bool × String)
      → missing produced available p ≡ 0
      → Verdict (has_bit produced) (bit_or available p.writes) ps r
      → Verdict (has_bit produced) available (p ∷ ps) r
  cons-Verdict ps (true, e) clean (empty, rest) = (empty, all-Covered ps clean rest)
  cons-Verdict ps (false, e) clean (i, m, q, says, v) =
      (suc i, m, q, says, tail-Violation ps i m q clean v)

check_passes-Verdict :
    (produced available : ℕ) (ps : FramePassList)
    → available < 2 ^ 32
    → Words ps
    → Verdict (has_bit produced) available ps (check_passes produced available ps)
unfolding check_passes
check_passes-Verdict produced available [] fits w = (refl, λ i p found. cc)
check_passes-Verdict produced available (p ∷ ps) fits w =
    elim (Bool-cases (missing produced available p == 0)) [
      | inl clean ↦ rw clean (
          cons-Verdict produced available fits p ps
            (check_passes produced (bit_or available p.writes) ps) (ground arith)
            (check_passes-Verdict produced (bit_or available p.writes) ps
              (bit_or-lt 32 available p.writes fits w.1) w.2))
      | inr lacking ↦ rw lacking (
        0,
        missing produced available p,
        p,
        refl,
        head-Violation produced available fits p ps w.0 (ground arith),
      )
    ]

-- For masks that are 32-bit words: `validate` either accepts with an empty error, and then every
-- resource that a pass reads and that some pass of the list writes was written by an earlier pass; or
-- it refuses, and the error names the first pass of which this fails, with a non-empty mask that holds
-- just the resources that this pass reads, that the list produces and that no earlier pass wrote.
pub validate-Verdict : (ps : FramePassList) → Words ps → Verdict (writes_bit ps) 0 ps (validate ps)
unfolding validate
validate-Verdict ps w =
    subst (λ written. Verdict written 0 ps (validate ps)) (fun_ext (produced ps))
      (check_passes-Verdict (produced_from 0 ps) 0 ps (omega arith) w)
  where
    produced : (ps : FramePassList) (k : ℕ) → has_bit (produced_from 0 ps) k ≡ writes_bit ps k
    produced ps k = ground (arith, has_bit-produced_from 0 k ps, has_bit-zero k)

Verdict-IsOrdered :
    (ps : FramePassList) (r : Bool × String)
    → Verdict (writes_bit ps) 0 ps r
    → (r.0 ≡ true) ↔ IsOrdered ps
Verdict-IsOrdered ps (true, e) v = (
  λ _ i k p found small reads written. ground (arith, v.1 i p found k small reads, has_bit-zero k),
  λ _. refl,
)
Verdict-IsOrdered ps (false, e) (i, m, p, says, v) = (
  λ h. cc,
  λ ordered.
      let (k, small, bit) = has_bit_of_pos 32 m v.word v.positive in
      absurd (ground (arith, v.lacks k small, ordered i k p v.at small, has_bit-zero k)),
)

-- For masks that are 32-bit words: `validate` accepts exactly the lists in which every resource that a
-- pass reads and that some pass writes was written by an earlier pass.
pub validate_iff : (ps : FramePassList) → Words ps → ((validate ps).0 ≡ true) ↔ IsOrdered ps
validate_iff ps w = Verdict-IsOrdered ps (validate ps) (validate-Verdict ps w)

-- Both lists of passes that the terrain renderer declares are in order, in either tier and for every
-- view.
pub terrain_frame_passes-IsOrdered :
    (no_compute : Bool) (view : ℤ) → IsOrdered (terrain_frame_passes no_compute view)
unfolding validate terrain_frame_passes
terrain_frame_passes-IsOrdered true view = (validate_iff _ (omega arith)).0 refl
terrain_frame_passes-IsOrdered false view = (validate_iff _ (omega arith)).0 refl
