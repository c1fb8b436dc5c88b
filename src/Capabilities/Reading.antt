-- ===== src/Capabilities/Reading.antt =====
-- render_capabilities.cpp and render_device.cpp: what the comparisons of texts find out about the environment and the
-- renderer, said without the code.
use qml_and_bgfx_testbridge.Prelude.{
  ℕ, ◌≡◌, refl, ap, subst, sym, ◌∙◌, ◌↔◌, ◌⊎◌, inl, inr, Bool, true, false, ◌||◌, List, [], ◌∷◌,
  ◌++◌, map, Option, none, some, String, Bool-cases, arith,
}
use qml_and_bgfx_testbridge.Capabilities.{
  RenderTierOverride, auto_override, full_override, no_compute_override, codes, to_lower, bytes_eq,
  parse_tier_override_env, starts_with, finds, contains_ci, is_software,
}

-- The environment in lower case; nothing if it is not set.
abbrev pub lowered : Option (List ℕ) → List ℕ
lowered none = []
lowered (some cs) = map to_lower cs

abbrev pub Spelled : Option (List ℕ) → String → Type 0
Spelled env text = lowered env ≡ codes text

abbrev pub NoCompute : Option (List ℕ) → Type 0
NoCompute env = Spelled env "nocompute" ⊎ Spelled env "no-compute" ⊎ Spelled env "no_compute"

-- The override that the environment asks for.
pub data Asks (env : Option (List ℕ)) : RenderTierOverride → Type 0 where
  asks_full : Spelled env "full" → Asks env full_override
  asks_no_compute : NoCompute env → Asks env no_compute_override
  asks_nothing : ¬ Spelled env "full" → ¬ NoCompute env → Asks env auto_override

bytes_eq_iff : (xs ys : List ℕ) → (bytes_eq xs ys ≡ true) ↔ (xs ≡ ys)
unfolding bytes_eq
bytes_eq_iff [] [] = (λ _. refl, λ _. refl)
bytes_eq_iff [] (y ∷ ys) = (λ h. cc, λ h. cc)
bytes_eq_iff (x ∷ xs) [] = (λ h. cc, λ h. cc)
bytes_eq_iff (x ∷ xs) (y ∷ ys) =
    let ih = bytes_eq_iff xs ys in
    (
      λ h. (let e : x ≡ y = ground arith in let f : xs ≡ ys = ih.0 (ground arith) in cc),
      λ h. (let e : x ≡ y = cc in let f : xs ≡ ys = cc in let g = ih.1 f in ground arith),
    )

differs : (xs ys : List ℕ) → bytes_eq xs ys ≡ false → ¬ (xs ≡ ys)
differs xs ys h e = let g = (bytes_eq_iff xs ys).1 e in cc

empty_asks : (env : Option (List ℕ)) → lowered env ≡ [] → ¬ NoCompute env
empty_asks env e (inl h) = cc
empty_asks env e (inr (inl h)) = cc
empty_asks env e (inr (inr h)) = cc

none_of :
    (v : List ℕ) (env : Option (List ℕ))
    → lowered env ≡ v
    → bytes_eq v (codes "nocompute") ≡ false
    → bytes_eq v (codes "no-compute") ≡ false
    → bytes_eq v (codes "no_compute") ≡ false
    → ¬ NoCompute env
none_of v env e p q r (inl h) = differs v (codes "nocompute") p (sym e ∙ h)
none_of v env e p q r (inr (inl h)) = differs v (codes "no-compute") q (sym e ∙ h)
none_of v env e p q r (inr (inr h)) = differs v (codes "no_compute") r (sym e ∙ h)

pub parse-Asks : (env : Option (List ℕ)) → Asks env (parse_tier_override_env env)
unfolding parse_tier_override_env
parse-Asks none = asks_nothing (λ h. cc) (empty_asks none refl)
parse-Asks (some []) = asks_nothing (λ h. cc) (empty_asks (some []) refl)
parse-Asks (some (c ∷ cs)) =
    let v = map to_lower (c ∷ cs) in
    elim (Bool-cases (bytes_eq v (codes "full"))) [
      | inl e ↦ rw e (asks_full ((bytes_eq_iff v (codes "full")).0 e))
      | inr e ↦ rw e (elim (Bool-cases (bytes_eq v (codes "nocompute"))) [
        | inl p ↦ rw p (asks_no_compute (inl ((bytes_eq_iff v (codes "nocompute")).0 p)))
        | inr p ↦ rw p (elim (Bool-cases (bytes_eq v (codes "no-compute"))) [
          | inl q ↦ rw q (asks_no_compute (inr (inl ((bytes_eq_iff v (codes "no-compute")).0 q))))
          | inr q ↦ rw q (elim (Bool-cases (bytes_eq v (codes "no_compute"))) [
            | inl r ↦ rw r (asks_no_compute (inr (inr ((bytes_eq_iff v (codes "no_compute")).0 r))))
            | inr r ↦
                rw r
                  (asks_nothing (differs v (codes "full") e) (none_of v (some (c ∷ cs)) refl p q r))
          ])
        ])
      ])
    ]

-- The needle stands in the text.
abbrev pub Occurs : List ℕ → List ℕ → Type 0
Occurs needle hay = (before : List ℕ) × (after : List ℕ) × (hay ≡ before ++ (needle ++ after))

starts_with_iff :
    (needle hay : List ℕ)
    → (starts_with needle hay ≡ true) ↔ ((after : List ℕ) × (hay ≡ needle ++ after))
unfolding starts_with
starts_with_iff [] hay = (λ h. (hay, refl), λ h. refl)
starts_with_iff (n ∷ ns) [] = (λ h. cc, λ (after, h). cc)
starts_with_iff (n ∷ ns) (h ∷ hs) =
    let ih = starts_with_iff ns hs in
    (
      λ t. (let e : n ≡ h = ground arith in let (after, f) = ih.0 (ground arith) in (after, cc)),
      λ (after, t).
          (let e : n ≡ h = cc in
            let f : hs ≡ ns ++ after = cc in let g = ih.1 (after, f) in ground arith),
    )

finds-Occurs : (needle hay : List ℕ) → finds needle hay ≡ true → Occurs needle hay
unfolding finds
finds-Occurs needle [] h = let (after, f) = (starts_with_iff needle []).0 h in ([], after, f)
finds-Occurs needle (c ∷ cs) h = elim (Bool-cases (starts_with needle (c ∷ cs))) [
  | inl here ↦ let (after, f) = (starts_with_iff needle (c ∷ cs)).0 here in ([], after, f)
  | inr later ↦
      let (before, after, f) = finds-Occurs needle cs (ground arith) in
      (c ∷ before, after, ap (◌∷◌ c) f)
]

Occurs-finds :
    (needle hay before after : List ℕ) → hay ≡ before ++ (needle ++ after) → finds needle hay ≡ true
unfolding finds
Occurs-finds needle [] [] after e = (starts_with_iff needle []).1 (after, e)
Occurs-finds needle [] (b ∷ bs) after e = cc
Occurs-finds needle (c ∷ cs) [] after e =
    let here = (starts_with_iff needle (c ∷ cs)).1 (after, e) in ground arith
Occurs-finds needle (c ∷ cs) (b ∷ bs) after e =
    let same : cs ≡ bs ++ (needle ++ after) = cc in
    let later = Occurs-finds needle cs bs after same in ground arith

-- The renderer's name has a text in it, whatever its case.
abbrev pub Names : List ℕ → String → Type 0
Names renderer text = Occurs (codes text) (map to_lower renderer)

-- A software renderer, by its name.
abbrev pub Software : List ℕ → Type 0
Software r =
    (((((Names r "llvmpipe" ⊎ Names r "softpipe") ⊎ Names r "swrast") ⊎ Names r "swiftshader")
        ⊎ Names r "osmesa")
      ⊎ Names r "mesa offscreen")
    ⊎ Names r "software renderer"

contains_ci_iff :
    (renderer : List ℕ) (n : ℕ) (ns : List ℕ)
    → map to_lower (n ∷ ns) ≡ n ∷ ns
    → (contains_ci renderer (n ∷ ns) ≡ true) ↔ Occurs (n ∷ ns) (map to_lower renderer)
unfolding contains_ci finds starts_with
contains_ci_iff [] n ns f = (λ h. cc, λ (before, after, e). Occurs-finds (n ∷ ns) [] before after e)
contains_ci_iff (r ∷ rs) n ns f = (
  λ h.
      finds-Occurs (n ∷ ns) (map to_lower (r ∷ rs))
        (sym (ap (λ needle. finds needle (map to_lower (r ∷ rs))) f) ∙ h),
  λ (before, after, e).
      ap (λ needle. finds needle (map to_lower (r ∷ rs))) f
      ∙ Occurs-finds (n ∷ ns) (map to_lower (r ∷ rs)) before after e,
)

or_iff : {P Q : Type 0} (a b : Bool) → (a ≡ true) ↔ P → (b ≡ true) ↔ Q → ((a || b) ≡ true) ↔ (P ⊎ Q)
or_iff true b p q = (λ h. inl (p.0 refl), λ h. refl)
or_iff false b p q = (λ h. inr (q.0 h), λ s. elim s [ inl x ↦ let e = p.1 x in cc | inr y ↦ q.1 y ])

contains_text :
    (r : List ℕ) (text : String) (n : ℕ) (ns : List ℕ)
    → codes text ≡ n ∷ ns
    → map to_lower (n ∷ ns) ≡ n ∷ ns
    → (contains_ci r (codes text) ≡ true) ↔ Names r text
contains_text r text n ns e f =
    subst (λ needle. (contains_ci r needle ≡ true) ↔ Occurs needle (map to_lower r)) (sym e)
      (contains_ci_iff r n ns f)

pub is_software-Software : (r : List ℕ) → (is_software r ≡ true) ↔ Software r
unfolding is_software to_lower
is_software-Software r =
    or_iff _ _
      (or_iff _ _
        (or_iff _ _
          (or_iff _ _
            (or_iff _ _
              (or_iff _ _ (contains_text r "llvmpipe" _ _ refl refl)
                (contains_text r "softpipe" _ _ refl refl))
              (contains_text r "swrast" _ _ refl refl))
            (contains_text r "swiftshader" _ _ refl refl))
          (contains_text r "osmesa" _ _ refl refl))
        (contains_text r "mesa offscreen" _ _ refl refl))
      (contains_text r "software renderer" _ _ refl refl)
