-- ===== src/Probe/Objects/Walk.antt =====
-- qml_probe.cpp, `collectObjects` and `collectAllNamed`: which objects they list.
use qml_and_bgfx_testbridge.Prelude.{
  ℕ, zero, suc, ◌≤◌, ◌<◌, ◌≡◌, refl, ◌∙◌, subst, ◌⊎◌, inl, inr, Bool, true, false, not, ◌||◌, ◌&&◌,
  List, [], ◌∷◌, ◌++◌, str_eq, ◌==◌, ==_iff, Bool-cases, arith,
}
use qml_and_bgfx_testbridge.Probe.Objects.{
  Scene, contains, edges, visit, visit_all, collect_objects, roots, collect_all_named,
}

abbrev pub Distinct : List ℕ → Type 0
Distinct [] = Unit {0}
Distinct (x ∷ xs) = (contains xs x ≡ false) × Distinct xs

contains-append :
    (xs ys : List ℕ) (a : ℕ) → contains (xs ++ ys) a ≡ (contains xs a || contains ys a)
contains-append [] ys a = refl
contains-append (x ∷ xs) ys a = ground (arith, contains-append xs ys a)

Distinct-append :
    (xs : List ℕ) (a : ℕ) → Distinct xs → contains xs a ≡ false → Distinct (xs ++ a ∷ [])
Distinct-append [] a d h = (refl, tt)
Distinct-append (x ∷ xs) a (new, d) h =
    (ground (arith, contains-append xs (a ∷ []) x), Distinct-append xs a d (ground arith))

module _ (scene : Scene) where
  abbrev pub is_named : ℕ → Bool
  is_named o = not (str_eq (scene.name o) "")

  -- Qt leads from a root to an object.
  pub data Reach : ℕ → Type 0 where
    root : {o : ℕ} → contains (roots scene) o ≡ true → Reach o
    edge : {o p : ℕ} → Reach o → contains (edges scene o) p ≡ true → Reach p

  -- What has been listed is what has been seen and has a name, once each; and Qt leads to all that was seen.
  record Listed (s : List ℕ × List ℕ) : Type 0 where
    once : Distinct s.0
    exact : (o : ℕ) → contains s.0 o ≡ (contains s.1 o && is_named o)
    reached : (o : ℕ) → contains s.1 o ≡ true → Reach o

  Listed-visit :
      (o : ℕ) (s : List ℕ × List ℕ)
      → Reach o
      → contains s.1 o ≡ false
      → Listed s
      → Listed (visit scene o s)
  Listed-visit o (out, seen) r new l = record {
    once = elim (Bool-cases (str_eq (scene.name o) "")) [
      | inl e ↦ rw e l.once
      | inr e ↦ rw e (Distinct-append out o l.once (l.exact o ∙ rw new refl))
    ];
    exact = λ p. elim (Bool-cases (str_eq (scene.name o) "")) [
      | inl e ↦ rw e (elim (Bool-cases (o == p)) [
        | inl same ↦ rw (same, ← (==_iff o p).0 same, e) (l.exact o ∙ rw new refl)
        | inr other ↦ rw other (l.exact p)
      ])
      | inr e ↦
          rw (e, contains-append out (o ∷ []) p)
            (elim (Bool-cases (o == p)) [
              | inl same ↦ rw (same, ← (==_iff o p).0 same, e) (ground arith)
              | inr other ↦ rw other (ground (arith, l.exact p))
            ])
    ];
    reached = λ p h. elim (Bool-cases (o == p)) [
      | inl same ↦ subst Reach ((==_iff o p).0 same) r
      | inr other ↦ l.reached p (ground arith)
    ];
  }

  Listed-visit_all :
      (f : ℕ → List ℕ × List ℕ → List ℕ × List ℕ)
      → ((o : ℕ) (s : List ℕ × List ℕ) → Reach o → Listed s → Listed (f o s))
      → (xs : List ℕ) (s : List ℕ × List ℕ) → ((o : ℕ) → contains xs o ≡ true → Reach o)
      → Listed s
      → Listed (visit_all scene f xs s)
  Listed-visit_all f keep [] s r l = l
  Listed-visit_all f keep (x ∷ xs) s r l =
      Listed-visit_all f keep xs (f x s) (λ o h. r o (ground arith))
        (keep x s (r x (ground arith)) l)

  Listed-collect_objects :
      (levels o : ℕ) (s : List ℕ × List ℕ)
      → Reach o
      → Listed s
      → Listed (collect_objects scene levels o s)
  unfolding collect_objects
  Listed-collect_objects zero o s r l = l
  Listed-collect_objects (suc levels) o s r l = elim (Bool-cases (contains s.1 o)) [
    | inl old ↦ rw old l
    | inr new ↦ rw new (
        Listed-visit_all (collect_objects scene levels) (Listed-collect_objects levels)
          (edges scene o) (visit scene o s) (λ p h. edge r h) (Listed-visit o s r new l))
  ]

  -- Before anything is seen.
  Listed-nothing : Listed ([], [])
  Listed-nothing = record { once = tt; exact = λ o. refl; reached = λ o h. cc }

  -- Each object that is listed is listed once, has a name, and Qt leads to it from a window or the application.
  pub collect_all_named-Distinct :
      Distinct (collect_all_named scene)
      × ((o : ℕ) → contains (collect_all_named scene) o ≡ true → Reach o × (is_named o ≡ true))
  unfolding collect_all_named
  collect_all_named-Distinct =
      let l =
        Listed-visit_all (collect_objects scene 101) (Listed-collect_objects 101) (roots scene)
          ([], []) (λ o h. root h) Listed-nothing in
      (l.once, λ o h. (l.reached o (ground (arith, l.exact o)), ground (arith, l.exact o)))

  -- Qt leads from an object to none but what has been seen.
  abbrev Closed : ℕ → List ℕ → Type 0
  Closed o seen = (p : ℕ) → contains (edges scene o) p ≡ true → contains seen p ≡ true

  -- From `seen` to `seen'` nothing was lost, and what came is closed.
  record Grows (seen seen' : List ℕ) : Type 0 where
    keeps : (o : ℕ) → contains seen o ≡ true → contains seen' o ≡ true
    closes : (o : ℕ) → contains seen' o ≡ true → (contains seen o ≡ true) ⊎ Closed o seen'

  Grows-refl : (seen : List ℕ) → Grows seen seen
  Grows-refl seen = record { keeps = λ o h. h; closes = λ o h. inl h }

  Grows-trans : (a b c : List ℕ) → Grows a b → Grows b c → Grows a c
  Grows-trans a b c g k = record {
    keeps = λ o h. k.keeps o (g.keeps o h);
    closes = λ o h. elim (k.closes o h) [
      | inl old ↦ elim (g.closes o old) [
        | inl older ↦ inl older
        | inr closed ↦ inr (λ p e. k.keeps p (closed p e))
      ]
      | inr closed ↦ inr closed
    ];
  }

  module _ (rank : ℕ → ℕ)
      (falls : (o p : ℕ) → contains (edges scene o) p ≡ true → rank p < rank o) where
    -- A walk sees an object and closes it.
    abbrev Sees : ℕ → (List ℕ × List ℕ → List ℕ × List ℕ) → Type 0
    Sees o f = (s : List ℕ × List ℕ) → Grows s.1 (f s).1 × (contains (f s).1 o ≡ true)

    every_sight :
        (f : ℕ → List ℕ × List ℕ → List ℕ × List ℕ) (xs : List ℕ)
        → ((o : ℕ) → contains xs o ≡ true → Sees o (f o))
        → (s : List ℕ × List ℕ)
        → Grows s.1 (visit_all scene f xs s).1
          × ((o : ℕ) → contains xs o ≡ true → contains (visit_all scene f xs s).1 o ≡ true)
    every_sight f [] each s = (Grows-refl s.1, λ o h. cc)
    every_sight f (x ∷ xs) each s =
        let (g, here) = each x (ground arith) s in
        let (k, rest) = every_sight f xs (λ o h. each o (ground arith)) (f x s) in
        let all : (o : ℕ)
            → contains (x ∷ xs) o ≡ true
            → contains (visit_all scene f xs (f x s)).1 o ≡ true =
          λ o h. elim (Bool-cases (x == o)) [
            | inl same ↦
                k.keeps o (subst (λ q. contains (f x s).1 q ≡ true) ((==_iff x o).0 same) here)
            | inr other ↦ rest o (ground arith)
          ] in
        (Grows-trans s.1 (f x s).1 (visit_all scene f xs (f x s)).1 g k, all)

    -- The loop over what an object leads to closes the object.
    closes_object :
        (o : ℕ) (s : List ℕ × List ℕ) (seen' : List ℕ)
        → Grows (o ∷ s.1) seen'
        → ((p : ℕ) → contains (edges scene o) p ≡ true → contains seen' p ≡ true)
        → Grows s.1 seen' × (contains seen' o ≡ true)
    closes_object o s seen' g closed = (
      record {
        keeps = λ p h. g.keeps p (ground arith);
        closes = λ p h. elim (g.closes p h) [
          | inl old ↦ elim (Bool-cases (o == p)) [
            | inl same ↦ inr (subst (λ q. Closed q seen') ((==_iff o p).0 same) closed)
            | inr other ↦ inl (ground arith)
          ]
          | inr c ↦ inr c
        ];
      },
      g.keeps o (ground arith),
    )

    collect_objects-Sees :
        (levels o : ℕ) → rank o < levels → Sees o (collect_objects scene levels o)
    unfolding collect_objects
    collect_objects-Sees zero o h s = absurd (omega arith)
    collect_objects-Sees (suc levels) o h s = elim (Bool-cases (contains s.1 o)) [
      | inl old ↦ rw old (Grows-refl s.1, old)
      | inr new ↦
          let each : (p : ℕ)
              → contains (edges scene o) p ≡ true
              → Sees p (collect_objects scene levels p) =
            λ p e. collect_objects-Sees levels p (omega (arith, falls o p e)) in
          let (g, all) =
            every_sight (collect_objects scene levels) (edges scene o) each (visit scene o s) in
          rw new (
            closes_object o s
              (visit_all scene (collect_objects scene levels) (edges scene o) (visit scene o s)).1 g
              all)
    ]

    module _ (shallow : (o : ℕ) → contains (roots scene) o ≡ true → rank o ≤ 100) where
      abbrev walked : List ℕ × List ℕ
      walked = visit_all scene (collect_objects scene 101) (roots scene) ([], [])

      walked-sees :
          Grows [] walked.1
          × ((o : ℕ) → contains (roots scene) o ≡ true → contains walked.1 o ≡ true)
      walked-sees =
          every_sight (collect_objects scene 101) (roots scene)
            (λ o h. collect_objects-Sees 101 o (omega (arith, shallow o h))) ([], [])

      walked-contains : (o : ℕ) → Reach o → contains walked.1 o ≡ true
      walked-contains o (root h) = walked-sees.1 o h
      walked-contains p (edge {o} r e) = elim (walked-sees.0.closes o (walked-contains o r)) [
        | inl impossible ↦ cc
        | inr closed ↦ closed p e
      ]

      -- Where no chain of objects is longer than 100, which a number for each object shows, the list has an
      -- object to which Qt leads just if it has a name.
      pub contains-collect_all_named :
          (o : ℕ) → Reach o → contains (collect_all_named scene) o ≡ is_named o
      unfolding collect_all_named
      contains-collect_all_named o r =
          let l =
            Listed-visit_all (collect_objects scene 101) (Listed-collect_objects 101) (roots scene)
              ([], []) (λ p h. root h) Listed-nothing in
          l.exact o ∙ rw (walked-contains o r) refl
