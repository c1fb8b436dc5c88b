-- ===== src/Probe/Items/Deepest.antt =====
-- qml_probe.cpp, `hitTest`, against a description of the item that a point hits.
use qml_and_bgfx_testbridge.Prelude.{
  ℕ, ◌≡◌, refl, sym, subst, ◌⊎◌, inl, inr, true, false, not, ◌&&◌, List, ◌∷◌, Option, none, some,
  Bool-cases, Option-cases, arith,
}
use qml_and_bgfx_testbridge.Probe.Items.{
  ItemInfo, Item, item, Items, nil, cons, HitTests, missed, hit_test, hit_children,
}

module _ (t : HitTests) (point : ℕ × ℕ) where
  abbrev pub Missed : Item → Type 0
  Missed (item i kids) = missed t i point ≡ true

  abbrev pub AllMissed : Items → Type 0
  AllMissed nil = Unit {0}
  AllMissed (cons child rest) = Missed child × AllMissed rest

  -- Below `above`, a point hits the last item of a chain of children: each is the last child that the point does
  -- not miss, and it misses all children of the last.
  mutual
    pub data Hits : List ItemInfo → Item → List ItemInfo → Type 0 where
      stops :
          {above : List ItemInfo} {i : ItemInfo} {kids : Items}
          → missed t i point ≡ false
          → AllMissed kids
          → Hits above (item i kids) (i ∷ above)
      goes_down :
          {above chain : List ItemInfo} {i : ItemInfo} {kids : Items}
          → missed t i point ≡ false
          → LastHits (i ∷ above) kids chain
          → Hits above (item i kids) chain

    pub data LastHits : List ItemInfo → Items → List ItemInfo → Type 0 where
      last :
          {above chain : List ItemInfo} {child : Item} {rest : Items}
          → Hits above child chain
          → AllMissed rest
          → LastHits above (cons child rest) chain
      later :
          {above chain : List ItemInfo} {child : Item} {rest : Items}
          → LastHits above rest chain
          → LastHits above (cons child rest) chain

  abbrev pub Verdict : List ItemInfo → Item → Option (List ItemInfo) → Type 0
  Verdict above root none = Missed root
  Verdict above root (some chain) = Hits above root chain

  -- A loop over children from `best` ends with it if all are missed.
  abbrev Found : List ItemInfo → Items → List ItemInfo → List ItemInfo → Type 0
  Found above kids best result = (AllMissed kids × (result ≡ best)) ⊎ LastHits above kids result

  -- The test of `clip` inside the loop changes nothing: what contains the point still does.
  clip_is_idle :
      (i : ItemInfo) → missed t i point ≡ false → (i.clip && not (t.rect_contains i point)) ≡ false
  clip_is_idle i h = ground arith

  found_next :
      (above : List ItemInfo) (child : Item) (rest : Items) (best chain result : List ItemInfo)
      → Hits above child chain
      → Found above rest chain result
      → Found above (cons child rest) best result
  found_next above child rest best chain result h (inl (missed_rest, same)) =
      inr (last (subst (λ c. Hits above child c) (sym same) h) missed_rest)
  found_next above child rest best chain result h (inr l) = inr (later l)

  found_past :
      (above : List ItemInfo) (child : Item) (rest : Items) (best result : List ItemInfo)
      → Missed child
      → Found above rest best result
      → Found above (cons child rest) best result
  found_past above child rest best result h (inl (missed_rest, same)) = inl ((h, missed_rest), same)
  found_past above child rest best result h (inr l) = inr (later l)

  hit_above :
      (above : List ItemInfo) (i : ItemInfo) (kids : Items) (result : List ItemInfo)
      → missed t i point ≡ false
      → Found (i ∷ above) kids (i ∷ above) result
      → Hits above (item i kids) result
  hit_above above i kids result h (inl (m, same)) =
      subst (λ c. Hits above (item i kids) c) (sym same) (stops h m)
  hit_above above i kids result h (inr l) = goes_down h l

  mutual
    unfolding hit_test

    judged :
        (root : Item) (above : List ItemInfo) → Verdict above root (hit_test t root above point)
    judged (item i kids) above = elim (Bool-cases (missed t i point)) [
      | inl e ↦ rw e e
      | inr e ↦ rw e (
          hit_above above i kids (hit_children t i kids (i ∷ above) point (i ∷ above)) e
            (hit_children_found i e kids (i ∷ above) (i ∷ above)))
    ]

    hit_children_found :
        (i : ItemInfo)
        → missed t i point ≡ false
        → (kids : Items) (above best : List ItemInfo)
        → Found above kids best (hit_children t i kids above point best)
    hit_children_found i e nil above best = inl (tt, refl)
    hit_children_found i e (cons child rest) above best =
        let idle = clip_is_idle i e in
        let told = judged child above in
        elim (Option-cases (hit_test t child above point)) [
          | inl no_hit ↦
              rw (idle, no_hit)
                (found_past above child rest best (hit_children t i rest above point best)
                  (subst (Verdict above child) no_hit told)
                  (hit_children_found i e rest above best))
          | inr (chain, a_hit) ↦
              rw (idle, a_hit)
                (found_next above child rest best chain (hit_children t i rest above point chain)
                  (subst (Verdict above child) a_hit told)
                  (hit_children_found i e rest above chain))
        ]

  -- The hit test misses exactly what the point misses at the root, and otherwise goes down from each item to the last
  -- child that is visible, not transparent and around the point, until there is none, whatever the items clip.
  pub hit_test-Verdict :
      (root : Item) (above : List ItemInfo) → Verdict above root (hit_test t root above point)
  hit_test-Verdict root above = judged root above
