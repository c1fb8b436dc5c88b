-- ===== src/Device/ViewIds/Allocation.antt =====
-- render_device.cpp, `allocateViewId` and `freeViewId`: which id comes back, and what becomes of the set.
use qml_and_bgfx_testbridge.Prelude.{
  ℕ, zero, suc, ◌+◌, ◌-◌, ◌%◌, ◌<◌, ◌≡◌, refl, inl, inr, true, false, not, ◌&&◌, List, [], ◌∷◌,
  ◌==◌, arith, Bool-cases, subst,
}
use qml_and_bgfx_testbridge.Device.ViewIds.{
  Views, invalid_view_id, contains, erase, allocate_from, allocate_view_id, free_view_id,
}

-- What the loop from round i on comes to: a first free candidate, or none among the rounds left.
data Search (rounds i : ℕ) (views : Views) (r : ℕ × Views) : Type 0 where
  found :
      (v : ℕ)
      → v < 256
      → contains v views.used ≡ false
      → r ≡ (v, record { used = v ∷ views.used; next = (v + 1) % 256 })
      → Search rounds i views r
  exhausted :
      ((j : ℕ) → j < rounds → contains ((views.next + (i + j)) % 256) views.used ≡ true)
      → r ≡ (invalid_view_id, views)
      → Search rounds i views r

-- One more round, when the first candidate is taken.
Search-suc :
    {rounds i : ℕ} {views : Views} {r : ℕ × Views}
    → contains ((views.next + i) % 256) views.used ≡ true
    → Search rounds (i + 1) views r
    → Search (suc rounds) i views r
Search-suc taken (found v small free e) = found v small free e
Search-suc {rounds} {i} {views} taken (exhausted all e) = exhausted every e
  where
    every : (j : ℕ) → j < suc rounds → contains ((views.next + (i + j)) % 256) views.used ≡ true
    every zero h =
        let same : i ≡ i + 0 = omega arith in
        subst (λ k. contains ((views.next + k) % 256) views.used ≡ true) same taken
    every (suc j) h =
        let same : i + 1 + j ≡ i + suc j = omega arith in
        subst (λ k. contains ((views.next + k) % 256) views.used ≡ true) same (all j (omega arith))

allocate_from-Search :
    (rounds i : ℕ) (views : Views) → Search rounds i views (allocate_from rounds i views)
unfolding allocate_from
allocate_from-Search zero i views = exhausted (λ j h. elim h [ ]) refl
allocate_from-Search (suc rounds) i views =
    elim (Bool-cases (contains ((views.next + i) % 256) views.used)) [
      | inl taken ↦ rw taken (Search-suc taken (allocate_from-Search rounds (i + 1) views))
      | inr free ↦ rw free (found ((views.next + i) % 256) (omega arith) free refl)
    ]

-- The answers of `allocateViewId`. Either an id that was free is now in use and the search goes on
-- behind it, or all 256 ids are in use and nothing changes.
pub data Allocation (views : Views) (r : ℕ × Views) : Type 0 where
  fresh :
      (v : ℕ)
      → v < 256
      → contains v views.used ≡ false
      → r ≡ (v, record { used = v ∷ views.used; next = (v + 1) % 256 })
      → Allocation views r
  full :
      ((u : ℕ) → u < 256 → contains u views.used ≡ true)
      → r ≡ (invalid_view_id, views)
      → Allocation views r

-- `allocateViewId` takes a free id whenever there is one: its loop covers all 256.
pub allocate_view_id-Allocation : (views : Views) → Allocation views (allocate_view_id views)
unfolding allocate_view_id
allocate_view_id-Allocation views =
    elim (allocate_from-Search 256 0 views) as (λ s. Allocation views (allocate_from 256 0 views)) [
      | found v small free e ↦ fresh v small free e
      | exhausted all e ↦
          full (λ u h. cover u h (all ((u + 256 - views.next % 256) % 256) (omega arith))) e
    ]
  where
    cover :
        (u : ℕ)
        → u < 256
        → contains ((views.next + (0 + (u + 256 - views.next % 256) % 256)) % 256) views.used ≡ true
        → contains u views.used ≡ true
    cover u h c =
        let same : (views.next + (0 + (u + 256 - views.next % 256) % 256)) % 256 ≡ u =
          omega arith in
        subst (λ k. contains k views.used ≡ true) same c

contains-erase : (u v : ℕ) (us : List ℕ) → contains u (erase v us) ≡ (contains u us && not (u == v))
unfolding contains erase
contains-erase u v [] = refl
contains-erase u v (x ∷ xs) = ground (arith, contains-erase u v xs)

-- Freeing an id takes that id and no other from the set, but for 255, which stays in it.
pub contains-free_view_id :
    (u v : ℕ) (views : Views)
    → contains u (free_view_id v views).used
      ≡ (contains u views.used && not (u == v && not (v == invalid_view_id)))
unfolding free_view_id
contains-free_view_id u v views = ground (arith, contains-erase u v views.used)
