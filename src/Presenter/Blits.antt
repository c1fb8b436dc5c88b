-- ===== src/Presenter/Blits.antt =====
-- readback_presenter.cpp, `blitForReadback`: a blit goes into a slot that nobody holds, if there is one.
use qml_and_bgfx_testbridge.Prelude.{
  ℕ, zero, suc, ◌+◌, ◌%◌, ◌<◌, ◌≡◌, refl, ◌⊎◌, inl, inr, Bool, true, false, List, [], ◌∷◌, ◌++◌,
  none, some, arith, get_or, Option-cases,
}
use qml_and_bgfx_testbridge.Presenter.State.{Size, BlitRecord, ReadbackPresenter, World}
use qml_and_bgfx_testbridge.Presenter.Ring.{
  free_slot, blit_into, blit_for_readback, has_free_readback_slot, any_free,
}
use qml_and_bgfx_testbridge.Presenter.Slots.{holders}
use qml_and_bgfx_testbridge.Presenter.Calls.{Exclusive, free_slot-free}

taken : List Bool → ℕ → ℕ → Bool
taken in_use next i = get_or in_use ((next + i) % 3) true

free_slot-none :
    (next : ℕ) (in_use : List Bool)
    → free_slot 3 0 next in_use ≡ none
    → (taken in_use next 0 ≡ true) × (taken in_use next 1 ≡ true) × (taken in_use next 2 ≡ true)
unfolding free_slot taken
free_slot-none next in_use e = ground arith

residues :
    (n : ℕ)
    → (((n + 0) % 3 ≡ 0) × ((n + 1) % 3 ≡ 1) × ((n + 2) % 3 ≡ 2))
      ⊎ (((n + 0) % 3 ≡ 1) × ((n + 1) % 3 ≡ 2) × ((n + 2) % 3 ≡ 0))
      ⊎ (((n + 0) % 3 ≡ 2) × ((n + 1) % 3 ≡ 0) × ((n + 2) % 3 ≡ 1))
residues n = ground arith

any_free-taken :
    (next : ℕ) (a b c : Bool)
    → let in_use = a ∷ b ∷ c ∷ [] in
      (taken in_use next 0 ≡ true)
      → (taken in_use next 1 ≡ true)
      → (taken in_use next 2 ≡ true)
      → any_free in_use ≡ false
unfolding taken any_free
any_free-taken next a b c h0 h1 h2 = elim (residues next) [
  | inl (r0, r1, r2) ↦
      let a = rw r0 at h0 in let b = rw r1 at h1 in let c = rw r2 at h2 in ground arith
  | inr (inl (r0, r1, r2)) ↦
      let a = rw r0 at h0 in let b = rw r1 at h1 in let c = rw r2 at h2 in ground arith
  | inr (inr (r0, r1, r2)) ↦
      let a = rw r0 at h0 in let b = rw r1 at h1 in let c = rw r2 at h2 in ground arith
]

no_room :
    (next : ℕ) (a b c : Bool) (in_use : List Bool)
    → in_use ≡ a ∷ b ∷ c ∷ []
    → free_slot 3 0 next in_use ≡ none
    → any_free in_use ≡ false
no_room next a b c in_use three e =
    let found = free_slot-none next (a ∷ b ∷ c ∷ []) (rw three at e) in
    rw three (any_free-taken next a b c found.0 found.1 found.2)

free_slot-range :
    (left i next : ℕ) (in_use : List Bool) (dst : ℕ)
    → free_slot left i next in_use ≡ some dst
    → dst < 3
unfolding free_slot
free_slot-range zero i next in_use dst e = ground arith
free_slot-range (suc left) i next in_use dst e =
    let ih = free_slot-range left (suc i) next in_use dst in
    let low : (next + i) % 3 < 3 = omega arith in ground arith

-- What `blitForReadback` promises of the presenter before and after it.
pub data Blitted (sz : Size) (p p' : ReadbackPresenter) : Type 0 where
  full : has_free_readback_slot p ≡ false → p' ≡ p → Blitted sz p p'
  into :
      (r : BlitRecord)
      → r.tex_index < 3
      → holders r.tex_index p ≡ 0
      → r.size ≡ sz
      → r.frame_index ≡ p.frame_index
      → p'.ready_for_read ≡ p.ready_for_read ++ r ∷ []
      → p'.pending_reads ≡ p.pending_reads
      → Blitted sz p p'

unflagged :
    (p : ReadbackPresenter) (i : ℕ)
    → Exclusive p
    → get_or p.readback_in_use i true ≡ false
    → holders i p ≡ 0
unflagged p i h free =
    let now = h i in let clear = false_either p.readback_in_use i free in ground arith
  where
    false_either : (bs : List Bool) (i : ℕ) → get_or bs i true ≡ false → get_or bs i false ≡ false
    false_either [] i e = ground arith
    false_either (b ∷ bs) zero e = e
    false_either (b ∷ bs) (suc i) e = false_either bs i e

-- With the three flags of the ring, of which each that is clear stands for a slot without holder: a blit is
-- queued for a slot that no earlier blit or read holds, with the size and the frame index of the call; and if
-- no slot is free, then nothing happens.
pub blit_for_readback-Blitted :
    {P : Type 0} (sz : Size) (w : World P) (a b c : Bool)
    → w.1.readback_in_use ≡ a ∷ b ∷ c ∷ []
    → Exclusive w.1
    → Blitted sz w.1 (blit_for_readback sz w).1
unfolding blit_for_readback blit_into has_free_readback_slot
blit_for_readback-Blitted sz (d, p) a b c three h =
    elim (Option-cases (free_slot 3 0 p.next_readback_index p.readback_in_use)) [
      | inl e ↦ rw e (full (no_room p.next_readback_index a b c p.readback_in_use three e) refl)
      | inr (dst, e) ↦ rw e (
          into _ (free_slot-range 3 0 p.next_readback_index p.readback_in_use dst e)
            (unflagged p dst h (free_slot-free 3 0 p.next_readback_index p.readback_in_use dst e))
            refl refl refl refl)
    ]
