-- ===== src/Presenter/Slots.antt =====
-- readback_presenter.cpp: the flags `m_readbackInUse` against the queued blits and the pending reads.
use qml_and_bgfx_testbridge.Prelude.{
  ℕ, zero, suc, ◌+◌, ◌≡◌, refl, Bool, true, false, List, [], ◌∷◌, ◌++◌, Option, none, some, ◌==◌,
  leb, if◌then◌else◌, arith, get_or, set, Bool-cases, inl, inr,
}
use qml_and_bgfx_testbridge.Device.Bgfx.{Gpu}
use qml_and_bgfx_testbridge.Presenter.State.{
  Size, BlitRecord, PendingRead, ReadbackPresenter, World,
}
use qml_and_bgfx_testbridge.Presenter.Ring.{
  retire_reads, process_completed_readbacks, schedule_one, schedule_loop,
  schedule_readbacks_from_queue, blit_into, due,
}

abbrev pub hit : ℕ → ℕ → ℕ
hit i j = if i == j then 1 else 0

abbrev pub flag : Bool → ℕ
flag b = if b then 1 else 0

-- How often a slot is held by a queued blit, and by a pending read.
abbrev pub blits_at : ℕ → List BlitRecord → ℕ
blits_at i [] = 0
blits_at i (r ∷ rest) = hit i r.tex_index + blits_at i rest

abbrev pub reads_at : ℕ → List PendingRead → ℕ
reads_at i [] = 0
reads_at i (r ∷ rest) = hit i r.tex_index + reads_at i rest

abbrev pub holders : ℕ → ReadbackPresenter → ℕ
holders i p = blits_at i p.ready_for_read + reads_at i p.pending_reads

abbrev pub flag_at : ℕ → ReadbackPresenter → ℕ
flag_at i p = flag (get_or p.readback_in_use i false)

blits_at-append :
    (i : ℕ) (xs ys : List BlitRecord) → blits_at i (xs ++ ys) ≡ blits_at i xs + blits_at i ys
blits_at-append i [] ys = omega arith
blits_at-append i (x ∷ xs) ys = omega (arith, blits_at-append i xs ys)

reads_at-append :
    (i : ℕ) (xs ys : List PendingRead) → reads_at i (xs ++ ys) ≡ reads_at i xs + reads_at i ys
reads_at-append i [] ys = omega arith
reads_at-append i (x ∷ xs) ys = omega (arith, reads_at-append i xs ys)

get_or-cleared :
    (bs : List Bool) (i j : ℕ)
    → get_or (set bs j false) i false ≡ (if i == j then false else get_or bs i false)
get_or-cleared [] i j = ground arith
get_or-cleared (b ∷ bs) zero zero = refl
get_or-cleared (b ∷ bs) zero (suc j) = ground arith
get_or-cleared (b ∷ bs) (suc i) zero = ground arith
get_or-cleared (b ∷ bs) (suc i) (suc j) = ground (arith, get_or-cleared bs i j)

-- A slot that is read as free, out of range as taken, is one of the flags.
get_or-taken :
    (bs : List Bool) (i j : ℕ)
    → get_or bs j true ≡ false
    → (get_or (set bs j true) i false ≡ (if i == j then true else get_or bs i false))
      × (get_or bs j false ≡ false)
get_or-taken [] i j free = ground arith
get_or-taken (b ∷ bs) zero zero free = (refl, free)
get_or-taken (b ∷ bs) zero (suc j) free = (ground arith, (get_or-taken bs 0 j free).1)
get_or-taken (b ∷ bs) (suc i) zero free = (ground arith, free)
get_or-taken (b ∷ bs) (suc i) (suc j) free = ground (arith, get_or-taken bs i j free)

-- Each flag counts the holders of its slot, and a number of its own that is lost.
abbrev pub Tracked : (ℕ → ℕ) → ReadbackPresenter → Type 0
Tracked lost p = (i : ℕ) → holders i p + lost i ≡ flag_at i p

released :
    (in_use : List Bool) (i j others rest : ℕ)
    → others + (hit i j + rest) ≡ flag (get_or in_use i false)
    → others + rest ≡ flag (get_or (set in_use j false) i false)
released in_use i j others rest h = ground (arith, get_or-cleared in_use i j)

retire_reads-tracked :
    (last : ℕ) (fbo : Size) (reads : List PendingRead) (in_use : List Bool)
    (newest : Option PendingRead) (i others : ℕ)
    → others + reads_at i reads ≡ flag (get_or in_use i false)
    → let (left, in_use', n) = retire_reads last fbo reads in_use newest in
      others + reads_at i left ≡ flag (get_or in_use' i false)
unfolding retire_reads
retire_reads-tracked last fbo [] in_use newest i others h = h
retire_reads-tracked last fbo (r ∷ rest) in_use newest i others h =
    elim (Bool-cases (leb r.frame_id last)) [
      | inl e ↦ rw e (
          retire_reads-tracked last fbo rest (set in_use r.tex_index false) _ i others
            (released in_use i r.tex_index others (reads_at i rest) h))
      | inr e ↦ rw e h
    ]

module _ (lost : ℕ → ℕ) where
  pub process-Tracked :
      (gl flip : Bool) (fbo : Option (Size × ℕ)) (p : ReadbackPresenter)
      → Tracked lost p
      → Tracked lost (process_completed_readbacks gl flip fbo p).0
  unfolding process_completed_readbacks
  process-Tracked gl flip none p h i = h i
  process-Tracked gl flip (some (fbo, texture)) p h i =
      let now = h i in
      let ih =
        retire_reads-tracked p.last_frame_id fbo p.pending_reads p.readback_in_use none i
          (blits_at i p.ready_for_read + lost i) (omega arith) in
      ground arith

  module _ {P : Type 0} (gpu : Gpu) where
    -- The record r is no longer in the queue.
    schedule_one-tracked :
        (r : BlitRecord) (w : World P) (i others : ℕ)
        → others + (hit i r.tex_index + reads_at i w.1.pending_reads) ≡ flag_at i w.1
        → others + reads_at i (schedule_one gpu r w).1.pending_reads
          ≡ flag_at i (schedule_one gpu r w).1
    unfolding schedule_one
    schedule_one-tracked r (d, p) i others h =
        let freed =
          released p.readback_in_use i r.tex_index others (reads_at i p.pending_reads) h in
        grind (arith, freed, reads_at-append)

    schedule_loop-tracked :
        (queue : List BlitRecord) (w : World P) (i others : ℕ)
        → others + blits_at i queue + reads_at i w.1.pending_reads ≡ flag_at i w.1
        → others + holders i (schedule_loop gpu queue w).1 ≡ flag_at i (schedule_loop gpu queue w).1
    unfolding schedule_loop
    schedule_loop-tracked [] (d, p) i others h = omega arith
    schedule_loop-tracked (r ∷ rest) (d, p) i others h = elim (Bool-cases (due p.frame_index r)) [
      | inl e ↦ rw e (
          schedule_loop-tracked rest (schedule_one gpu r (d, p)) i others (
            omega
              (arith, schedule_one-tracked r (d, p) i (others + blits_at i rest) (omega arith))))
      | inr e ↦ rw e (omega arith)
    ]

    pub schedule-Tracked :
        (w : World P) → Tracked lost w.1 → Tracked lost (schedule_readbacks_from_queue gpu w).1
    unfolding schedule_readbacks_from_queue
    schedule-Tracked (d, p) h i = elim (Bool-cases (p.frame_index == 0)) [
      | inl e ↦ rw e (h i)
      | inr e ↦ rw e (
          omega (
            arith,
            h i,
            schedule_loop-tracked p.ready_for_read (d, p) i (lost i) (omega (arith, h i)),
          ))
    ]

  module _ {P : Type 0} where
    pub blit_into-Tracked :
        (sz : Size) (slot : Option ℕ) (w : World P)
        → ((dst : ℕ) → slot ≡ some dst → get_or w.1.readback_in_use dst true ≡ false)
        → Tracked lost w.1
        → Tracked lost (blit_into sz slot w).1
    unfolding blit_into
    blit_into-Tracked sz none w free h i = h i
    blit_into-Tracked sz (some dst) (d, p) free h i =
        let now = h i in
        let taken = get_or-taken p.readback_in_use i dst (free dst refl) in
        grind (arith, now, taken, blits_at-append)
