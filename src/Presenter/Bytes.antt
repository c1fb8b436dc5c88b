-- ===== src/Presenter/Bytes.antt =====
-- readback_presenter.cpp: the bytes that OpenGL reads from an upload are all there.
use mathlib.Core.Option
use qml_and_bgfx_testbridge.Prelude.{
  ℕ, ◌^◌, ◌≤◌, ◌<◌, ◌≡◌, refl, ◌⊎◌, Bool, true, false, not, ◌&&◌, ◌||◌, List, [], ◌∷◌, ◌++◌, Option,
  none, some, ◌==◌, leb, if◌then◌else◌, arith, length, Bool-cases, inl, inr,
}
use qml_and_bgfx_testbridge.Device.Bgfx.{Gpu, GpuCall, read_texture}
use qml_and_bgfx_testbridge.Presenter.State.{
  Size, BlitRecord, PendingRead, ReadbackPresenter, Upload, World, expected_bytes, no_frame,
  wait_and_stash, reset_readback_state, positive, same_size,
}
use qml_and_bgfx_testbridge.Presenter.Flip.Rows.{length-flip_image_vertical}
use qml_and_bgfx_testbridge.Presenter.Lifecycle.{
  start_runtime, drop_stale, provide_surface, bind_content, ensure_surface, drain_and_release,
  size_changed,
}
use qml_and_bgfx_testbridge.Presenter.Ring.{
  usable, retire_reads, upload_of, process_completed_readbacks, schedule_one, schedule_loop,
  schedule_readbacks_from_queue, blit_into, blit_for_readback, due, finish_frame, bump_frame_index,
}
use qml_and_bgfx_testbridge.Presenter.Calls.{
  Call, in_frame, ensures, drains, processes, schedules, blits, ends, bumps, FrameCall, frame_step,
  step, run,
}

-- A read whose buffer has the size that was asked for, which an `int` can count.
abbrev pub Full : PendingRead → Type 0
Full r = (length r.pixels ≡ expected_bytes r.size) × (expected_bytes r.size < 2 ^ 31)

abbrev pub AllFull : List PendingRead → Type 0
AllFull [] = Unit {0}
AllFull (r ∷ rest) = Full r × AllFull rest

AllFull-snoc :
    (rs : List PendingRead) (r : PendingRead) → AllFull rs → Full r → AllFull (rs ++ r ∷ [])
AllFull-snoc [] r h k = (k, tt)
AllFull-snoc (x ∷ xs) r (h, hs) k = (h, AllFull-snoc xs r hs k)

retire_reads-AllFull :
    (last : ℕ) (fbo : Size) (reads : List PendingRead) (in_use : List Bool)
    (newest : Option PendingRead)
    → AllFull reads
    → AllFull (retire_reads last fbo reads in_use newest).0
unfolding retire_reads
retire_reads-AllFull last fbo [] in_use newest h = h
retire_reads-AllFull last fbo (r ∷ rest) in_use newest (h, hs) =
    elim (Bool-cases (leb r.frame_id last)) [
      | inl e ↦ rw e (retire_reads-AllFull last fbo rest _ _ hs)
      | inr e ↦ rw e (h, hs)
    ]

-- The read that is kept as the newest is full too, and passes the tests.
Chosen : Size → PendingRead → Type 0
Chosen fbo r = Full r × (usable fbo r ≡ true)

abbrev pub IfSome {ℓ} : {A : Type ℓ} → (A → Type 0) → Option A → Type 0
IfSome Q none = Unit {0}
IfSome Q (some r) = Q r

retire_reads-Chosen :
    (last : ℕ) (fbo : Size) (reads : List PendingRead) (in_use : List Bool)
    (newest : Option PendingRead)
    → AllFull reads
    → IfSome (Chosen fbo) newest
    → IfSome (Chosen fbo) (retire_reads last fbo reads in_use newest).2
unfolding retire_reads Chosen
retire_reads-Chosen last fbo [] in_use newest h k = k
retire_reads-Chosen last fbo (r ∷ rest) in_use newest (h, hs) k =
    elim (Bool-cases (leb r.frame_id last)) [
      | inl e ↦ rw e (elim (Bool-cases (usable fbo r)) [
        | inl u ↦ rw u (retire_reads-Chosen last fbo rest _ (some r) hs (h, u))
        | inr u ↦ rw u (retire_reads-Chosen last fbo rest _ newest hs k)
      ])
      | inr e ↦ rw e k
    ]

abbrev stale : ℕ → ℕ → Bool
stale mine current = not (mine == 0) && not (mine == current)

-- What OpenGL is given: the texture, the size of the frame buffer, and bytes enough for it.
abbrev pub Fits : Size → ℕ → Upload → Type 0
Fits fbo texture u =
    (u.texture ≡ texture)
    × (same_size u.size fbo ≡ true)
    × (positive u.size ≡ true)
    × (expected_bytes u.size ≤ length u.pixels)

upload_of-Fits :
    (flip : Bool) (fbo : Size) (texture : ℕ) (r : PendingRead)
    → Chosen fbo r
    → Fits fbo texture (upload_of texture flip r)
unfolding Chosen upload_of usable
upload_of-Fits flip fbo texture r ((long, short), tests) =
    let same = length-flip_image_vertical r.pixels r.size.width r.size.height in
    (refl, ground arith, ground arith, ground arith)

upload-Fits :
    (flip : Bool) (fbo : Size) (texture : ℕ) (found : Option PendingRead)
    → IfSome (Chosen fbo) found
    → IfSome (Fits fbo texture) (Option.map (upload_of texture flip) found)
upload-Fits flip fbo texture none h = tt
upload-Fits flip fbo texture (some r) h = upload_of-Fits flip fbo texture r h

bind-keeps :
    (sz : Size) (content recreated changed : Bool) (p : ReadbackPresenter)
    → (bind_content sz content recreated changed p).0.pending_reads ≡ p.pending_reads
unfolding bind_content
bind-keeps sz content recreated changed p = ground arith

module _ {P : Type 0} (gpu : Gpu)
    (sized : (log : List GpuCall) (n : ℕ) → length (gpu.read_bytes log n) ≡ n) where
  AllFull-if :
      (b : Bool) (x y : World P)
      → AllFull x.1.pending_reads
      → (b ≡ false → AllFull y.1.pending_reads)
      → AllFull (if b then x else y).1.pending_reads
  AllFull-if true x y h k = h
  AllFull-if false x y h k = k refl

  schedule_one-AllFull :
      (r : BlitRecord) (w : World P)
      → AllFull w.1.pending_reads
      → AllFull (schedule_one gpu r w).1.pending_reads
  unfolding schedule_one
  schedule_one-AllFull r (d, p) h =
      let expected = expected_bytes r.size in
      let frame = gpu.read_frame (read_texture r.handle expected ∷ d.log) in
      elim (Bool-cases (not (positive r.size))) [
        | inl e ↦ rw e h
        | inr e ↦ rw e (elim (Bool-cases (expected == 0 || leb (2 ^ 31) expected)) [
          | inl e' ↦ rw e' h
          | inr e' ↦
              let short : expected < 2 ^ 31 = ground arith in
              rw e' (elim (Bool-cases (frame == no_frame)) [
                | inl lost ↦ rw lost h
                | inr found ↦ rw found (AllFull-snoc p.pending_reads _ h (sized _ _, short))
              ])
        ])
      ]

  schedule_loop-AllFull :
      (queue : List BlitRecord) (w : World P)
      → AllFull w.1.pending_reads
      → AllFull (schedule_loop gpu queue w).1.pending_reads
  unfolding schedule_loop
  schedule_loop-AllFull [] (d, p) h = h
  schedule_loop-AllFull (r ∷ rest) (d, p) h = elim (Bool-cases (due p.frame_index r)) [
    | inl e ↦
        rw e
          (schedule_loop-AllFull rest (schedule_one gpu r (d, p)) (schedule_one-AllFull r (d, p) h))
    | inr e ↦ rw e h
  ]

  blit_into-AllFull :
      (sz : Size) (slot : Option ℕ) (w : World P)
      → AllFull w.1.pending_reads
      → AllFull (blit_into sz slot w).1.pending_reads
  unfolding blit_into
  blit_into-AllFull sz none w h = h
  blit_into-AllFull sz (some dst) (d, p) h = h

  frame_step-AllFull :
      (w : World P) (call : FrameCall)
      → AllFull w.1.pending_reads
      → AllFull (frame_step gpu w call).1.pending_reads
  unfolding frame_step process_completed_readbacks schedule_readbacks_from_queue blit_for_readback
      finish_frame bump_frame_index
  frame_step-AllFull (d, p) (processes gl flip none) h = h
  frame_step-AllFull (d, p) (processes gl flip (some (fbo, texture))) h =
      elim (Bool-cases (p.last_frame_id == no_frame || not gl || texture == 0)) [
        | inl e ↦ rw e h
        | inr e ↦
            rw e (retire_reads-AllFull p.last_frame_id fbo p.pending_reads p.readback_in_use none h)
      ]
  frame_step-AllFull (d, p) schedules h =
      AllFull-if (p.frame_index == 0) (d, p) _ h
        (λ e. schedule_loop-AllFull p.ready_for_read (d, p) h)
  frame_step-AllFull (d, p) (blits sz) h = blit_into-AllFull sz _ (d, p) h
  frame_step-AllFull (d, p) ends h = h
  frame_step-AllFull (d, p) bumps h = h

  -- The other calls keep the reads or give them all away.
  Shrinks : World P → World P → Type 0
  Shrinks w w' = (w'.1.pending_reads ≡ w.1.pending_reads) ⊎ (w'.1.pending_reads ≡ [])

  stash-Shrinks : (w : World P) → (wait_and_stash gpu w).1.pending_reads ≡ []
  unfolding wait_and_stash
  stash-Shrinks (d, p) = refl

  start-Shrinks : (pd : P) (sz : Size) (w : World P) → Shrinks w (start_runtime gpu pd sz w).1
  unfolding Shrinks start_runtime
  start-Shrinks pd sz (d, p) = ground arith

  reset-Shrinks : (w : World P) → (reset_readback_state w).1.pending_reads ≡ []
  unfolding reset_readback_state
  reset-Shrinks (d, p) = refl

  drop-Shrinks : (w : World P) → Shrinks w (drop_stale gpu w)
  unfolding Shrinks drop_stale
  drop-Shrinks (d, p) = elim (Bool-cases (stale p.surface.generation d.generation)) [
    | inl e ↦ inr (rw e (reset-Shrinks _))
    | inr e ↦ inl (rw e refl)
  ]

  provide-Shrinks : (sz : Size) (gen : ℕ) (w : World P) → Shrinks w (provide_surface gpu sz gen w).2
  unfolding Shrinks provide_surface
  provide-Shrinks sz gen (d, p) = let e = stash-Shrinks (d, p) in ground arith

  through : (w w' : World P) → Shrinks w w' → AllFull w.1.pending_reads → AllFull w'.1.pending_reads
  unfolding Shrinks
  through w w' (inl e) h = rw e h
  through w w' (inr e) h = rw e tt

  drain-Shrinks : (w : World P) → Shrinks w (drain_and_release gpu w)
  unfolding Shrinks drain_and_release
  drain-Shrinks (d, p) = let e = stash-Shrinks (d, p) in ground arith

  ensure-AllFull :
      (pd : P) (sz : Size) (content : Bool) (w : World P)
      → AllFull w.1.pending_reads
      → AllFull (ensure_surface gpu pd sz content w).1.1.pending_reads
  unfolding ensure_surface
  ensure-AllFull pd sz content w h =
      let started = start_runtime gpu pd sz w in
      let w1 = started.1 in
      let w2 = drop_stale gpu w1 in
      let made = provide_surface gpu sz w1.0.generation w2 in
      let changed = size_changed sz w2.1.surface in
      let w4 : World P = if made.1 then reset_readback_state made.2 else made.2 in
      let bound = bind_content sz content made.1 changed w4.1 in
      let h1 = through w w1 (start-Shrinks pd sz w) h in
      let h3 =
        through w2 made.2 (provide-Shrinks sz w1.0.generation w2)
          (through w1 w2 (drop-Shrinks w1) h1) in
      let h4 =
        AllFull-if made.1 (reset_readback_state made.2) made.2 (rw (reset-Shrinks made.2) tt)
          (λ e. h3) in
      elim (Bool-cases started.0) [
        | inl up ↦ elim (Bool-cases made.0) [
          | inl made_ok ↦ rw (up, made_ok) (rw (bind-keeps sz content made.1 changed w4.1) h4)
          | inr failed ↦ rw (up, failed) h3
        ]
        | inr down ↦ rw down h1
      ]

  step-AllFull :
      (w : World P) (call : Call P)
      → AllFull w.1.pending_reads
      → AllFull (step gpu w call).1.pending_reads
  unfolding step
  step-AllFull w (in_frame call) h = frame_step-AllFull w call h
  step-AllFull w (ensures pd sz content) h = ensure-AllFull pd sz content w h
  step-AllFull w (drains) h = through w (drain_and_release gpu w) (drain-Shrinks w) h

  run-AllFull :
      (w : World P) (calls : List (Call P))
      → AllFull w.1.pending_reads
      → AllFull (run gpu w calls).1.pending_reads
  unfolding run
  run-AllFull w [] h = h
  run-AllFull w (call ∷ calls) h = run-AllFull (step gpu w call) calls (step-AllFull w call h)

  -- bgfx fills a buffer of the size that it is given. From no pending reads, after any calls of the
  -- presenter: whatever is uploaded to a texture has the size of its frame buffer, which is positive, and
  -- OpenGL finds all the bytes that it reads for that size, also after a flip.
  pub run-Fits :
      (w : World P) (calls : List (Call P)) (gl flip : Bool) (fbo : Size) (texture : ℕ)
      → w.1.pending_reads ≡ []
      → IfSome
          (Fits fbo texture)
          (process_completed_readbacks gl flip (some (fbo, texture)) (run gpu w calls).1).1
  unfolding process_completed_readbacks
  run-Fits w calls gl flip fbo texture empty =
      let p = (run gpu w calls).1 in
      let full = run-AllFull w calls (rw empty tt) in
      let chosen =
        retire_reads-Chosen p.last_frame_id fbo p.pending_reads p.readback_in_use none full tt in
      elim (Bool-cases (p.last_frame_id == no_frame || not gl || texture == 0)) [
        | inl e ↦ rw e tt
        | inr e ↦ rw e (upload-Fits flip fbo texture _ chosen)
      ]
