-- ===== src/Presenter/Uploads.antt =====
-- readback_presenter.cpp, `processCompletedReadbacks`: which read reaches the texture, and that its bytes are
-- all there.
use mathlib.Core.Option
use qml_and_bgfx_testbridge.Prelude.{
  ℕ, ◌≡◌, refl, ap, ◌∙◌, Bool, true, false, List, [], ◌∷◌, ◌++◌, Option, none, some, ◌==◌, leb,
  if◌then◌else◌, Bool-cases, inl, inr,
}
use qml_and_bgfx_testbridge.Presenter.State.{Size, PendingRead, ReadbackPresenter, no_frame}
use qml_and_bgfx_testbridge.Presenter.Ring.{
  usable, retire_reads, upload_of, process_completed_readbacks,
}

-- The reads at the front of the queue whose frame has come.
abbrev pub retired : ℕ → List PendingRead → List PendingRead
retired last [] = []
retired last (r ∷ rest) =
    let more = retired last rest in if leb r.frame_id last then r ∷ more else []

abbrev pub or_else : Option PendingRead → Option PendingRead → Option PendingRead
or_else (some x) y = some x
or_else none y = y

-- The last one of a list that passes a test.
abbrev pub last_such : (PendingRead → Bool) → List PendingRead → Option PendingRead
last_such test [] = none
last_such test (r ∷ rest) = or_else (last_such test rest) (if test r then some r else none)

or_else-step :
    (o newest : Option PendingRead) (b : Bool) (r : PendingRead)
    → or_else o (if b then some r else newest)
      ≡ or_else (or_else o (if b then some r else none)) newest
or_else-step (some x) newest b r = refl
or_else-step none newest true r = refl
or_else-step none newest false r = refl

retire_reads-newest :
    (last : ℕ) (fbo : Size) (reads : List PendingRead) (in_use : List Bool)
    (newest : Option PendingRead)
    → let (left, in_use', n) = retire_reads last fbo reads in_use newest in
      (retired last reads ++ left ≡ reads)
      × (n ≡ or_else (last_such (usable fbo) (retired last reads)) newest)
unfolding retire_reads
retire_reads-newest last fbo [] in_use newest = (refl, refl)
retire_reads-newest last fbo (r ∷ rest) in_use newest =
    let ih = retire_reads-newest last fbo rest in
    elim (Bool-cases (leb r.frame_id last)) [
      | inl e ↦ rw e (
        ap (◌∷◌ r) (ih _ _).0,
        (ih _ _).1 ∙ or_else-step (last_such (usable fbo) (retired last rest)) newest _ r,
      )
      | inr e ↦ rw e (refl, refl)
    ]

-- With OpenGL ready, a texture, and a frame that has come: of the reads at the front of the queue whose frame
-- has come exactly those are taken off it, and the last one of them that passes the tests is uploaded, if there
-- is one.
pub process-newest :
    (flip : Bool) (fbo : Size) (texture : ℕ) (p : ReadbackPresenter)
    → (texture == 0) ≡ false
    → (p.last_frame_id == no_frame) ≡ false
    → let (p', upload) = process_completed_readbacks true flip (some (fbo, texture)) p in
      let done = retired p.last_frame_id p.pending_reads in
      (done ++ p'.pending_reads ≡ p.pending_reads)
      × (upload ≡ Option.map (upload_of texture flip) (last_such (usable fbo) done))
unfolding process_completed_readbacks
process-newest flip fbo texture p named known =
    let found = retire_reads-newest p.last_frame_id fbo p.pending_reads p.readback_in_use none in
    rw (named, known) (found.0, ap (Option.map (upload_of texture flip)) (found.1 ∙ or_else-none _))
  where
    or_else-none : (o : Option PendingRead) → or_else o none ≡ o
    or_else-none (some x) = refl
    or_else-none none = refl
