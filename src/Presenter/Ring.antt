-- ===== src/Presenter/Ring.antt =====
-- readback_presenter.cpp: the operations of a frame on the ring of readback textures.
use qml_and_bgfx_testbridge.Prelude.{
  ℕ, zero, suc, ◌+◌, ◌-◌, ◌%◌, ◌^◌, Bool, true, false, not, ◌&&◌, ◌||◌, List, [], ◌∷◌, ◌++◌, Option,
  none, some, ◌==◌, leb, if◌then◌else◌, length, get_or, set,
}
use qml_and_bgfx_testbridge.Prelude.Int.{pos, ltb_ℤ, signed}
use mathlib.Core.Option
use qml_and_bgfx_testbridge.Device.Bgfx.{Gpu, blit, read_texture}
use qml_and_bgfx_testbridge.Device.Surface.{readback_buffer_count}
use qml_and_bgfx_testbridge.Device.{end_frame}
use qml_and_bgfx_testbridge.Presenter.State.{
  Size, BlitRecord, PendingRead, ReadbackPresenter, Upload, World, no_frame, same_size, positive,
  expected_bytes,
}
use qml_and_bgfx_testbridge.Presenter.Flip.{flip_image_vertical}

-- The tests that `processCompletedReadbacks` makes of a retired read.
unfoldable pub usable : Size → PendingRead → Bool
usable fbo_size ready =
    same_size ready.size fbo_size
    && positive ready.size
    && not (expected_bytes ready.size == 0)
    && not (ltb_ℤ (pos (length ready.pixels)) (signed 32 (expected_bytes ready.size)))

-- Its loop: the reads that stay, the slots, and `newest` if there is one.
unfoldable pub retire_reads :
    ℕ
    → Size
    → List PendingRead
    → List Bool
    → Option PendingRead
    → List PendingRead × List Bool × Option PendingRead
retire_reads last fbo_size [] in_use newest = ([], in_use, newest)
retire_reads last fbo_size (ready ∷ rest) in_use newest =
    let done =
      retire_reads last fbo_size rest (set in_use ready.tex_index false)
        (if usable fbo_size ready then some ready else newest) in
    if leb ready.frame_id last then done else (ready ∷ rest, in_use, newest)

-- What `newest` becomes on its way to the texture. `flip` is `needFlip`.
unfoldable pub upload_of : ℕ → Bool → PendingRead → Upload
upload_of texture flip newest = record {
  texture = texture;
  size = newest.size;
  pixels =
      if flip
      then flip_image_vertical newest.pixels newest.size.width newest.size.height
      else newest.pixels;
}

-- The frame buffer of Qt is its size and texture; `gl` is whether there is a context with functions.
unfoldable pub process_completed_readbacks :
    Bool → Bool → Option (Size × ℕ) → ReadbackPresenter → ReadbackPresenter × Option Upload
process_completed_readbacks gl flip none p = (p, none)
process_completed_readbacks gl flip (some (fbo_size, texture)) p =
    let (reads, in_use, newest) =
      retire_reads p.last_frame_id fbo_size p.pending_reads p.readback_in_use none in
    let retired = record p { pending_reads = reads; readback_in_use = in_use } in
    if p.last_frame_id == no_frame || not gl || texture == 0
    then (p, none)
    else (retired, Option.map (upload_of texture flip) newest)

-- `m_frameIndex - front().frameIndex >= 1`, taken mod 2^64.
abbrev pub due : ℕ → BlitRecord → Bool
due frame_index r = leb 1 ((frame_index + 2 ^ 64 - r.frame_index) % 2 ^ 64)

-- The search for a slot, with the number of the candidates that are left.
unfoldable pub free_slot : ℕ → ℕ → ℕ → List Bool → Option ℕ
free_slot zero i next in_use = none
free_slot (suc left) i next in_use =
    let candidate = (next + i) % readback_buffer_count in
    let rest = free_slot left (suc i) next in_use in
    if get_or in_use candidate true then rest else some candidate

unfoldable pub bump_frame_index : ReadbackPresenter → ReadbackPresenter
bump_frame_index p = record p { frame_index = (p.frame_index + 1) % 2 ^ 64 }

unfoldable pub any_in_use : List Bool → Bool
any_in_use [] = false
any_in_use (b ∷ bs) = b || any_in_use bs

unfoldable pub has_in_flight_readbacks : ReadbackPresenter → Bool
has_in_flight_readbacks p =
    not (leb (length p.pending_reads) 0)
    || not (leb (length p.ready_for_read) 0)
    || any_in_use p.readback_in_use

unfoldable pub any_free : List Bool → Bool
any_free [] = false
any_free (b ∷ bs) = not b || any_free bs

unfoldable pub has_free_readback_slot : ReadbackPresenter → Bool
has_free_readback_slot p = any_free p.readback_in_use

module _ {P : Type 0} where
  -- The body of the loop of `scheduleReadbacksFromQueue`, with the record taken from the queue.
  unfoldable pub schedule_one : Gpu → BlitRecord → World P → World P
  schedule_one gpu r (d, p) =
      let expected = expected_bytes r.size in
      let asked = record d { log = read_texture r.handle expected ∷ d.log } in
      let ready_frame = gpu.read_frame asked.log in
      let freed = record p { readback_in_use = set p.readback_in_use r.tex_index false } in
      let pending : PendingRead = record {
        frame_id = ready_frame;
        size = r.size;
        pixels = gpu.read_bytes asked.log expected;
        tex_index = r.tex_index;
      } in
      if not (positive r.size)
      then (d, freed)
      else if expected == 0 || leb (2 ^ 31) expected
      then (d, freed)
      else if ready_frame == no_frame
      then (asked, freed)
      else (asked, record p { pending_reads = p.pending_reads ++ pending ∷ [] })

  -- The loop over the queue, which is put back with what is left of it.
  unfoldable pub schedule_loop : Gpu → List BlitRecord → World P → World P
  schedule_loop gpu [] (d, p) = (d, record p { ready_for_read = [] })
  schedule_loop gpu (r ∷ rest) (d, p) =
      let done = schedule_loop gpu rest (schedule_one gpu r (d, p)) in
      if due p.frame_index r then done else (d, record p { ready_for_read = r ∷ rest })

  unfoldable pub schedule_readbacks_from_queue : Gpu → World P → World P
  schedule_readbacks_from_queue gpu (d, p) =
      if p.frame_index == 0 then (d, p) else schedule_loop gpu p.ready_for_read (d, p)

  unfoldable pub blit_into : Size → Option ℕ → World P → World P
  blit_into sz none w = w
  blit_into sz (some dst) (d, p) =
      let handle = get_or p.surface.readback_tex dst 0xffff in
      let blit_rec : BlitRecord = record {
        handle = handle;
        frame_index = p.frame_index;
        size = sz;
        tex_index = dst;
      } in
      (
        record d { log = blit p.surface.blit_view_id handle p.surface.color_tex ∷ d.log },
        record p {
          next_readback_index = suc dst % readback_buffer_count;
          ready_for_read = p.ready_for_read ++ blit_rec ∷ [];
          readback_in_use = set p.readback_in_use dst true;
        },
      )

  unfoldable pub blit_for_readback : Size → World P → World P
  blit_for_readback sz (d, p) =
      blit_into sz (free_slot readback_buffer_count 0 p.next_readback_index p.readback_in_use)
        (d, p)

  unfoldable pub finish_frame : Gpu → World P → ℕ × World P
  finish_frame gpu (d, p) =
      let (id, d') = end_frame gpu d in (id, (d', record p { last_frame_id = id }))
