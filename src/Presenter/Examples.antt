-- ===== src/Presenter/Examples.antt =====
-- Tests of readback_presenter.cpp, and its theorems at inputs.
use mathlib.Core.Option
use qml_and_bgfx_testbridge.Prelude.{
  ℕ, zero, suc, ◌+◌, ◌*◌, ◌≡◌, refl, true, false, List, [], ◌∷◌, ◌++◌, some, arith, length,
  replicate, get_elem?,
}
use qml_and_bgfx_testbridge.Prelude.Lists.{length-replicate}
use qml_and_bgfx_testbridge.Prelude.Int.{pos}
use qml_and_bgfx_testbridge.Device.Bgfx.{Gpu}
use qml_and_bgfx_testbridge.Device.{new_device}
use qml_and_bgfx_testbridge.Presenter.State.{
  Size, PendingRead, ReadbackPresenter, World, new_presenter,
}
use qml_and_bgfx_testbridge.Presenter.Flip.{flip_image_vertical, flip_loop, swap_rows}
use qml_and_bgfx_testbridge.Presenter.Flip.Rows.{get_elem?-flip_image_vertical}
use qml_and_bgfx_testbridge.Presenter.Ring.{process_completed_readbacks, upload_of, usable}
use qml_and_bgfx_testbridge.Presenter.Calls.{
  Call, in_frame, ensures, FrameCall, processes, schedules, blits, ends, bumps, run, Exact,
  Exclusive, run-Exclusive,
}
use qml_and_bgfx_testbridge.Presenter.Uploads.{last_such, process-newest}
use qml_and_bgfx_testbridge.Presenter.Bytes.{IfSome, Fits, run-Fits}

-- A bgfx whose handles and frames count its calls.
abbrev counting_gpu : Gpu
counting_gpu = record {
  new_texture = λ log. length log;
  new_frame_buffer = λ log. length log;
  init_ok = λ log. true;
  next_frame = λ log. length log;
  read_frame = λ log. length log;
  read_bytes = λ log n. replicate n 7;
}

abbrev small : Size
small = record { width = pos 2; height = pos 1 }

abbrev start : World ℕ
start = (new_device 0, new_presenter)

abbrev frame : List FrameCall
frame = bumps ∷ processes true true (some (small, 9)) ∷ schedules ∷ blits small ∷ ends ∷ []

abbrev all_calls : List (Call ℕ)
all_calls =
    ensures 0 small true
    ∷ in_frame bumps
    ∷ in_frame (blits small)
    ∷ in_frame ends
    ∷ in_frame bumps
    ∷ in_frame schedules
    ∷ in_frame ends
    ∷ []

start-Exact : Exact start.1
unfolding new_presenter
start-Exact zero = refl
start-Exact (suc zero) = refl
start-Exact (suc (suc zero)) = refl
start-Exact (suc (suc (suc i))) = refl

start-Exclusive : Exclusive start.1
start-Exclusive i = omega (arith, start-Exact i)

run-Exclusive_example : Exclusive (run counting_gpu start all_calls).1
run-Exclusive_example = run-Exclusive counting_gpu start all_calls start-Exclusive

get_elem?-flip_image_vertical_example :
    let image : List ℕ = 1 ∷ 2 ∷ 3 ∷ 4 ∷ 5 ∷ 6 ∷ 7 ∷ 8 ∷ [] in
    let flipped = flip_image_vertical image (pos 1) (pos 2) in
    (length flipped ≡ 8) × (get_elem? flipped (0 * (1 * 4) + 2) ≡ some 7)
get_elem?-flip_image_vertical_example =
    get_elem?-flip_image_vertical (1 ∷ 2 ∷ 3 ∷ 4 ∷ 5 ∷ 6 ∷ 7 ∷ 8 ∷ []) 1 2 0 2 (omega arith)
      (omega arith) (omega arith)

flipped_small :
    flip_image_vertical (1 ∷ 2 ∷ 3 ∷ 4 ∷ 5 ∷ 6 ∷ 7 ∷ 8 ∷ []) (pos 1) (pos 2)
    ≡ 5 ∷ 6 ∷ 7 ∷ 8 ∷ 1 ∷ 2 ∷ 3 ∷ 4 ∷ []
unfolding flip_image_vertical flip_loop swap_rows
flipped_small = refl

abbrev read_of : ℕ → PendingRead
read_of frame = record {
  frame_id = frame;
  size = small;
  pixels = replicate 8 frame;
  tex_index = frame;
}

abbrev reading : ReadbackPresenter
reading = record new_presenter {
  last_frame_id = 2;
  pending_reads = read_of 1 ∷ read_of 2 ∷ read_of 3 ∷ [];
  readback_in_use = true ∷ true ∷ false ∷ [];
}

process-newest_example :
    let (p', upload) = process_completed_readbacks true false (some (small, 9)) reading in
    let done = read_of 1 ∷ read_of 2 ∷ [] in
    (done ++ p'.pending_reads ≡ done ++ read_of 3 ∷ [])
    × (upload ≡ Option.map (upload_of 9 false) (last_such (usable small) done))
process-newest_example = process-newest false small 9 reading refl refl

run-Fits_example :
    IfSome
      (Fits small 9)
      (process_completed_readbacks true true
        (some (small, 9))
        (run counting_gpu start all_calls).1).1
unfolding new_presenter
run-Fits_example =
    run-Fits counting_gpu (λ log n. length-replicate n 7) start all_calls true true small 9 refl
