-- ===== src/Presenter/State.antt =====
-- readback_presenter.h and .cpp: the data of the presenter, and how it waits for reads and gives them away.
use qml_and_bgfx_testbridge.Prelude.{
  ℕ, zero, suc, ◌*◌, ◌%◌, ◌^◌, max, Bool, true, false, not, ◌&&◌, ◌||◌, List, [], ◌∷◌, some, ◌==◌,
  ltb, if◌then◌else◌, replicate,
}
use qml_and_bgfx_testbridge.Prelude.Int.{ℤ, pos, negsuc, pos_part, ltb_ℤ, eq_ℤ}
use qml_and_bgfx_testbridge.Device.Bgfx.{Gpu}
use qml_and_bgfx_testbridge.Device.Surface.{ViewSurface, new_surface, readback_buffer_count}
use qml_and_bgfx_testbridge.Device.{RenderDevice, end_frame, defer_until_frame_retired}

-- `std::numeric_limits<uint32_t>::max()`
abbrev pub no_frame : ℕ
no_frame = 0xffff_ffff

pub record Size : Type 0 where
  pub width : ℤ
  pub height : ℤ

abbrev pub same_size : Size → Size → Bool
same_size a b = eq_ℤ a.width b.width && eq_ℤ a.height b.height

abbrev pub positive : Size → Bool
positive s = ltb_ℤ (pos 0) s.width && ltb_ℤ (pos 0) s.height

-- `size_t(width) * size_t(height) * 4u` of a positive size.
unfoldable pub expected_bytes : Size → ℕ
expected_bytes s = pos_part s.width * pos_part s.height * 4 % 2 ^ 64

pub record BlitRecord : Type 0 where
  pub handle : ℕ
  pub frame_index : ℕ  -- uint64_t
  pub size : Size
  pub tex_index : ℕ

pub record PendingRead : Type 0 where
  pub frame_id : ℕ  -- uint32_t
  pub size : Size
  pub pixels : List ℕ
  pub tex_index : ℕ

pub record ReadbackPresenter : Type 0 where
  pub surface : ViewSurface
  pub runtime_inited : Bool
  pub scene_inited : Bool
  pub last_size : Size
  pub frame_index : ℕ  -- uint64_t
  pub last_frame_id : ℕ  -- uint32_t
  pub ready_for_read : List BlitRecord
  pub pending_reads : List PendingRead
  pub readback_in_use : List Bool
  pub next_readback_index : ℕ

-- `QSize()` is invalid: -1 in both directions.
unfoldable pub new_presenter : ReadbackPresenter
new_presenter = record {
  surface = new_surface;
  runtime_inited = false;
  scene_inited = false;
  last_size = record { width = negsuc 0; height = negsuc 0 };
  frame_index = 0;
  last_frame_id = no_frame;
  ready_for_read = [];
  pending_reads = [];
  readback_in_use = replicate readback_buffer_count false;
  next_readback_index = 0;
}

-- A call of the interface `IRenderContent`.
pub data ContentCall : Type 0 where
  set_render_target : ℕ → ℕ → ContentCall
  resize : ℕ → ℕ → ContentCall

-- What `glTexSubImage2D` is given.
pub record Upload : Type 0 where
  pub texture : ℕ
  pub size : Size
  pub pixels : List ℕ

-- The device and the presenter.
abbrev pub World : Type 0 → Type 0
World P = RenderDevice P PendingRead × ReadbackPresenter

-- The loop of `waitForPendingReadbacks`: the greatest frame, and whether one is known.
unfoldable pub max_frame : ℕ → Bool → List PendingRead → ℕ × Bool
max_frame m has_pending [] = (m, has_pending)
max_frame m has_pending (read ∷ rest) =
    let skipped = max_frame m has_pending rest in
    let counted = max_frame (max m read.frame_id) true rest in
    if read.frame_id == no_frame then skipped else counted

abbrev pub max_drain_frames : ℕ
max_drain_frames = 16

module _ {P : Type 0} where
  unfoldable pub stash_pending_reads :
      List PendingRead → RenderDevice P PendingRead → RenderDevice P PendingRead
  stash_pending_reads [] d = d
  stash_pending_reads (read ∷ rest) d =
      stash_pending_reads rest (defer_until_frame_retired (some read) read.frame_id d)

  unfoldable pub reset_readback_state : World P → World P
  reset_readback_state (d, p) = (
    stash_pending_reads p.pending_reads d,
    record p {
      pending_reads = [];
      ready_for_read = [];
      last_frame_id = no_frame;
      frame_index = 0;
      readback_in_use = replicate readback_buffer_count false;
      next_readback_index = 0;
    },
  )

  -- Its second loop, with the number of the passes that `guard` still allows.
  unfoldable pub pump :
      Gpu → ℕ → ℕ → ℕ → RenderDevice P PendingRead → ℕ × RenderDevice P PendingRead
  pump gpu zero max_frame_id current d = (current, d)
  pump gpu (suc left) max_frame_id current d =
      let (id, d') = end_frame gpu d in
      let rest = pump gpu left max_frame_id id d' in
      if ltb current max_frame_id then rest else (current, d)

  unfoldable pub wait_for_pending_readbacks : Gpu → World P → World P
  wait_for_pending_readbacks gpu (d, p) =
      let (max_frame_id, has_pending) = max_frame 0 false p.pending_reads in
      let (current, d') = pump gpu max_drain_frames max_frame_id p.last_frame_id d in
      if not has_pending || p.last_frame_id == no_frame
      then (d, p)
      else (d', record p { last_frame_id = current })

  -- `waitForPendingReadbacks` and `stashPendingReads`, which the code calls together.
  unfoldable pub wait_and_stash : Gpu → World P → World P
  wait_and_stash gpu w =
      let (d, p) = wait_for_pending_readbacks gpu w in
      (stash_pending_reads p.pending_reads d, record p { pending_reads = [] })
