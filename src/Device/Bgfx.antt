-- ===== src/Device/Bgfx.antt =====
-- The calls that render_device.cpp and readback_presenter.cpp make of bgfx, and the answers that bgfx gives. Both are parameters
-- of the device: nothing is assumed of the answers.
use qml_and_bgfx_testbridge.Prelude.{ℕ, Bool, List, ◌==◌, not}

-- `bgfx::kInvalidHandle`
abbrev pub invalid_handle : ℕ
invalid_handle = 0xffff

abbrev pub is_valid : ℕ → Bool
is_valid h = not (h == invalid_handle)

pub data Format : Type 0 where
  color_target depth_target readback_target : Format

-- A call with its arguments, and with the handle that it gave.
pub data GpuCall : Type 0 where
  create_texture : ℕ → ℕ → Format → ℕ → GpuCall
  create_frame_buffer : ℕ → ℕ → ℕ → GpuCall
  destroy_texture : ℕ → GpuCall
  destroy_frame_buffer : ℕ → GpuCall
  set_view_frame_buffer : ℕ → ℕ → GpuCall
  set_view_clear : ℕ → GpuCall
  set_view_rect : ℕ → ℕ → ℕ → GpuCall
  reset : ℕ → ℕ → GpuCall
  render_frame : GpuCall
  init : ℕ → ℕ → GpuCall
  frame : GpuCall
  shutdown : GpuCall
  blit : ℕ → ℕ → ℕ → GpuCall
  read_texture : ℕ → ℕ → GpuCall

pub record Gpu : Type 0 where
  pub new_texture : List GpuCall → ℕ
  pub new_frame_buffer : List GpuCall → ℕ
  pub init_ok : List GpuCall → Bool
  pub next_frame : List GpuCall → ℕ
  -- The frame in which a texture read is done, and the bytes that it puts into a buffer of that size.
  pub read_frame : List GpuCall → ℕ
  pub read_bytes : List GpuCall → ℕ → List ℕ
