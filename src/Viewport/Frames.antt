-- ===== src/Viewport/Frames.antt =====
-- render_viewport_item.cpp, `RenderViewportRenderer::render` and `shouldContinueRendering`: one frame, and whether another
-- is asked for. What the window, the presenter and the scene answer within a frame is a record; what is called of
-- them is a list. The presenter itself is the module Presenter.
pub mod Settling
use qml_and_bgfx_testbridge.Prelude.{
  ℕ, zero, suc, ◌-◌, Bool, true, false, not, ◌&&◌, ◌||◌, List, [], ◌∷◌, ◌++◌, Option, none, some,
  ltb, if◌then◌else◌,
}
use qml_and_bgfx_testbridge.Prelude.Int.{ℤ}

pub record Frame : Type 0 where
  pub has_fbo : Bool
  pub has_size : Bool  -- both sides above 0
  pub has_window : Bool
  pub surface_ready : Bool  -- ensureSurface
  pub needs_update : Bool  -- needsContinuousUpdate, after the update
  pub has_free_slot : Bool
  pub picked : Option ℤ  -- pickOverlayRect
  pub overlay_max_ready : Bool
  pub has_overlay_rects : Bool
  pub still_needs_update : Bool  -- needsContinuousUpdate, at the end
  pub in_flight : Bool  -- hasInFlightReadbacks at the end of a frame without a blit

pub data Effect : Type 0 where
  begins_external ends_external resets_state ensures_surface processes_readbacks schedules_readbacks
        updates_scene ends_frame :
      Effect
  processes_overlay_max bumps_frame_index blits asks_for_frame requests_overlay_max : Effect
  clicks : ℤ → Effect

pub record Renderer : Type 0 where
  pub has_scene : Bool
  pub idle_settle_frames : ℕ
  pub pick_pending : Bool

-- `kIdleSettleFrames`
abbrev pub idle_settle_frames_max : ℕ
idle_settle_frames_max = 20

-- `in_flight` is the answer of `hasInFlightReadbacks`.
unfoldable pub should_continue_rendering : Bool → Renderer → Frame → Bool
should_continue_rendering in_flight r f =
    (r.has_scene && f.still_needs_update)
    || ltb 0 r.idle_settle_frames
    || r.pick_pending
    || in_flight

unfoldable pub settle : Frame → Renderer → Renderer
settle f r =
    if f.needs_update
    then record r { idle_settle_frames = idle_settle_frames_max }
    else if ltb 0 r.idle_settle_frames
    then record r { idle_settle_frames = r.idle_settle_frames - 1 }
    else r

-- The pick, with what it calls.
abbrev pub resolve_hit : Option ℤ → Frame → Renderer → Renderer × List Effect
resolve_hit (some id) f r = (record r { pick_pending = false }, clicks id ∷ [])
resolve_hit none f r =
    if not f.overlay_max_ready
    then (if not f.has_overlay_rects
        then (record r { pick_pending = false }, [])
        else (r, requests_overlay_max ∷ []))
    else (record r { pick_pending = false }, [])

unfoldable pub resolve_pick : Frame → Renderer → Renderer × List Effect
resolve_pick f r = if r.pick_pending then resolve_hit f.picked f r else (r, [])

abbrev pub only_if : Bool → List Effect → List Effect
only_if true es = es
only_if false es = []

abbrev pub finish_external : Frame → List Effect
finish_external f = only_if f.has_window (ends_external ∷ resets_state ∷ [])

-- The end of a frame.
abbrev pub close_frame : Bool → Frame → Renderer × List Effect → Renderer × List Effect
close_frame in_flight f (r, es) = (
  r,
  es
      ++ (bumps_frame_index ∷ [])
      ++ only_if (should_continue_rendering in_flight r f) (asks_for_frame ∷ [])
      ++ finish_external f,
)

-- With a full ring of readbacks nothing is drawn. Else the frame is blitted into the free slot, which is in use until its
-- readback has come back in a later frame: a readback is then in flight.
unfoldable pub draw : Frame → Renderer → Renderer × List Effect
draw f r =
    if not f.has_free_slot
    then close_frame f.in_flight f
        (r, ends_frame ∷ processes_readbacks ∷ processes_overlay_max ∷ [])
    else (let (r', picks) = resolve_pick f r in
        close_frame true f
          (r', (blits ∷ ends_frame ∷ processes_readbacks ∷ processes_overlay_max ∷ []) ++ picks))

unfoldable pub render : Frame → Renderer → Renderer × List Effect
render f r =
    let opening = only_if f.has_window (begins_external ∷ []) ++ ensures_surface ∷ [] in
    let (r', drawn) = draw f (settle f r) in
    if not r.has_scene || not f.has_fbo || not f.has_size
    then (r, [])
    else if not f.surface_ready
    then (r, opening ++ finish_external f)
    else (r', opening ++ processes_readbacks ∷ schedules_readbacks ∷ updates_scene ∷ drawn)
