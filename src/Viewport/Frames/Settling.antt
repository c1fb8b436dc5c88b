-- ===== src/Viewport/Frames/Settling.antt =====
-- render_viewport_item.cpp: when another frame is asked for, and that it is after each blit.
use qml_and_bgfx_testbridge.Prelude.{
  ℕ, suc, ◌≡◌, refl, sym, ◌∙◌, inl, inr, Bool, true, false, not, ◌&&◌, ◌||◌, List, [], ◌∷◌, ◌++◌,
  Option, none, some, ltb, if◌then◌else◌, Bool-cases, arith,
}
use qml_and_bgfx_testbridge.Prelude.Int.{ℤ}
use qml_and_bgfx_testbridge.Viewport.Frames.{
  Frame, Effect, asks_for_frame, ends_frame, processes_readbacks, processes_overlay_max, blits,
  begins_external, ensures_surface, schedules_readbacks, updates_scene, Renderer,
  should_continue_rendering, settle, resolve_hit, resolve_pick, only_if, finish_external,
  close_frame, draw, render,
}

abbrev is_ask : Effect → Bool
is_ask asks_for_frame = true
is_ask _ = false

-- A frame is asked for.
abbrev pub asks : List Effect → Bool
asks [] = false
asks (e ∷ es) = is_ask e || asks es

asks-append : (xs ys : List Effect) → asks (xs ++ ys) ≡ (asks xs || asks ys)
asks-append [] ys = refl
asks-append (x ∷ xs) ys = ground (arith, asks-append xs ys)

-- The frame comes to be drawn.
abbrev pub is_drawn : Frame → Renderer → Bool
is_drawn f r = r.has_scene && f.has_fbo && f.has_size && f.surface_ready

asks-finish_external : (f : Frame) → asks (finish_external f) ≡ false
asks-finish_external f = elim (Bool-cases f.has_window) [ inl e ↦ rw e refl | inr e ↦ rw e refl ]

asks-only_if : (b : Bool) → asks (only_if b (asks_for_frame ∷ [])) ≡ b
asks-only_if true = refl
asks-only_if false = refl

or-false : (b : Bool) → (b || false) ≡ b
or-false true = refl
or-false false = refl

either_asks :
    (test : Bool) (s t : Renderer × List Effect)
    → asks s.1 ≡ false
    → asks t.1 ≡ false
    → asks (if test then s else t).1 ≡ false
either_asks true s t h k = h
either_asks false s t h k = k

-- A frame asks for another exactly under a condition.
record AsksIf (b : Bool) (s : Renderer × List Effect) : Type 0 where
  if_so : asks s.1 ≡ b

either-AsksIf :
    (b test : Bool) (s t : Renderer × List Effect)
    → (test ≡ true → AsksIf b s)
    → (test ≡ false → AsksIf b t)
    → AsksIf b (if test then s else t)
either-AsksIf b true s t h k = h refl
either-AsksIf b false s t h k = k refl

asks-close_frame :
    (in_flight : Bool) (f : Frame) (s : Renderer × List Effect)
    → asks s.1 ≡ false
    → asks (close_frame in_flight f s).1 ≡ should_continue_rendering in_flight s.0 f
asks-close_frame in_flight f (r, es) h =
    simp (asks-append, h, asks-only_if, asks-finish_external)
      (or-false (should_continue_rendering in_flight r f))

asks-resolve_hit : (o : Option ℤ) (f : Frame) (r : Renderer) → asks (resolve_hit o f r).1 ≡ false
asks-resolve_hit (some id) f r = refl
asks-resolve_hit none f r = elim (Bool-cases f.overlay_max_ready) [
  | inl e ↦ rw e refl
  | inr e ↦ rw e (elim (Bool-cases f.has_overlay_rects) [ inl d ↦ rw d refl | inr d ↦ rw d refl ])
]

asks-resolve_pick : (f : Frame) (r : Renderer) → asks (resolve_pick f r).1 ≡ false
unfolding resolve_pick
asks-resolve_pick f r = either_asks r.pick_pending _ _ (asks-resolve_hit f.picked f r) refl

-- Why a frame is followed by another: the scene moves, or did a moment ago, a click is to be resolved, or a readback is
-- under way, as it is after each blit.
abbrev pub has_reason : Frame → Renderer → Bool
has_reason f r =
    f.still_needs_update
    || f.needs_update
    || ltb 1 r.idle_settle_frames
    || r.pick_pending
    || f.has_free_slot
    || f.in_flight

or-true : (a b c : Bool) → (a || b || c || true) ≡ true
or-true a b c = ground arith

blitted_continues : (r : Renderer) (f : Frame) → should_continue_rendering true r f ≡ true
unfolding should_continue_rendering
blitted_continues r f =
    or-true (r.has_scene && f.still_needs_update) (ltb 0 r.idle_settle_frames) r.pick_pending

with_slot : (f : Frame) (r : Renderer) → f.has_free_slot ≡ true → has_reason f r ≡ true
with_slot f r h = ground arith

-- The frames that are left after one.
settle_left :
    (f : Frame) (r : Renderer)
    → ltb 0 (settle f r).idle_settle_frames ≡ (f.needs_update || ltb 1 r.idle_settle_frames)
unfolding settle
settle_left f r = elim (Bool-cases f.needs_update) [
  | inl e ↦ rw e refl
  | inr e ↦ rw e (elim (Bool-cases (ltb 0 r.idle_settle_frames)) [
    | inl d ↦ rw d (ground arith)
    | inr d ↦ rw d (ground arith)
  ])
]

settle_keeps :
    (f : Frame) (r : Renderer)
    → ((settle f r).has_scene ≡ r.has_scene) × ((settle f r).pick_pending ≡ r.pick_pending)
unfolding settle
settle_keeps f r = elim (Bool-cases f.needs_update) [
  | inl e ↦ rw e (refl, refl)
  | inr e ↦ rw e (elim (Bool-cases (ltb 0 r.idle_settle_frames)) [
    | inl d ↦ rw d (refl, refl)
    | inr d ↦ rw d (refl, refl)
  ])
]

full_continues :
    (f : Frame) (r : Renderer)
    → r.has_scene ≡ true
    → f.has_free_slot ≡ false
    → should_continue_rendering f.in_flight (settle f r) f ≡ has_reason f r
unfolding should_continue_rendering
full_continues f r s full =
    rw (settle_left f r, (settle_keeps f r).0, (settle_keeps f r).1, s, full) (ground arith)

draw-AsksIf :
    (f : Frame) (r : Renderer) → r.has_scene ≡ true → AsksIf (has_reason f r) (draw f (settle f r))
unfolding draw
draw-AsksIf f r s =
    let waits = ends_frame ∷ processes_readbacks ∷ processes_overlay_max ∷ [] in
    either-AsksIf (has_reason f r) (not f.has_free_slot) _ _
      (λ full. record {
        if_so =
            asks-close_frame f.in_flight f (settle f r, waits) refl
            ∙ full_continues f r s (ground arith);
      })
      (λ free. record {
        if_so =
            asks-close_frame true f
              ((resolve_pick f (settle f r)).0, (blits ∷ waits) ++ (resolve_pick f (settle f r)).1)
              (asks-resolve_pick f (settle f r))
            ∙ blitted_continues (resolve_pick f (settle f r)).0 f
            ∙ sym (with_slot f r (ground arith));
      })

frame_asks :
    (skip failed b : Bool) (r r' : Renderer) (es es' : List Effect)
    → asks es ≡ false
    → (skip ≡ false → asks es' ≡ b)
    → let s : Renderer × List Effect =
        if skip then (r, []) else if failed then (r, es) else (r', es') in
      asks s.1 ≡ (not skip && not failed && b)
frame_asks true failed b r r' es es' h k = refl
frame_asks false true b r r' es es' h k = h
frame_asks false false b r r' es es' h k = k refl

drawn_or_not :
    (a b c d e : Bool)
    → (not (not a || not b || not c) && not (not d) && e) ≡ (a && b && c && d && e)
drawn_or_not a b c d e = ground arith

asks-opening :
    (f : Frame) (es : List Effect)
    → asks ((only_if f.has_window (begins_external ∷ []) ++ ensures_surface ∷ []) ++ es) ≡ asks es
asks-opening f es = elim (Bool-cases f.has_window) [ inl e ↦ rw e refl | inr e ↦ rw e refl ]

scene_there : (a b c : Bool) → (not a || not b || not c) ≡ false → a ≡ true
scene_there a b c h = ground arith

-- A frame asks for another exactly if there is a scene, a target with both sides above 0 and a surface, and one of these
-- holds: the scene needs an update, after its own update or at the end of the frame, more than one frame is left to
-- settle, a pick is open, a readback slot is free, so that the frame is blitted, or a readback is in flight.
pub render-asks :
    (f : Frame) (r : Renderer) → asks (render f r).1 ≡ (is_drawn f r && has_reason f r)
unfolding render
render-asks f r =
    let opening = only_if f.has_window (begins_external ∷ []) ++ ensures_surface ∷ [] in
    let drawn = (draw f (settle f r)).1 in
    frame_asks (not r.has_scene || not f.has_fbo || not f.has_size) (not f.surface_ready)
      (has_reason f r) r (draw f (settle f r)).0 (opening ++ finish_external f)
      (opening ++ processes_readbacks ∷ schedules_readbacks ∷ updates_scene ∷ drawn)
      (asks-opening f (finish_external f) ∙ asks-finish_external f)
      (λ shown.
        asks-opening f (processes_readbacks ∷ schedules_readbacks ∷ updates_scene ∷ drawn)
        ∙ (draw-AsksIf f r (scene_there r.has_scene f.has_fbo f.has_size shown)).if_so)
    ∙ drawn_or_not r.has_scene f.has_fbo f.has_size f.surface_ready (has_reason f r)

-- A frame of a scene that is drawn, and either blitted or, with a full ring, still with a readback in flight at its end.
pub record UnderWay (f : Frame) : Type 0 where
  pub has_fbo : f.has_fbo ≡ true
  pub has_size : f.has_size ≡ true
  pub surface_ready : f.surface_ready ≡ true
  pub blits_or_waits : (f.has_free_slot || f.in_flight) ≡ true

abbrev pub AllUnderWay : List Frame → Type 0
AllUnderWay [] = Unit
AllUnderWay (f ∷ fs) = UnderWay f × AllUnderWay fs

-- How many of the frames are rendered, where one follows another only if it is asked for.
unfoldable pub rendered : List Frame → Renderer → ℕ
rendered [] r = 0
rendered (f ∷ fs) r =
    let rest = rendered fs (render f r).0 in suc (if asks (render f r).1 then rest else 0)

record KeepsScene (b : Bool) (s : Renderer × List Effect) : Type 0 where
  kept : s.0.has_scene ≡ b
