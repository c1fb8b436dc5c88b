-- ===== src/Viewport/Mouse/Gesture.antt =====
-- render_viewport_item.cpp: the left button, from its press to its release.
use qml_and_bgfx_testbridge.Prelude.{
  ◌≡◌, refl, true, false, List, [], ◌∷◌, ◌++◌, Option, none, some, Bool-cases, inl, inr,
  if◌then◌else◌,
}
use mathlib.Core.List.{append_assoc, append-nil}
use qml_and_bgfx_testbridge.Viewport.{Values, RenderViewportItem}
use qml_and_bgfx_testbridge.Viewport.Mouse.{
  left, Distances, MouseEvent, Mouse, MouseCall, handles_press, handles_move, handles_release,
  requests_overlay_max, Handled, is_far, pick_at, mouse_press_event, mouse_move_event,
  mouse_release_event,
}

module _ (v : Values) (d : Distances v) where
  -- Moves, with what they call of the scene.
  unfoldable pub moved :
      List (MouseEvent v) → Mouse v → RenderViewportItem v → List (MouseCall v) → Handled v
  moved [] m i cs = record { mouse = m; viewport = i; calls = cs; accepts = true }
  moved (e ∷ es) m i cs =
      let h = mouse_move_event v d e m i in moved es h.mouse h.viewport (cs ++ h.calls)

  -- A press, moves and a release.
  unfoldable pub gesture :
      Option v.F
      → MouseEvent v
      → List (MouseEvent v)
      → MouseEvent v
      → Mouse v
      → RenderViewportItem v
      → Handled v
  gesture ratio down es up m i =
      let h = mouse_press_event v down m i in
      let k = moved es h.mouse h.viewport h.calls in
      let r = mouse_release_event v d ratio up k.mouse k.viewport in
      record {
        mouse = r.mouse;
        viewport = r.viewport;
        calls = k.calls ++ r.calls;
        accepts = r.accepts;
      }

  -- The left button alone is held.
  pub record HoldsLeft (e : MouseEvent v) : Type 0 where
    pub has_left : e.has_left ≡ true
    pub has_middle : e.has_middle ≡ false
    pub has_right : e.has_right ≡ false

  abbrev pub AllHold : List (MouseEvent v) → Type 0
  AllHold [] = Unit
  AllHold (e ∷ es) = HoldsLeft e × AllHold es

  abbrev pub moves : List (MouseEvent v) → List (MouseCall v)
  moves [] = []
  moves (e ∷ es) = handles_move e ∷ moves es

  -- The drag that begins with the first move that is far from the press, if one is.
  abbrev pub drag : v.F × v.F → List (MouseEvent v) → Option (List (MouseCall v))
  drag p [] = none
  drag p (e ∷ es) =
      if is_far v d e.local_pos p
      then some (handles_press e ∷ handles_move e ∷ moves es)
      else drag p es

  abbrev pub ratio_of : Option v.F → v.F
  ratio_of (some ratio) = ratio
  ratio_of none = v.one_f

  -- What becomes of a gesture: a drag, or a click where the button is let go.
  abbrev pub outcome :
      Option v.F
      → MouseEvent v
      → MouseEvent v
      → Option (List (MouseCall v))
      → RenderViewportItem v
      → Handled v
  outcome ratio down up (some cs) i = record {
    mouse = record { left_down = false; left_dragging = false; left_press_pos = down.local_pos };
    viewport = i;
    calls = cs ++ handles_release up ∷ [];
    accepts = true;
  }
  outcome ratio down up none i = record {
    mouse = record { left_down = false; left_dragging = false; left_press_pos = down.local_pos };
    viewport = record i {
      pick_pending = true;
      pick_pos = pick_at v d (ratio_of ratio) up.local_pos;
    };
    calls = requests_overlay_max ∷ [];
    accepts = true;
  }

  move-dragging :
      (e : MouseEvent v) (p : v.F × v.F) (i : RenderViewportItem v)
      → HoldsLeft e
      → mouse_move_event v d e
          (record { left_down = true; left_dragging = true; left_press_pos = p })
          i
        ≡ record {
          mouse = record { left_down = true; left_dragging = true; left_press_pos = p };
          viewport = i;
          calls = handles_move e ∷ [];
          accepts = true;
        }
  unfolding mouse_move_event
  move-dragging e p i h = simp h.has_left

  moved-dragging :
      (es : List (MouseEvent v)) (p : v.F × v.F) (i : RenderViewportItem v)
      (cs : List (MouseCall v))
      → AllHold es
      → moved es (record { left_down = true; left_dragging = true; left_press_pos = p }) i cs
        ≡ record {
          mouse = record { left_down = true; left_dragging = true; left_press_pos = p };
          viewport = i;
          calls = cs ++ moves es;
          accepts = true;
        }
  unfolding moved
  moved-dragging [] p i cs h = rw (append-nil cs) refl
  moved-dragging (e ∷ es) p i cs (h, hs) =
      rw (move-dragging e p i h, moved-dragging es p i (cs ++ handles_move e ∷ []) hs, append_assoc)
        refl

  -- The moves after a press.
  abbrev after_press : v.F × v.F → RenderViewportItem v → Option (List (MouseCall v)) → Handled v
  after_press p i none = record {
    mouse = record { left_down = true; left_dragging = false; left_press_pos = p };
    viewport = i;
    calls = [];
    accepts = true;
  }
  after_press p i (some cs) = record {
    mouse = record { left_down = true; left_dragging = true; left_press_pos = p };
    viewport = i;
    calls = cs;
    accepts = true;
  }

  move-near :
      (e : MouseEvent v) (p : v.F × v.F) (i : RenderViewportItem v)
      → HoldsLeft e
      → is_far v d e.local_pos p ≡ false
      → mouse_move_event v d e
          (record { left_down = true; left_dragging = false; left_press_pos = p })
          i
        ≡ record {
          mouse = record { left_down = true; left_dragging = false; left_press_pos = p };
          viewport = i;
          calls = [];
          accepts = false;
        }
  unfolding mouse_move_event
  move-near e p i h near = simp (h.has_left, h.has_middle, h.has_right, near)

  move-far :
      (e : MouseEvent v) (p : v.F × v.F) (i : RenderViewportItem v)
      → HoldsLeft e
      → is_far v d e.local_pos p ≡ true
      → mouse_move_event v d e
          (record { left_down = true; left_dragging = false; left_press_pos = p })
          i
        ≡ record {
          mouse = record { left_down = true; left_dragging = true; left_press_pos = p };
          viewport = i;
          calls = handles_press e ∷ handles_move e ∷ [];
          accepts = true;
        }
  unfolding mouse_move_event
  move-far e p i h far = simp (h.has_left, far)

  moved-after :
      (es : List (MouseEvent v)) (p : v.F × v.F) (i : RenderViewportItem v)
      → AllHold es
      → moved es (record { left_down = true; left_dragging = false; left_press_pos = p }) i []
        ≡ after_press p i (drag p es)
  unfolding moved
  moved-after [] p i h = refl
  moved-after (e ∷ es) p i (h, hs) = elim (Bool-cases (is_far v d e.local_pos p)) [
    | inl far ↦
        rw (far, move-far e p i h far)
          (moved-dragging es p i (handles_press e ∷ handles_move e ∷ []) hs)
    | inr near ↦ rw (near, move-near e p i h near) (moved-after es p i hs)
  ]

  release-after :
      (ratio : Option v.F) (down up : MouseEvent v) (o : Option (List (MouseCall v)))
      (i : RenderViewportItem v)
      → up.button ≡ left
      → let k = after_press down.local_pos i o in
        let r = mouse_release_event v d ratio up k.mouse k.viewport in
        (record {
          mouse = r.mouse;
          viewport = r.viewport;
          calls = k.calls ++ r.calls;
          accepts = r.accepts;
        })
        ≡ outcome ratio down up o i
  unfolding mouse_release_event
  release-after (some x) down up (some cs) i h = rw h refl
  release-after (some x) down up none i h = rw h refl
  release-after none down up (some cs) i h = rw h refl
  release-after none down up none i h = rw h refl

  -- With the left button pressed, moved alone and let go, the scene's camera is told the whole drag from the first move
  -- that is far from the press, and its end; without such a move it is told nothing, and the place of the release is
  -- picked. Nothing stays held.
  pub gesture-Outcome :
      (ratio : Option v.F) (down : MouseEvent v) (es : List (MouseEvent v)) (up : MouseEvent v)
      (m : Mouse v) (i : RenderViewportItem v)
      → down.button ≡ left
      → AllHold es
      → up.button ≡ left
      → gesture ratio down es up m i ≡ outcome ratio down up (drag down.local_pos es) i
  unfolding gesture mouse_press_event
  gesture-Outcome ratio down es up m i h hold k =
      rw (h, moved-after es down.local_pos i hold)
        (release-after ratio down up (drag down.local_pos es) i k)
