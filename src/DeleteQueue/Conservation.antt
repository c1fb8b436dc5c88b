-- ===== src/DeleteQueue/Conservation.antt =====
-- resource_arena.h over any sequence of calls: each closure runs once, or waits.
use mathlib.Core.List.{Perm, perm_middle, append_assoc, append-nil, map-append}
use mathlib.Core.List.Perm
use qml_and_bgfx_testbridge.Prelude.{
  ℕ, ◌≡◌, refl, ap, List, [], ◌∷◌, ◌++◌, map, Option, none, some, arith, Bool-cases, inl, inr, ◌==◌,
  if◌then◌else◌, ◌∙◌,
}
use qml_and_bgfx_testbridge.DeleteQueue.{
  Item, never_retired, is_retired, enqueue, collect, flush_all,
}

-- A call of the queue.
pub data Call {ℓ} (A : Type ℓ) : Type ℓ where
  enqueues : Option A → ℕ → Call A
  collects : ℕ → Call A
  flushes : Call A

module _ {ℓ} {A : Type ℓ} where
  abbrev pub fns : List (Item A) → List A
  fns = map λ item. item.fn

  -- The closures that run, in the order of their runs, and the queue after the calls.
  unfoldable pub run : List (Call A) → List (Item A) → List A × List (Item A)
  run [] pending = ([], pending)
  run (enqueues fn frame ∷ calls) pending = run calls (enqueue fn frame pending)
  run (collects frame ∷ calls) pending =
      let (ran, left) = collect frame pending in
      let (later, final) = run calls left in (ran ++ later, final)
  run (flushes ∷ calls) pending =
      let (ran, left) = flush_all pending in
      let (later, final) = run calls left in (ran ++ later, final)

  -- The closures handed in by the calls; an empty one is not.
  abbrev pub accepted : List (Call A) → List A
  accepted [] = []
  accepted (enqueues none frame ∷ calls) = accepted calls
  accepted (enqueues (some fn) frame ∷ calls) = fn ∷ accepted calls
  accepted (collects frame ∷ calls) = accepted calls
  accepted (flushes ∷ calls) = accepted calls

  pub collect-perm :
      (frame : ℕ) (pending : List (Item A))
      → let (ran, left) = collect frame pending in Perm (fns pending) (ran ++ fns left)
  unfolding collect
  collect-perm frame [] = Perm.nil
  collect-perm frame (item ∷ rest) =
      let ih = collect-perm frame rest in
      elim (Bool-cases (is_retired frame item.safe_after_frame)) [
        | inl due ↦ rw due (Perm.cons item.fn ih)
        | inr early ↦ rw early (
            Perm.trans (Perm.cons item.fn ih)
              (Perm.symm (perm_middle (collect frame rest).0 (fns (collect frame rest).1))))
      ]

  -- One collection, followed by whatever the later calls do.
  through :
      (pending ran left acc later final : List A)
      → Perm pending (ran ++ left)
      → Perm (left ++ acc) (later ++ final)
      → Perm (pending ++ acc) ((ran ++ later) ++ final)
  through pending ran left acc later final now after =
      Perm.trans (Perm.append now (Perm.refl acc)) (
        rw (append_assoc ran left acc, append_assoc ran later final)
          (Perm.append (Perm.refl ran) after))

  run-perm :
      (calls : List (Call A)) (pending : List (Item A))
      → let (ran, left) = run calls pending in
        Perm (fns pending ++ accepted calls) (ran ++ fns left)
  unfolding run enqueue flush_all
  run-perm [] pending = rw append-nil (Perm.refl _)
  run-perm (enqueues none frame ∷ calls) pending = run-perm calls pending
  run-perm (enqueues (some fn) frame ∷ calls) pending =
      let item : Item A = record { fn = fn; safe_after_frame = frame } in
      let same : fns (pending ++ item ∷ []) ++ accepted calls ≡ fns pending ++ fn ∷ accepted calls =
        simp (map-append, append_assoc) in
      rw same at (run-perm calls (pending ++ item ∷ []))
  run-perm (collects frame ∷ calls) pending =
      through (fns pending) (collect frame pending).0 (fns (collect frame pending).1)
        (accepted calls) (run calls (collect frame pending).1).0
        (fns (run calls (collect frame pending).1).1) (collect-perm frame pending)
        (run-perm calls (collect frame pending).1)
  run-perm (flushes ∷ calls) pending =
      through (fns pending) (fns pending) [] (accepted calls) (run calls []).0
        (fns (run calls []).1) (rw append-nil (Perm.refl _)) (run-perm calls [])

  -- From an empty queue, after any calls: the closures that ran together with those that still wait
  -- are the closures that were handed in, each as often as it was handed in. None is lost, and none
  -- runs twice.
  pub run_conserves :
      (calls : List (Call A))
      → let (ran, left) = run calls [] in Perm (accepted calls) (ran ++ fns left)
  run_conserves calls = run-perm calls []

  left-flushes :
      (calls : List (Call A)) (pending : List (Item A))
      → (run (calls ++ flushes ∷ []) pending).1 ≡ []
  unfolding run flush_all
  left-flushes [] pending = refl
  left-flushes (enqueues fn frame ∷ calls) pending = left-flushes calls (enqueue fn frame pending)
  left-flushes (collects frame ∷ calls) pending = left-flushes calls (collect frame pending).1
  left-flushes (flushes ∷ calls) pending = left-flushes calls []

  accepted-flushes : (calls : List (Call A)) → accepted (calls ++ flushes ∷ []) ≡ accepted calls
  accepted-flushes [] = refl
  accepted-flushes (enqueues none frame ∷ calls) = accepted-flushes calls
  accepted-flushes (enqueues (some fn) frame ∷ calls) = ap (◌∷◌ fn) (accepted-flushes calls)
  accepted-flushes (collects frame ∷ calls) = accepted-flushes calls
  accepted-flushes (flushes ∷ calls) = accepted-flushes calls

  -- With a flush at the end, as the device makes at shutdown: every closure that was handed in has run,
  -- each as often as it was handed in, and nothing waits.
  pub run_flush_all :
      (calls : List (Call A))
      → let (ran, left) = run (calls ++ flushes ∷ []) [] in (left ≡ []) × Perm (accepted calls) ran
  run_flush_all calls = (
    left-flushes calls [],
    rw (append-nil, accepted-flushes calls) at
        (rw (left-flushes calls []) at (run_conserves (calls ++ flushes ∷ []))),
  )

  abbrev pub NoFlush : List (Call A) → Type 0
  NoFlush [] = Unit {0}
  NoFlush (enqueues fn frame ∷ calls) = NoFlush calls
  NoFlush (collects frame ∷ calls) = NoFlush calls
  NoFlush (flushes ∷ calls) = ⊥

  -- Those that wait for the sentinel, in their order.
  abbrev pub held : List (Item A) → List A
  held [] = []
  held (item ∷ rest) =
      if item.safe_after_frame == never_retired then item.fn ∷ held rest else held rest

  abbrev pub held_calls : List (Call A) → List A
  held_calls [] = []
  held_calls (enqueues none frame ∷ calls) = held_calls calls
  held_calls (enqueues (some fn) frame ∷ calls) =
      if frame == never_retired then fn ∷ held_calls calls else held_calls calls
  held_calls (collects frame ∷ calls) = held_calls calls
  held_calls (flushes ∷ calls) = held_calls calls

  held-append : (xs ys : List (Item A)) → held (xs ++ ys) ≡ held xs ++ held ys
  held-append [] ys = refl
  held-append (item ∷ rest) ys = ground (arith, held-append rest ys)

  held-collect :
      (frame : ℕ) (pending : List (Item A)) → held (collect frame pending).1 ≡ held pending
  unfolding collect is_retired
  held-collect frame [] = refl
  held-collect frame (item ∷ rest) = ground (arith, held-collect frame rest)

  held-run :
      (calls : List (Call A)) (pending : List (Item A))
      → NoFlush calls
      → held (run calls pending).1 ≡ held pending ++ held_calls calls
  unfolding run enqueue
  held-run [] pending no_flush = rw append-nil
  held-run (enqueues none frame ∷ calls) pending no_flush = held-run calls pending no_flush
  held-run (enqueues (some fn) frame ∷ calls) pending no_flush =
      let item : Item A = record { fn = fn; safe_after_frame = frame } in
      held-run calls (pending ++ item ∷ []) no_flush
      ∙ (rw (held-append pending (item ∷ []), append_assoc (held pending))
          (elim (Bool-cases (frame == never_retired)) [ inl e ↦ rw e | inr e ↦ rw e ]))
  held-run (collects frame ∷ calls) pending no_flush =
      rw (← held-collect frame pending) (held-run calls (collect frame pending).1 no_flush)
  held-run (flushes ∷ calls) pending no_flush = absurd no_flush

  -- As long as nothing flushes the queue, the closures that were handed in for an unknown frame (the
  -- sentinel) all wait, in the order in which they came: no collection runs one of them.
  pub run_holds_unknown :
      (calls : List (Call A)) → NoFlush calls → held (run calls []).1 ≡ held_calls calls
  run_holds_unknown calls no_flush = held-run calls [] no_flush
