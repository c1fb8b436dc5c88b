-- ===== src/DeleteQueue/Examples.antt =====
-- Tests of resource_arena.h, and its theorems at inputs.
use mathlib.Core.List.{Perm}
use qml_and_bgfx_testbridge.Prelude.{
  ℕ, ◌+◌, ◌-◌, ◌%◌, ◌^◌, ◌≡◌, refl, true, List, [], ◌∷◌, ◌++◌, some, none, arith,
}
use qml_and_bgfx_testbridge.DeleteQueue.{never_retired, is_retired, enqueue, collect}
use qml_and_bgfx_testbridge.DeleteQueue.Wraparound.{is_retired-eq-leb}
use qml_and_bgfx_testbridge.DeleteQueue.Conservation.{
  Call, enqueues, collects, flushes, run, run_flush_all,
}

-- Closures 1 to 4: one for a frame just before the wrap of the counter, one for a frame after it, one for
-- an unknown frame, and an empty one between them.
abbrev history : List (Call ℕ)
history =
    enqueues (some 1) 0xffff_fffe
    ∷ enqueues none 7
    ∷ enqueues (some 2) 3
    ∷ enqueues (some 3) never_retired
    ∷ collects 1
    ∷ enqueues (some 4) 2
    ∷ collects 2
    ∷ []

history_runs : (run history []).0 ≡ 1 ∷ 4 ∷ []
unfolding run enqueue collect is_retired
history_runs = refl

is_retired-eq-leb_example : is_retired ((2 ^ 32 + 1) % 2 ^ 32) ((2 ^ 32 - 2) % 2 ^ 32) ≡ true
is_retired-eq-leb_example =
    is_retired-eq-leb (2 ^ 32 + 1) (2 ^ 32 - 2) (omega arith) (omega arith) (omega arith)

run_flush_all_example :
    ((run (history ++ flushes ∷ []) []).1 ≡ [])
    × Perm (1 ∷ 2 ∷ 3 ∷ 4 ∷ []) (run (history ++ flushes ∷ []) []).0
run_flush_all_example = run_flush_all history
