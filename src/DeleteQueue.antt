-- ===== src/DeleteQueue.antt =====
-- src/engine/common/resource_arena.h, `DeferredDeleteQueue`: clean-up closures that wait for a frame
-- to be retired. A closure is a value of any type, and to run it is to list it in the order of the
-- calls; the source runs them after the lock is released, so what they enqueue in turn is a later call.
-- The mutex makes each operation one step.
pub mod Wraparound
pub mod Conservation
mod Examples
use qml_and_bgfx_testbridge.Prelude.{
  ℕ, ◌+◌, ◌-◌, ◌%◌, ◌^◌, Bool, false, List, [], ◌∷◌, ◌++◌, map, Option, none, some, ltb, ◌==◌,
  if◌then◌else◌, length,
}

pub record Item {ℓ} (A : Type ℓ) : Type ℓ where
  pub fn : A
  pub safe_after_frame : ℕ  -- uint32_t

-- `kNeverRetired`
abbrev pub never_retired : ℕ
never_retired = 0xffff_ffff

-- `int32_t(retiredFrame - safeFrame) >= 0`, the difference taken mod 2^32.
unfoldable pub is_retired : ℕ → ℕ → Bool
is_retired retired_frame safe_frame =
    if safe_frame == never_retired
    then false
    else ltb ((retired_frame + 2 ^ 32 - safe_frame) % 2 ^ 32) (2 ^ 31)

module _ {ℓ} {A : Type ℓ} where
  -- The member `m_pending`, its front first. An empty `std::function` is `none`.
  unfoldable pub enqueue : Option A → ℕ → List (Item A) → List (Item A)
  enqueue none frame pending = pending
  enqueue (some fn) frame pending = pending ++ record { fn = fn; safe_after_frame = frame } ∷ []

  -- The loop over `m_pending`: what moves to `ready`, and what stays.
  unfoldable pub collect : ℕ → List (Item A) → List A × List (Item A)
  collect retired_frame [] = ([], [])
  collect retired_frame (item ∷ rest) =
      let (ready, pending) = collect retired_frame rest in
      if is_retired retired_frame item.safe_after_frame
      then (item.fn ∷ ready, pending)
      else (ready, item ∷ pending)

  unfoldable pub flush_all : List (Item A) → List A × List (Item A)
  flush_all pending = (map (λ item. item.fn) pending, [])

  unfoldable pub pending_count : List (Item A) → ℕ
  pending_count pending = length pending
