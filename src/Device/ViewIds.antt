-- ===== src/Device/ViewIds.antt =====
-- render_device.cpp, `allocateViewId` and `freeViewId`: view ids are `uint8_t`, and 255 stands for none.
pub mod Allocation
use qml_and_bgfx_testbridge.Prelude.{
  ℕ, zero, suc, ◌+◌, ◌%◌, Bool, true, false, ◌||◌, List, [], ◌∷◌, ◌==◌, if◌then◌else◌,
}

-- `kInvalidViewId`
abbrev pub invalid_view_id : ℕ
invalid_view_id = 255

-- `m_usedViewIds` as a list without repetition, and `m_nextViewId`.
pub record Views : Type 0 where
  pub used : List ℕ
  pub next : ℕ

unfoldable pub contains : ℕ → List ℕ → Bool
contains v [] = false
contains v (u ∷ us) = u == v || contains v us

unfoldable pub erase : ℕ → List ℕ → List ℕ
erase v [] = []
erase v (u ∷ us) = let rest = erase v us in if u == v then rest else u ∷ rest

-- The loop of `allocateViewId`, with the rounds that are left.
unfoldable pub allocate_from : ℕ → ℕ → Views → ℕ × Views
allocate_from zero i views = (invalid_view_id, views)
allocate_from (suc rounds) i views =
    let candidate = (views.next + i) % 256 in
    let later = allocate_from rounds (i + 1) views in
    if contains candidate views.used
    then later
    else (candidate, record { used = candidate ∷ views.used; next = (candidate + 1) % 256 })

unfoldable pub allocate_view_id : Views → ℕ × Views
unfolding allocate_from
allocate_view_id views = allocate_from 256 0 views

unfoldable pub free_view_id : ℕ → Views → Views
free_view_id v views =
    if v == invalid_view_id then views else record views { used = erase v views.used }
