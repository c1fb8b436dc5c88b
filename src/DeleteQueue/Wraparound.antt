-- ===== src/DeleteQueue/Wraparound.antt =====
-- resource_arena.h, `isRetired`: the comparison of frame numbers across the wrap of the 32-bit counter.
use qml_and_bgfx_testbridge.Prelude.{ℕ, ◌+◌, ◌%◌, ◌^◌, ◌<◌, ◌≡◌, ◌≢◌, leb, arith}
use qml_and_bgfx_testbridge.DeleteQueue.{never_retired, is_retired}

-- Take two frames by their true numbers, which the device keeps mod 2^32. If they are less than 2^31
-- frames apart and the safe frame is not the one that wraps to the sentinel, then the safe frame
-- counts as retired exactly when it is not after the retired one.
pub is_retired-eq-leb :
    (retired safe : ℕ)
    → retired < safe + 2 ^ 31
    → safe < retired + 2 ^ 31
    → safe % 2 ^ 32 ≢ never_retired
    → is_retired (retired % 2 ^ 32) (safe % 2 ^ 32) ≡ leb safe retired
unfolding is_retired
is_retired-eq-leb retired safe above below known = ground arith
