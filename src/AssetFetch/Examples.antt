-- ===== src/AssetFetch/Examples.antt =====
-- Tests of asset_fetch_service.cpp, and its theorems at inputs.
use qml_and_bgfx_testbridge.Prelude.{
  ◌≡◌, refl, Bool, true, false, [], ◌∷◌, none, some, String, str_eq, if◌then◌else◌,
}
use qml_and_bgfx_testbridge.AssetFetch.{
  Files, Writing, cached_path, cached_loop, has_valid_signature, head_ok, fits_suffix, begins,
  remove,
}

abbrev suffix : String → String
suffix path = if str_eq path "k.bmp" then "bmp" else ""

abbrev opens : String → Bool
opens path = true

-- A cache with one file that is no bitmap.
abbrev bad_cache : Files
bad_cache path = if str_eq path "k.bmp" then some (1 ∷ 2 ∷ 3 ∷ []) else none

abbrev written_well : Writing
written_well = record {
  opened = true;
  written = true;
  flushed = true;
  left_on_disk = [];
  removes_tmp = true;
  removes_old = true;
  renamed = true;
  removes_bad = false;
}

nothing_found : (cached_path suffix opens opens "k" bad_cache).0 ≡ none
unfolding cached_path cached_loop has_valid_signature head_ok fits_suffix begins remove
nothing_found = refl
