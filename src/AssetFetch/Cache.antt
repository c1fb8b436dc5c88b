-- ===== src/AssetFetch/Cache.antt =====
-- asset_fetch_service.cpp: what the cache holds after a request and after a search.
use qml_and_bgfx_testbridge.Prelude.{
  ℕ, ◌≡◌, refl, ap, Bool, true, false, List, [], ◌∷◌, Option, none, some, String, str_append,
  str_eq, str_eq_iff, arith, Bool-cases, inl, inr, if◌then◌else◌,
}
use qml_and_bgfx_testbridge.Prelude.Int.{ℤ}
use qml_and_bgfx_testbridge.AssetFetch.{
  Files, write, remove, try_remove, stored, exists, is_there, Signal, ready, failed, Writing,
  has_valid_signature, cached_loop, cached_path, cached_exts,
}

remove_self : (path : String) (fs : Files) → remove path fs path ≡ none
unfolding remove
remove_self path fs = ground (arith, str_eq_iff path path)

module _ (suffix : String → String) (opens removable : String → Bool) where
  -- What a request leaves under the final path.
  pub data Left (final_path : String) (body : List ℕ) (answers : Writing) (fs fs' : Files)
      : Signal → Type 0 where
    kept_body :
        fs' final_path ≡ some (stored answers body)
        → has_valid_signature suffix opens removable final_path fs' ≡ true
        → Left final_path body answers fs fs' (ready final_path)
    nothing :
        (what : String) → fs' final_path ≡ none → Left final_path body answers fs fs' (failed what)
    as_before :
        (what : String)
        → fs' final_path ≡ fs final_path
        → Left final_path body answers fs fs' (failed what)
    bad_file :
        (what : String)
        → fs' final_path ≡ some (stored answers body)
        → has_valid_signature suffix opens removable final_path fs' ≡ false
        → answers.removes_bad ≡ false
        → Left final_path body answers fs fs' (failed what)

  module _ (network_error : Bool) (status : Option ℤ) (body : List ℕ) (final_path : String)
      (answers : Writing) (fs : Files) where
    abbrev tmp : String
    tmp = str_append final_path ".tmp"

    abbrev in_tmp : Files
    in_tmp = if answers.opened then write tmp (stored answers body) fs else fs

  -- What the search finds, of the paths from a base with the endings of a list.
  pub data Found (base : String) (fs' : Files) : List String → Option String → Type 0 where
    hit :
        (ext : String) (exts : List String)
        → exists (str_append base ext) fs' ≡ true
        → has_valid_signature suffix opens removable (str_append base ext) fs' ≡ true
        → Found base fs' (ext ∷ exts) (some (str_append base ext))
    miss : Found base fs' [] none
    missing :
        (ext : String) (exts : List String) (answer : Option String)
        → exists (str_append base ext) fs' ≡ false
        → Found base fs' exts answer
        → Found base fs' (ext ∷ exts) answer
    not_removable :
        (ext : String) (exts : List String) (answer : Option String)
        → removable (str_append base ext) ≡ false
        → Found base fs' exts answer
        → Found base fs' (ext ∷ exts) answer

  exists-remove :
      (path q : String) (fs : Files) → exists q fs ≡ false → exists q (remove path fs) ≡ false
  unfolding remove
  exists-remove path q fs h = elim (Bool-cases (str_eq path q)) [
    | inl e ↦ rw e refl
    | inr e ↦ rw e h
  ]

  exists-try_remove :
      (done : Bool) (path q : String) (fs : Files)
      → exists q fs ≡ false
      → exists q (try_remove done path fs) ≡ false
  exists-try_remove true path q fs h = exists-remove path q fs h
  exists-try_remove false path q fs h = h

  -- What is absent stays so.
  exists-cached_loop :
      (q base : String) (exts : List String) (fs : Files)
      → exists q fs ≡ false
      → exists q (cached_loop suffix opens removable base exts fs).1 ≡ false
  unfolding cached_loop
  exists-cached_loop q base [] fs h = h
  exists-cached_loop q base (ext ∷ exts) fs h =
      let path = str_append base ext in
      elim (Bool-cases (exists path fs)) [
        | inl there ↦
            rw there (elim (Bool-cases (has_valid_signature suffix opens removable path fs)) [
              | inl good ↦ rw good h
              | inr bad ↦ rw bad (
                  exists-cached_loop q base exts (try_remove (removable path) path fs)
                    (exists-try_remove (removable path) path q fs h))
            ])
        | inr absent ↦ rw absent (exists-cached_loop q base exts fs h)
      ]

  cached_loop-Found :
      (base : String) (exts : List String) (fs : Files)
      → let (answer, fs') = cached_loop suffix opens removable base exts fs in
        Found base fs' exts answer
  unfolding cached_loop
  cached_loop-Found base [] fs = miss
  cached_loop-Found base (ext ∷ exts) fs =
      let path = str_append base ext in
      let gone : exists path (remove path fs) ≡ false = ap is_there (remove_self path fs) in
      elim (Bool-cases (exists path fs)) [
        | inl there ↦
            rw there (elim (Bool-cases (has_valid_signature suffix opens removable path fs)) [
              | inl good ↦ rw good (hit ext exts there good)
              | inr bad ↦ rw bad (elim (Bool-cases (removable path)) [
                | inl can ↦ rw can (
                    missing ext exts _ (exists-cached_loop path base exts (remove path fs) gone)
                      (cached_loop-Found base exts (remove path fs)))
                | inr cannot ↦
                    rw cannot (not_removable ext exts _ cannot (cached_loop-Found base exts fs))
              ])
            ])
        | inr absent ↦ rw absent (
            missing ext exts _ (exists-cached_loop path base exts fs absent)
              (cached_loop-Found base exts fs))
      ]

  -- The search gives the first path, in the order of the endings, at which the cache has a file when it is done,
  -- and that file passes the test of its suffix; and if it gives none, then there is no such file: those that
  -- failed the test are gone, but for those that could not be removed.
  pub cached_path-Found :
      (base : String) (fs : Files)
      → let (answer, fs') = cached_path suffix opens removable base fs in
        Found base fs' cached_exts answer
  unfolding cached_path
  cached_path-Found base fs = cached_loop-Found base cached_exts fs
