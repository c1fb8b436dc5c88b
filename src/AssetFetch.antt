-- ===== src/AssetFetch.antt =====
-- src/engine/quick/asset_fetch_service.cpp, `AssetFetchService`: the files of the asset cache. A file is there with
-- its bytes or not there. Qt gives the suffix of a path in lower case, whether a file can be opened for
-- reading, and how the writing and the renaming end; these are parameters.
pub mod Cache
mod Examples
use qml_and_bgfx_testbridge.Prelude.{
  ℕ, ◌%◌, Bool, true, false, not, ◌&&◌, ◌||◌, List, [], ◌∷◌, Option, none, some, String, str_append,
  str_eq, ltb, leb, ◌==◌, if◌then◌else◌, length, take, drop, get_or,
}
use qml_and_bgfx_testbridge.Prelude.Int.{ℤ, pos, ltb_ℤ}

abbrev pub Files : Type 0
Files = String → Option (List ℕ)

unfoldable pub write : String → List ℕ → Files → Files
write path bytes fs q = if str_eq path q then some bytes else fs q

unfoldable pub remove : String → Files → Files
remove path fs q = if str_eq path q then none else fs q

abbrev pub is_there : Option (List ℕ) → Bool
is_there none = false
is_there (some bytes) = true

-- `QFileInfo::exists`
abbrev pub exists : String → Files → Bool
exists path fs = is_there (fs path)

-- `memcmp` and `startsWith` of the bytes at the front.
unfoldable pub begins : List ℕ → List ℕ → Bool
begins [] bytes = true
begins (x ∷ xs) [] = false
begins (x ∷ xs) (b ∷ bs) = x == b && begins xs bs

-- The tests on the first 12 bytes by the suffix, and for r16 on the size.
unfoldable pub fits_suffix : String → List ℕ → ℕ → Bool
fits_suffix ext head size =
    if str_eq ext "png"
    then leb 8 (length head)
      && begins (0x89 ∷ 0x50 ∷ 0x4E ∷ 0x47 ∷ 0x0D ∷ 0x0A ∷ 0x1A ∷ 0x0A ∷ []) head
    else if str_eq ext "jpg" || str_eq ext "jpeg"
    then get_or head 0 0 == 0xFF && get_or head 1 0 == 0xD8
    else if str_eq ext "bmp"
    then leb 2 (length head) && begins (66 ∷ 77 ∷ []) head
    else if str_eq ext "tif" || str_eq ext "tiff"
    then leb 4 (length head)
      && (begins (73 ∷ 73 ∷ 42 ∷ 0 ∷ []) head || begins (77 ∷ 77 ∷ 0 ∷ 42 ∷ []) head)
    else if str_eq ext "webp"
    then leb 12 (length head)
      && begins (82 ∷ 73 ∷ 70 ∷ 70 ∷ []) head
      && begins (87 ∷ 69 ∷ 66 ∷ 80 ∷ []) (drop 8 head)
    else if str_eq ext "r16"
    then ltb 0 size && size % 2 == 0
    else true

-- `isHttpStatusSuccess`: no status is a success.
unfoldable pub is_http_status_success : Option ℤ → Bool
is_http_status_success none = true
is_http_status_success (some code) = not (ltb_ℤ code (pos 200)) && ltb_ℤ code (pos 300)

-- The endings of the cache's file names, in the order of the search.
abbrev pub cached_exts : List String
cached_exts = "" ∷ ".r16" ∷ ".png" ∷ ".jpg" ∷ ".jpeg" ∷ ".tif" ∷ ".bmp" ∷ ".webp" ∷ []

-- What the client is told.
pub data Signal : Type 0 where
  ready : String → Signal
  failed : String → Signal

-- The answers of the file system to a reply: whether the file opens, whether the body was
-- written whole, whether it also came to the disk by
-- the flush and the close, which the code does not ask, what is in the file otherwise, and whether the removals and the
-- renaming succeed.
pub record Writing : Type 0 where
  pub opened : Bool
  pub written : Bool
  pub flushed : Bool
  pub left_on_disk : List ℕ
  pub removes_tmp : Bool
  pub removes_old : Bool
  pub renamed : Bool
  pub removes_bad : Bool

-- `QFile::remove`, which can fail.
abbrev pub try_remove : Bool → String → Files → Files
try_remove true path fs = remove path fs
try_remove false path fs = fs

-- What the temporary file holds when it is closed.
abbrev pub stored : Writing → List ℕ → List ℕ
stored answers body = if answers.written && answers.flushed then body else answers.left_on_disk

-- `removable` is whether the removal of a path succeeds.
module _ (suffix : String → String) (opens removable : String → Bool) where
  unfoldable pub head_ok : String → Option (List ℕ) → Bool
  head_ok path none = false
  head_ok path (some bytes) =
      opens path
      && leb 2 (length (take 12 bytes))
      && fits_suffix (suffix path) (take 12 bytes) (length bytes)

  unfoldable pub has_valid_signature : String → Files → Bool
  has_valid_signature path fs = if str_eq (suffix path) "" then true else head_ok path (fs path)

  -- The loop of `cachedPath`: the path, if one is good, and the files without the bad ones before it.
  unfoldable pub cached_loop : String → List String → Files → Option String × Files
  cached_loop base [] fs = (none, fs)
  cached_loop base (ext ∷ exts) fs =
      let path = str_append base ext in
      let missing = cached_loop base exts fs in
      let removed = cached_loop base exts (try_remove (removable path) path fs) in
      if exists path fs
      then if has_valid_signature path fs then (some path, fs) else removed
      else missing

  unfoldable pub cached_path : String → Files → Option String × Files
  cached_path base fs = cached_loop base cached_exts fs

  -- The end of a request: an error of the network or of HTTP, or the body. The name of the final file comes
  -- from the key and the guessed ending. `QFile::rename` does not replace a file.
  unfoldable pub on_finished : Bool → Option ℤ → List ℕ → String → Writing → Files → Signal × Files
  on_finished network_error status body final_path answers fs =
      let tmp = str_append final_path ".tmp" in
      let bytes = stored answers body in
      let in_tmp = if answers.opened then write tmp bytes fs else fs in
      let cleared = try_remove answers.removes_old final_path in_tmp in
      let moved = remove tmp (write final_path bytes cleared) in
      if network_error || not (is_http_status_success status)
      then (failed "request failed", fs)
      else if not answers.opened || not answers.written
      then (failed "write temp file failed", try_remove answers.removes_tmp tmp in_tmp)
      else if exists final_path cleared || not answers.renamed
      then (failed "atomic rename failed", try_remove answers.removes_tmp tmp cleared)
      else if not (has_valid_signature final_path moved)
      then (failed "invalid response signature", try_remove answers.removes_bad final_path moved)
      else (ready final_path, moved)
