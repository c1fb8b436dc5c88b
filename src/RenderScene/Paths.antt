-- ===== src/RenderScene/Paths.antt =====
-- render_scene.cpp, `normalizeLocalPath`. The urls and the files of Qt are a parameter.
use qml_and_bgfx_testbridge.Prelude.{
  Bool, not, ◌&&◌, ◌||◌, Option, none, some, String, str_eq, if◌then◌else◌,
}

pub record Files : Type 0 where
  pub local_file : String → Option String  -- toLocalFile of a valid url of a local file
  pub qrc_path : String → Option String  -- path of another valid url with the scheme qrc
  pub exists : String → Bool
  pub behind_slash : String → Option String  -- mid(1) of a text that begins with '/'
  pub from_native_separators : String → String

module _ (q : Files) where
  -- The candidate behind its slash, or the path as it was.
  abbrev pub without_slash : Option String → String → String
  without_slash none path = path
  without_slash (some relative) path = if q.exists relative then relative else path

  abbrev pub resolve_qrc : Option String → String → String
  resolve_qrc none path = path
  resolve_qrc (some candidate) path =
      if not (str_eq candidate "") && q.exists candidate
      then candidate
      else without_slash (q.behind_slash candidate) path

  abbrev pub resolve : Option String → String → String
  resolve (some local) path = local
  resolve none path = resolve_qrc (q.qrc_path path) path

  unfoldable pub normalize_local_path : String → String
  normalize_local_path path =
      let local = q.from_native_separators (resolve (q.local_file path) path) in
      if str_eq path ""
      then ""
      else if str_eq local "" || str_eq local "." || str_eq local ".." || str_eq local "/"
      then ""
      else if not (q.exists local)
      then ""
      else local
