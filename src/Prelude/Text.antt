-- ===== src/Prelude/Text.antt =====
-- Texts: the two operations of the library's strings that the program uses, under names of their own.
use Prim.Native.String.{String, ◌++◌}
use text.Mathlib.Text.{◌==◌}
use text.Mathlib.TextEquality.{eq_iff}
use mathlib.Core.Path.{◌≡◌}
use mathlib.Core.Logic.{◌↔◌}
use mathlib.Core.Bool.{Bool, true}
use mathlib.Core.List.{List, [], ◌∷◌}

abbrev pub str_append : String → String → String
str_append s t = ◌++◌ s t

abbrev pub str_eq : String → String → Bool
str_eq s t = ◌==◌ s t

pub str_eq_iff : (s t : String) → (str_eq s t ≡ true) ↔ (s ≡ t)
str_eq_iff s t = eq_iff s t

abbrev pub concat_str : List String → String
concat_str [] = ""
concat_str (s ∷ ss) = str_append s (concat_str ss)
