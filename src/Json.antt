-- ===== src/Json.antt =====
-- JSON values, as RFC 8259 has them and `nlohmann::json` holds them: the data that the bridge, the
-- render statistics and the camera settings exchange. Parsing and printing are no part of it. An
-- object keeps its members in the order of their insertion, which no operation below observes.
use qml_and_bgfx_testbridge.Prelude.{
  ℕ, ◌≡◌, refl, Bool, List, [], ◌∷◌, Option, none, some, String, str_eq, str_eq_iff, if◌then◌else◌,
  arith,
}
use qml_and_bgfx_testbridge.Prelude.Int.{ℤ}

mutual
  pub data Json : Type 0 where
    null : Json
    boolean : Bool → Json
    integer : ℤ → Json
    -- the bit pattern of a double
    float : ℕ → Json
    string : String → Json
    array : Items → Json
    object : Fields → Json

  pub data Items : Type 0 where
    nil : Items
    cons : Json → Items → Items

  pub data Fields : Type 0 where
    end : Fields
    field : String → Json → Fields → Fields

abbrev pub items : List Json → Items
items [] = nil
items (j ∷ js) = cons j (items js)

abbrev pub fields : List (String × Json) → Fields
fields [] = end
fields ((k, j) ∷ kjs) = field k j (fields kjs)

-- `json::array()` filled by `push_back`, and a brace list of members.
abbrev pub array_of : List Json → Json
array_of js = array (items js)

abbrev pub object_of : List (String × Json) → Json
object_of kjs = object (fields kjs)

unfoldable pub lookup : String → Fields → Option Json
lookup k end = none
lookup k (field j v fs) = if str_eq j k then some v else lookup k fs

unfoldable pub insert : String → Json → Fields → Fields
insert k v end = field k v end
insert k v (field j w fs) = if str_eq j k then field k v fs else field j w (insert k v fs)

-- `j.contains(k)` and `j[k]` together: only an object has members.
unfoldable pub member : String → Json → Option Json
unfolding lookup
member k (object fs) = lookup k fs
member k null = none
member k (boolean _) = none
member k (integer _) = none
member k (float _) = none
member k (string _) = none
member k (array _) = none

pub lookup-insert :
    (k j : String) (v : Json) (fs : Fields)
    → lookup j (insert k v fs) ≡ (if str_eq k j then some v else lookup j fs)
unfolding lookup insert
lookup-insert k j v end = refl
lookup-insert k j v (field i w fs) =
    ground (arith, str_eq_iff k j, str_eq_iff i k, str_eq_iff i j, lookup-insert k j v fs)
