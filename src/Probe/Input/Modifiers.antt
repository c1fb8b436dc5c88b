-- ===== src/Probe/Input/Modifiers.antt =====
-- qml_probe.cpp, `parseModifiers`: which modifiers a list of names gives.
use qml_and_bgfx_testbridge.Prelude.{
  ◌≡◌, refl, sym, Bool, true, false, ◌||◌, ◌&&◌, String, str_eq, Bool-cases, inl, inr, arith, subst,
  str_eq_iff, str_append, ◌⊎◌,
}
use qml_and_bgfx_testbridge.Json.{
  Json, null, boolean, integer, float, string, array, object, Items, nil, cons,
}
use qml_and_bgfx_testbridge.Rpc.{Outcome, returns, throws, throws_other}
use qml_and_bgfx_testbridge.Probe.Input.{
  KeyboardModifiers, no_modifier, add_modifier, modifiers_loop, parse_modifiers,
}

-- A list has this name, or that.
abbrev pub has : String → String → Items → Bool
has n m nil = false
has n m (cons (string s) rest) = str_eq s n || str_eq s m || has n m rest
has n m (cons _ rest) = has n m rest

-- The entry is one of the names that are known.
abbrev pub is_modifier : Json → Bool
is_modifier (string s) =
    str_eq s "ctrl"
    || str_eq s "control"
    || str_eq s "shift"
    || str_eq s "alt"
    || str_eq s "meta"
    || str_eq s "super"
    || str_eq s "keypad"
is_modifier _ = false

abbrev pub all_modifiers : Items → Bool
all_modifiers nil = true
all_modifiers (cons j rest) = is_modifier j && all_modifiers rest

-- The modifiers of a list, added to others.
abbrev pub added : KeyboardModifiers → Items → KeyboardModifiers
added out mods = record {
  control = out.control || has "ctrl" "control" mods;
  shift = out.shift || has "shift" "shift" mods;
  alt = out.alt || has "alt" "alt" mods;
  meta = out.meta || has "meta" "super" mods;
  keypad = out.keypad || has "keypad" "keypad" mods;
}

abbrev pub Reads : Bool → KeyboardModifiers → Outcome KeyboardModifiers → Type 0
Reads good m (returns m') = (good ≡ true) × (m' ≡ m)
Reads good m (throws what) = good ≡ false
Reads good m throws_other = ⊥

-- What an entry does.
abbrev Entry : String → KeyboardModifiers → Type 0
Entry s out =
    ((is_modifier (string s) ≡ true)
      × (add_modifier s out ≡ returns (added out (cons (string s) nil))))
    ⊎ ((is_modifier (string s) ≡ false) × ((what : String) × (add_modifier s out ≡ throws what)))

-- A name that is known adds its modifier and no other.
adds :
    (n s : String) (out : KeyboardModifiers)
    → is_modifier (string n) ≡ true
    → add_modifier n out ≡ returns (added out (cons (string n) nil))
    → str_eq s n ≡ true
    → Entry s out
adds n s out good e same =
    let eq = (str_eq_iff s n).0 same in subst (λ t. Entry t out) (sym eq) (inl (good, e))

entry : (s : String) (out : KeyboardModifiers) → Entry s out
unfolding add_modifier
entry s out = elim (Bool-cases (str_eq s "ctrl")) [
  | inl e ↦ adds "ctrl" s out refl (ground arith) e
  | inr no_ctrl ↦ elim (Bool-cases (str_eq s "control")) [
    | inl e ↦ adds "control" s out refl (ground arith) e
    | inr no_control ↦ elim (Bool-cases (str_eq s "shift")) [
      | inl e ↦ adds "shift" s out refl (ground arith) e
      | inr no_shift ↦ elim (Bool-cases (str_eq s "alt")) [
        | inl e ↦ adds "alt" s out refl (ground arith) e
        | inr no_alt ↦ elim (Bool-cases (str_eq s "meta")) [
          | inl e ↦ adds "meta" s out refl (ground arith) e
          | inr no_meta ↦ elim (Bool-cases (str_eq s "super")) [
            | inl e ↦ adds "super" s out refl (ground arith) e
            | inr no_super ↦ elim (Bool-cases (str_eq s "keypad")) [
              | inl e ↦ adds "keypad" s out refl (ground arith) e
              | inr no_keypad ↦
                  inr (ground arith, (str_append "unknown modifier: " s, ground arith))
            ]
          ]
        ]
      ]
    ]
  ]
]

added-cons :
    (out : KeyboardModifiers) (s : String) (rest : Items)
    → added (added out (cons (string s) nil)) rest ≡ added out (cons (string s) rest)
added-cons out s rest = ground arith

modifiers_loop-Reads :
    (mods : Items) (out : KeyboardModifiers)
    → Reads (all_modifiers mods) (added out mods) (modifiers_loop mods out)
unfolding modifiers_loop
modifiers_loop-Reads nil out = (refl, ground arith)
modifiers_loop-Reads (cons (string s) rest) out = elim (entry s out) [
  | inl (good, e) ↦
      rw (e, good, ← added-cons out s rest)
        (modifiers_loop-Reads rest (added out (cons (string s) nil)))
  | inr (bad, (what, e)) ↦ rw (e, bad) refl
]
modifiers_loop-Reads (cons null rest) out = refl
modifiers_loop-Reads (cons (boolean _) rest) out = refl
modifiers_loop-Reads (cons (integer _) rest) out = refl
modifiers_loop-Reads (cons (float _) rest) out = refl
modifiers_loop-Reads (cons (array _) rest) out = refl
modifiers_loop-Reads (cons (object _) rest) out = refl

-- A list of names is read if each name is known, and then a modifier is set just if one of its names is in the
-- list, whatever the order and however often.
pub parse_modifiers-Reads :
    (mods : Items)
    → Reads (all_modifiers mods) (added no_modifier mods) (parse_modifiers (array mods))
unfolding parse_modifiers
parse_modifiers-Reads mods = modifiers_loop-Reads mods no_modifier
