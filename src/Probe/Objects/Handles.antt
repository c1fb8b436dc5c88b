-- ===== src/Probe/Objects/Handles.antt =====
-- qml_probe.cpp, `registerObject`, `resolveHandle`, `list` and `find`: what a handle stands for.
use qml_and_bgfx_testbridge.Prelude.{
  ℕ, ◌≡◌, refl, ◌∙◌, ap, Bool, true, false, List, [], ◌∷◌, Option, none, some, String, str_eq,
  str_eq_iff, ◌==◌, ==_iff, if◌then◌else◌, Bool-cases, inl, inr, arith,
}
use qml_and_bgfx_testbridge.Probe.Objects.{
  Scene, contains, collect_all_named, Registry, put, look_up, register_object, resolve_handle,
  list_loop, list, find_loop, find,
}

look_up-put :
    (h o j : ℕ) (registry : Registry)
    → look_up j (put h o registry) ≡ (if h == j then some o else look_up j registry)
unfolding look_up put
look_up-put h o j [] = refl
look_up-put h o j ((k, p) ∷ rest) = ground (arith, look_up-put h o j rest)

-- What a handle gives that stands for an object.
abbrev pub alive : (ℕ → Bool) → ℕ → Option ℕ
alive dead o = if dead o then none else some o

resolve-look_up :
    (dead : ℕ → Bool) (h o : ℕ) (registry : Registry)
    → look_up h registry ≡ some o
    → resolve_handle dead h registry ≡ alive dead o
unfolding resolve_handle
resolve-look_up dead h o registry e = rw e refl

-- A handle stands for the object that was last registered at its address, until this dies, and others stand for what
-- they did.
pub resolve_handle-register_object :
    (address : ℕ → ℕ) (dead : ℕ → Bool) (o : ℕ) (registry : Registry)
    → let (handle, registry') = register_object address (some o) registry in
      (j : ℕ)
      → resolve_handle dead j registry'
        ≡ (if handle == j then alive dead o else resolve_handle dead j registry)
unfolding register_object resolve_handle
resolve_handle-register_object address dead o registry j =
    rw (look_up-put (address o) o j registry) (ground arith)

module _ (scene : Scene) (address : ℕ → ℕ) where
  -- A client of `find` has the handle of an object that is listed and has the name, or there is none.
  abbrev pub FoundIn : List ℕ → String → Registry → Option ℕ × Registry → Type 0
  FoundIn os name registry (none, registry') =
      ((o : ℕ) → contains os o ≡ true → str_eq (scene.name o) name ≡ false) × (registry' ≡ registry)
  FoundIn os name registry (some handle, registry') =
      (o : ℕ) × (contains os o ≡ true)
      × (scene.name o ≡ name)
      × ((dead : ℕ → Bool) → resolve_handle dead handle registry' ≡ alive dead o)

  FoundIn-cons :
      (o : ℕ) (os : List ℕ) (name : String) (registry : Registry) (found : Option ℕ × Registry)
      → str_eq (scene.name o) name ≡ false
      → FoundIn os name registry found
      → FoundIn (o ∷ os) name registry found
  FoundIn-cons o os name registry (none, registry') other (others, same) = (
    λ p h. elim (Bool-cases (o == p)) [
      | inl e ↦ rw (← (==_iff o p).0 e) other
      | inr e ↦ others p (ground arith)
    ],
    same,
  )
  FoundIn-cons o os name registry (some handle, registry') other (p, here, named, resolves) =
      (p, ground arith, named, resolves)

  find_loop-FoundIn :
      (os : List ℕ) (name : String) (registry : Registry)
      → FoundIn os name registry (find_loop scene address name os registry)
  unfolding find_loop register_object
  find_loop-FoundIn [] name registry = (λ o h. cc, refl)
  find_loop-FoundIn (o ∷ os) name registry = elim (Bool-cases (str_eq (scene.name o) name)) [
    | inl e ↦
        let put_there = look_up-put (address o) o (address o) registry in
        rw e (
          o,
          ground arith,
          (str_eq_iff (scene.name o) name).0 e,
          λ dead.
              resolve-look_up dead (address o) o (put (address o) o registry)
                (put_there ∙ ground arith),
        )
    | inr e ↦ rw e (
        FoundIn-cons o os name registry (find_loop scene address name os registry) e
          (find_loop-FoundIn os name registry))
  ]

  -- `find` gives a handle that stands for an object of the list with this name, or there is no such object and no
  -- handle is registered.
  pub find-FoundIn :
      (name : String) (registry : Registry)
      → FoundIn (collect_all_named scene) name registry (find scene address name registry)
  unfolding find
  find-FoundIn name registry = find_loop-FoundIn (collect_all_named scene) name registry

  -- Of objects that live at once no two have one address.
  abbrev pub Apart : List ℕ → Type 0
  Apart os = (o p : ℕ) → contains os o ≡ true → contains os p ≡ true → address p ≡ address o → p ≡ o

  look_up-list_loop :
      (o : ℕ) (os : List ℕ) (registry : Registry)
      → look_up (address o) registry ≡ some o
      → ((p : ℕ) → contains os p ≡ true → address p ≡ address o → p ≡ o)
      → look_up (address o) (list_loop scene address os registry).1 ≡ some o
  unfolding list_loop register_object
  look_up-list_loop o [] registry e apart = e
  look_up-list_loop o (p ∷ os) registry e apart =
      look_up-list_loop o os (put (address p) p registry)
        (elim (Bool-cases (address p == address o)) [
          | inl same ↦
              look_up-put (address p) p (address o) registry
              ∙ rw same (ap some (apart p (ground arith) ((==_iff (address p) (address o)).0 same)))
          | inr other ↦ look_up-put (address p) p (address o) registry ∙ rw other e
        ])
        (λ q h. apart q (ground arith))

  listed-resolves :
      (os : List ℕ) (registry : Registry)
      → Apart os
      → (o : ℕ) → contains os o ≡ true
      → look_up (address o) (list_loop scene address os registry).1 ≡ some o
  unfolding list_loop register_object
  listed-resolves [] registry apart o h = cc
  listed-resolves (p ∷ os) registry apart o h = elim (Bool-cases (p == o)) [
    | inl same ↦
        let e = (==_iff p o).0 same in
        look_up-list_loop o os (put (address p) p registry)
          (look_up-put (address p) p (address o) registry ∙ rw e (ground arith))
          (λ q i. apart o q h (ground arith))
    | inr other ↦
        listed-resolves os (put (address p) p registry)
          (λ q r i j. apart q r (ground arith) (ground arith)) o (ground arith)
  ]

  -- After `list` the handle of each listed object stands for this object, until it dies.
  pub resolve_handle-list :
      (registry : Registry)
      → Apart (collect_all_named scene)
      → (o : ℕ) → contains (collect_all_named scene) o ≡ true
      → (dead : ℕ → Bool)
      → resolve_handle dead (address o) (list scene address registry).1 ≡ alive dead o
  unfolding list
  resolve_handle-list registry apart o h dead =
      resolve-look_up dead (address o) o
        (list_loop scene address (collect_all_named scene) registry).1
        (listed-resolves (collect_all_named scene) registry apart o h)
