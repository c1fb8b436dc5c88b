-- ===== src/Bridge/Methods.antt =====
-- test_bridge.cpp, `registerMethods` against the list of methods that `app.describe` gives.
use qml_and_bgfx_testbridge.Prelude.{
  ◌≡◌, refl, ap, ◌∙◌, Bool, true, false, ◌||◌, List, [], ◌∷◌, ◌++◌, map, Option, none, some, String,
  str_eq, arith, Bool-cases, inl, inr,
}
use qml_and_bgfx_testbridge.Rpc.{RpcHandler, find_method, register_method}
use qml_and_bgfx_testbridge.Rpc.Responses.{find_method-register_method}
use qml_and_bgfx_testbridge.Bridge.{
  Providers, register_all, part_methods, described_methods, method_table, register_methods,
}

abbrev pub is_some : {A : Type 0} → Option A → Bool
is_some none = false
is_some (some a) = true

abbrev pub lists : String → List String → Bool
lists name [] = false
lists name (n ∷ ns) = str_eq n name || lists name ns

lists-append :
    (name : String) (xs ys : List String) → lists name (xs ++ ys) ≡ (lists name xs || lists name ys)
lists-append name [] ys = refl
lists-append name (x ∷ xs) ys = ground (arith, lists-append name xs ys)

-- A name that is registered before the last ones, and described after them.
moved :
    (name : String) (first second last : List String) (x : String)
    → (lists name (first ++ (second ++ x ∷ last)) || false)
      ≡ lists name (first ++ second ++ last ++ x ∷ [])
moved name first second last x =
    let a = lists-append name first (second ++ x ∷ last) in
    let b = lists-append name second (x ∷ last) in
    let c = lists-append name (first ++ second ++ last) (x ∷ []) in
    let d = lists-append name (first ++ second) last in
    let e = lists-append name first second in ground arith

module _ {S : Type 0} where
  find-register_all :
      (name : String) (table handlers : List (String × RpcHandler S))
      → is_some (find_method name (register_all table handlers))
        ≡ (lists name (map (λ entry. entry.0) table) || is_some (find_method name handlers))
  unfolding register_all
  find-register_all name [] handlers = refl
  find-register_all name ((n, h) ∷ rest) handlers =
      let ih = find-register_all name rest (register_method n h handlers) in
      let found = ap is_some (find_method-register_method n name h handlers) in
      ih
      ∙ ap (λ b. lists name (map (λ entry. entry.0) rest) || b) found
      ∙ elim (Bool-cases (str_eq n name)) [
        | inl e ↦ rw e (ground arith)
        | inr e ↦ rw e (ground arith)
      ]

  -- A client finds a method exactly if the list of `app.describe`, which is written apart from the registrations, has
  -- it, whatever the parts and the providers are.
  pub find_method-register_methods :
      (part : String → RpcHandler S) (providers : S → Providers S) (name : String)
      → is_some (find_method name (register_methods part providers)) ≡ lists name described_methods
  unfolding register_methods method_table described_methods find_method
  find_method-register_methods part providers name =
      find-register_all name (method_table part providers) []
      ∙ moved name part_methods ("render.caps" ∷ "render.stats" ∷ "render.resources" ∷ [])
          ("shader.compile" ∷ "shader.apply" ∷ "shader.revert" ∷ "shader.list" ∷ [])
          "test.artifacts"
