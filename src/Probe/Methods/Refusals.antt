-- ===== src/Probe/Methods/Refusals.antt =====
-- qml_probe.cpp: what the methods do without an object, and what they have done when they fail.
use qml_and_bgfx_testbridge.Prelude.{
  ℕ, ◌≡◌, refl, ◌⊎◌, inl, inr, Option, none, some, String, Option-cases, arith, subst,
}
use qml_and_bgfx_testbridge.Json.{Json, member}
use qml_and_bgfx_testbridge.Rpc.{Outcome, returns, throws, throws_other}
use qml_and_bgfx_testbridge.Probe.Objects.{Registry, resolve_handle}
use qml_and_bgfx_testbridge.Probe.Input.{◌>>=◌, parse_key, parse_modifiers, parse_mouse_button}
use qml_and_bgfx_testbridge.Probe.Values.{
  Qt, Nlohmann, Event, Geometry, need, as_string, value_string, value_int,
}
use qml_and_bgfx_testbridge.Probe.Methods.{
  Answer, act, with_window, send_event, get_params, get, set_params, set, invoke_params, invoke,
  click_params, click, type_params, type_text, mouse_params, mouse, key_params, key, geometry,
}

-- What holds of the value, if there is one.
abbrev Of : {A : Type 0} → (A → Type 0) → Outcome A → Type 0
Of P (returns a) = P a
Of P (throws what) = Unit
Of P throws_other = Unit

bind_holds :
    {A B : Type 0} (P : B → Type 0) (m : Outcome A) (f : A → Outcome B)
    → ((a : A) → m ≡ returns a → Of P (f a))
    → Of P (m >>= f)
bind_holds P (returns a) f h = h a refl
bind_holds P (throws what) f h = tt
bind_holds P throws_other f h = tt

of_returns : {A : Type 0} (P : A → Type 0) (m : Outcome A) (a : A) → Of P m → m ≡ returns a → P a
of_returns P (returns b) a h e = subst P (ground arith) h
of_returns P (throws what) a h e = cc
of_returns P throws_other a h e = cc

pub data Method : Type 0 where
  get_method set_method invoke_method click_method type_method mouse_method key_method
        geometry_method :
      Method

module _ (qt : Qt) (nl : Nlohmann) where
  unfoldable pub call : Method → Registry → Json → qt.World → Answer qt nl
  call get_method = get qt nl
  call set_method = set qt nl
  call invoke_method = invoke qt nl
  call click_method = click qt nl
  call type_method = type_text qt nl
  call mouse_method = mouse qt nl
  call key_method = key qt nl
  call geometry_method = geometry qt nl

  -- The parameters have this handle.
  abbrev pub HasHandle : Json → ℕ → Type 0
  HasHandle params h = (j : Json) × (member "handle" params ≡ some j) × (nl.as_u64 j ≡ returns h)

  need-member :
      (message k : String) (params j : Json)
      → need nl message k params ≡ returns j
      → member k params ≡ some j
  unfolding need
  need-member message k params j e = ground arith

  abbrev HandleOf : {A : Type 0} → Json → ℕ × A → Type 0
  HandleOf params r = HasHandle params r.0

  get_params-HasHandle : (params : Json) → Of (HandleOf params) (get_params qt nl params)
  unfolding get_params
  get_params-HasHandle params = bind_holds _ (need nl _ "handle" params) _ λ h e.
      bind_holds _ (need nl _ "property" params) _ λ p _.
        bind_holds _ (nl.as_u64 h) _
          λ n e'. bind_holds _ (as_string nl p) _ λ s _. (h, need-member _ "handle" params h e, e')

  set_params-HasHandle : (params : Json) → Of (HandleOf params) (set_params qt nl params)
  unfolding set_params
  set_params-HasHandle params = bind_holds _ (need nl _ "handle" params) _ λ h e.
      bind_holds _ (need nl _ "property" params) _ λ p _.
        bind_holds _ (need nl _ "value" params) _ λ v _.
          bind_holds _ (nl.as_u64 h) _ λ n e'.
            bind_holds _ (as_string nl p) _ λ s _. (h, need-member _ "handle" params h e, e')

  invoke_params-HasHandle : (params : Json) → Of (HandleOf params) (invoke_params qt nl params)
  unfolding invoke_params
  invoke_params-HasHandle params = bind_holds _ (need nl _ "handle" params) _ λ h e.
      bind_holds _ (need nl _ "method" params) _ λ p _.
        bind_holds _ (nl.as_u64 h) _
          λ n e'. bind_holds _ (as_string nl p) _ λ s _. (h, need-member _ "handle" params h e, e')

  click_params-HasHandle : (params : Json) → Of (HandleOf params) (click_params qt nl params)
  unfolding click_params
  click_params-HasHandle params =
      bind_holds _ (need nl _ "handle" params) _
        λ h e. bind_holds _ (nl.as_u64 h) _ λ n e'. (h, need-member _ "handle" params h e, e')

  type_params-HasHandle : (params : Json) → Of (HandleOf params) (type_params qt nl params)
  unfolding type_params
  type_params-HasHandle params = bind_holds _ (need nl _ "handle" params) _ λ h e.
      bind_holds _ (need nl _ "text" params) _ λ p _.
        bind_holds _ (nl.as_u64 h) _
          λ n e'. bind_holds _ (as_string nl p) _ λ s _. (h, need-member _ "handle" params h e, e')

  mouse_params-HasHandle : (params : Json) → Of (HandleOf params) (mouse_params qt nl params)
  unfolding mouse_params
  mouse_params-HasHandle params = bind_holds _ (need nl _ "handle" params) _ λ h e.
      bind_holds _ (nl.as_u64 h) _ λ n e'.
        bind_holds _ (value_string nl "action" "click" params) _ λ a _.
          bind_holds _ (value_string nl "button" "left" params) _ λ b _.
            bind_holds _ (parse_mouse_button b) _ λ btn _.
              bind_holds _ (parse_modifiers _) _ λ mods _.
                bind_holds _ (value_int nl "delay_ms" _ params) _
                  λ d _. (h, need-member _ "handle" params h e, e')

  key_params-HasHandle : (params : Json) → Of (HandleOf params) (key_params qt nl params)
  unfolding key_params
  key_params-HasHandle params = bind_holds _ (need nl _ "handle" params) _ λ h e.
      bind_holds _ (need nl _ "key" params) _ λ p _. bind_holds _ (nl.as_u64 h) _ λ n e'.
        bind_holds _ (as_string nl p) _ λ name _.
          bind_holds _ (parse_key qt.to_lower qt.single name) _ λ k _.
            bind_holds _ (value_string nl "action" "click" params) _ λ a _.
              bind_holds _ (parse_modifiers _) _ λ mods _.
                bind_holds _ (value_int nl "delay_ms" _ params) _
                  λ d _. (h, need-member _ "handle" params h e, e')

  abbrev pub Throws : Outcome Json → Type 0
  Throws (returns j) = ⊥
  Throws (throws what) = Unit {0}
  Throws throws_other = Unit {0}

  -- The parameters have no handle, or one that stands for no living object.
  abbrev pub NoObject : Registry → Json → qt.World → Type 0
  NoObject registry params w =
      (h : ℕ) → HasHandle params h → resolve_handle (qt.dead w) h registry ≡ none

  act-refused :
      {A : Type 0} (registry : Registry) (params : Json) (parsed : Outcome (ℕ × A))
      (body : A → ℕ → qt.World → Answer qt nl) (w : qt.World)
      → NoObject registry params w
      → Of (HandleOf params) parsed
      → Throws (act qt nl registry parsed body w).0 × ((act qt nl registry parsed body w).1 ≡ w)
  act-refused registry params (returns (h, a)) body w gone has = rw (gone h has) (tt, refl)
  act-refused registry params (throws what) body w gone has = (tt, refl)
  act-refused registry params throws_other body w gone has = (tt, refl)

  -- Without an object that lives, each method that acts on one throws, and changes nothing.
  pub call-refused :
      (m : Method) (registry : Registry) (params : Json) (w : qt.World)
      → NoObject registry params w
      → Throws (call m registry params w).0 × ((call m registry params w).1 ≡ w)
  unfolding call get set invoke click type_text mouse key geometry
  call-refused get_method registry params w gone =
      act-refused registry params (get_params qt nl params) _ w gone (get_params-HasHandle params)
  call-refused set_method registry params w gone =
      act-refused registry params (set_params qt nl params) _ w gone (set_params-HasHandle params)
  call-refused invoke_method registry params w gone =
      act-refused registry params (invoke_params qt nl params) _ w gone
        (invoke_params-HasHandle params)
  call-refused click_method registry params w gone =
      act-refused registry params (click_params qt nl params) _ w gone
        (click_params-HasHandle params)
  call-refused type_method registry params w gone =
      act-refused registry params (type_params qt nl params) _ w gone (type_params-HasHandle params)
  call-refused mouse_method registry params w gone =
      act-refused registry params (mouse_params qt nl params) _ w gone
        (mouse_params-HasHandle params)
  call-refused key_method registry params w gone =
      act-refused registry params (key_params qt nl params) _ w gone (key_params-HasHandle params)
  call-refused geometry_method registry params w gone =
      act-refused registry params (click_params qt nl params) _ w gone
        (click_params-HasHandle params)

  -- What a failed method has done: `invoke` what the invocable did, `key` at most the move of the focus, the others
  -- nothing.
  abbrev pub LeftBy : Method → qt.World → qt.World → Type 0
  LeftBy invoke_method w w' = Unit {0}
  LeftBy key_method w w' = (w' ≡ w) ⊎ ((o : ℕ) × (w' ≡ qt.force_active_focus w o))
  LeftBy get_method w w' = w' ≡ w
  LeftBy set_method w w' = w' ≡ w
  LeftBy click_method w w' = w' ≡ w
  LeftBy type_method w w' = w' ≡ w
  LeftBy mouse_method w w' = w' ≡ w
  LeftBy geometry_method w w' = w' ≡ w

  -- A failure of an answer leaves the world so.
  abbrev FailsWith : (qt.World → Type 0) → Answer qt nl → Type 0
  FailsWith P r = Throws r.0 → P r.1

  act-FailsWith :
      {A : Type 0} (P : qt.World → Type 0) (registry : Registry) (parsed : Outcome (ℕ × A))
      (body : A → ℕ → qt.World → Answer qt nl) (w : qt.World)
      → P w
      → ((a : A) (o : ℕ) → FailsWith P (body a o w))
      → FailsWith P (act qt nl registry parsed body w)
  act-FailsWith P registry (returns (h, a)) body w same each =
      elim (Option-cases (resolve_handle (qt.dead w) h registry)) [
        | inl e ↦ rw e (λ _. same)
        | inr (o, e) ↦ rw e (each a o)
      ]
  act-FailsWith P registry (throws what) body w same each = λ _. same
  act-FailsWith P registry throws_other body w same each = λ _. same

  with_window-FailsWith :
      (P : qt.World → Type 0) (g : Option Geometry) (window : Option ℕ) (body : ℕ → Answer qt nl)
      (w : qt.World)
      → P w
      → ((win : ℕ) → FailsWith P (body win))
      → FailsWith P (with_window qt nl g window body w)
  with_window-FailsWith P none window body w same each = λ _. same
  with_window-FailsWith P (some g) none body w same each = λ _. same
  with_window-FailsWith P (some g) (some win) body w same each = each win

  send_event-FailsWith :
      (P : qt.World → Type 0) (message : String) (e : Option Event) (win o : ℕ) (w : qt.World)
      → P w
      → FailsWith P (send_event qt nl message e win o w)
  send_event-FailsWith P message none win o w same = λ _. same
  send_event-FailsWith P message (some e) win o w same = λ failed. absurd failed

  -- A method that throws has sent no event and set no property; `key` may have moved the focus.
  pub call-failed :
      (m : Method) (registry : Registry) (params : Json) (w : qt.World)
      → Throws (call m registry params w).0
      → LeftBy m w (call m registry params w).1
  unfolding call get set click type_text mouse key geometry
  call-failed get_method registry params w =
      act-FailsWith (λ w'. w' ≡ w) registry (get_params qt nl params) _ w refl
        (λ prop o failed. absurd failed)
  call-failed set_method registry params w =
      act-FailsWith (λ w'. w' ≡ w) registry (set_params qt nl params) _ w refl
        (λ a o failed. absurd failed)
  call-failed invoke_method registry params w = λ _. tt
  call-failed click_method registry params w =
      act-FailsWith (λ w'. w' ≡ w) registry (click_params qt nl params) _ w refl
        (λ a o.
          with_window-FailsWith (λ w'. w' ≡ w) (qt.geometry_of w o) (qt.window_of w o) _ w refl
            (λ win failed. absurd failed))
  call-failed type_method registry params w =
      act-FailsWith (λ w'. w' ≡ w) registry (type_params qt nl params) _ w refl
        (λ a o.
          with_window-FailsWith (λ w'. w' ≡ w) (qt.geometry_of w o) (qt.window_of w o) _ w refl
            (λ win failed. absurd failed))
  call-failed mouse_method registry params w =
      act-FailsWith (λ w'. w' ≡ w) registry (mouse_params qt nl params) _ w refl
        (λ a o.
          with_window-FailsWith (λ w'. w' ≡ w) (qt.geometry_of w o) (qt.window_of w o) _ w refl
            (λ win. send_event-FailsWith (λ w'. w' ≡ w) _ _ win o w refl))
  call-failed key_method registry params w =
      act-FailsWith (LeftBy key_method w) registry (key_params qt nl params) _ w (inl refl) (λ a o.
        with_window-FailsWith (LeftBy key_method w) (qt.geometry_of w o) (qt.window_of w o) _ w
          (inl refl)
          (λ win.
            send_event-FailsWith (LeftBy key_method w) _ _ win o (qt.force_active_focus w o)
              (inr (o, refl))))
  call-failed geometry_method registry params w =
      act-FailsWith (λ w'. w' ≡ w) registry (click_params qt nl params) _ w refl
        (λ a o failed. absurd failed)
