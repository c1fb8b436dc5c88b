-- ===== src/Bus/Delivery.antt =====
-- guidatabus.cpp over any calls: who is told of a post, and how often.
use qml_and_bgfx_testbridge.Prelude.{
  ℕ, ◌+◌, ◌≡◌, refl, sym, ap, ◌∙◌, subst, Bool, false, not, ◌&&◌, ◌||◌, List, [], ◌∷◌, ◌++◌, Option,
  none, some, String, str_eq, str_eq_iff, ◌==◌, if◌then◌else◌, ltb, arith, Bool-cases, inl, inr,
}
use qml_and_bgfx_testbridge.Bus.{
  Handler, Invocation, Handlers, is_dead, handlers_of, post_to, is_registered, add_handler,
  register_at, remove_handlers, put_entry, unregister_handler,
}

abbrev pub one_if : Bool → ℕ
one_if b = if b then 1 else 0

-- How often a slot of a receiver stands in a list.
abbrev pub holds : ℕ → String → List Handler → ℕ
holds r s [] = 0
holds r s (h ∷ hs) = one_if (h.receiver == r && str_eq h.slot s) + holds r s hs

-- How often it is called.
abbrev pub told : {V : Type 0} → ℕ → String → List (Invocation V) → ℕ
told r s [] = 0
told r s (d ∷ ds) = one_if (d.receiver == r && str_eq d.slot s) + told r s ds

abbrev pub is_sender : Option ℕ → ℕ → Bool
is_sender none r = false
is_sender (some s) r = r == s

pub told-post_to :
    {V : Type 0} (dead : List ℕ) (sender : Option ℕ) (topic : String) (v : V) (hs : List Handler)
    (r : ℕ) (s : String)
    → told r s (post_to dead sender topic v hs)
      ≡ (if is_dead dead r || is_sender sender r then 0 else holds r s hs)
unfolding post_to
told-post_to dead sender topic v [] r s = ground arith
told-post_to dead none topic v (h ∷ hs) r s =
    let same : h.receiver ≡ r → is_dead dead h.receiver ≡ is_dead dead r = ap (is_dead dead) in
    let ih = told-post_to dead none topic v hs r s in ground arith
told-post_to dead (some x) topic v (h ∷ hs) r s =
    let same : h.receiver ≡ r → is_dead dead h.receiver ≡ is_dead dead r = ap (is_dead dead) in
    let ih = told-post_to dead (some x) topic v hs r s in ground arith

module _ (dead : List ℕ) where
  is_registered-eq :
      (r : ℕ) (s : String) (hs : List Handler)
      → is_dead dead r ≡ false
      → is_registered dead r s hs ≡ ltb 0 (holds r s hs)
  unfolding is_registered
  is_registered-eq r s [] living = ground arith
  is_registered-eq r s (h ∷ hs) living =
      let same : h.receiver ≡ r → is_dead dead h.receiver ≡ is_dead dead r = ap (is_dead dead) in
      let ih = is_registered-eq r s hs living in ground arith

  holds-append :
      (r : ℕ) (s : String) (xs ys : List Handler)
      → holds r s (xs ++ ys) ≡ holds r s xs + holds r s ys
  holds-append r s [] ys = omega arith
  holds-append r s (x ∷ xs) ys = omega (arith, holds-append r s xs ys)

  pub holds-remove_handlers :
      (who : ℕ) (r : ℕ) (s : String) (hs : List Handler)
      → is_dead dead r ≡ false
      → holds r s (remove_handlers dead (some who) hs) ≡ (if r == who then 0 else holds r s hs)
  unfolding remove_handlers
  holds-remove_handlers who r s [] living = ground arith
  holds-remove_handlers who r s (h ∷ hs) living =
      let same : h.receiver ≡ r → is_dead dead h.receiver ≡ is_dead dead r = ap (is_dead dead) in
      let ih = holds-remove_handlers who r s hs living in ground arith

  -- A living receiver is added once; the others are as before.
  pub holds-add_handler :
      (who : ℕ) (slot : String) (r : ℕ) (s : String) (hs : List Handler)
      → is_dead dead r ≡ false
      → holds r s (add_handler dead who slot hs)
        ≡ (if who == r && str_eq slot s && not (ltb 0 (holds r s hs)) then 1 else holds r s hs)
  unfolding add_handler
  holds-add_handler who slot r s hs living =
      let known : who ≡ r → is_registered dead who slot hs ≡ ltb 0 (holds who slot hs) =
        λ p. is_registered-eq who slot hs (subst (λ x. is_dead dead x ≡ false) (sym p) living) in
      let grown = holds-append r s hs (record { receiver = who; slot = slot } ∷ []) in
      let same : who ≡ r → slot ≡ s → holds who slot hs ≡ holds r s hs =
        λ p q. ap (λ x. holds x slot hs) p ∙ ap (λ y. holds r y hs) q in
      ground (arith, str_eq_iff slot s)

  pub handlers_of-register_at :
      (t : String) (who : ℕ) (slot j : String) (handlers : Handlers)
      → handlers_of j (register_at dead t who slot handlers) ≡ (
          if str_eq t j
          then add_handler dead who slot (handlers_of j handlers)
          else handlers_of j handlers)
  unfolding handlers_of register_at
  handlers_of-register_at t who slot j [] = refl
  handlers_of-register_at t who slot j ((k, hs) ∷ rest) =
      let ih = handlers_of-register_at t who slot j rest in
      ground (arith, str_eq_iff t j, str_eq_iff k t, str_eq_iff k j)

abbrev pub has_key : String → Handlers → Bool
has_key j [] = false
has_key j ((k, hs) ∷ rest) = str_eq k j || has_key j rest

-- Each topic has one entry.
abbrev pub Distinct : Handlers → Type 0
Distinct [] = Unit {0}
Distinct ((k, hs) ∷ rest) = (has_key k rest ≡ false) × Distinct rest

handlers_of-missing :
    (j : String) (handlers : Handlers) → has_key j handlers ≡ false → handlers_of j handlers ≡ []
unfolding handlers_of
handlers_of-missing j [] h = refl
handlers_of-missing j ((k, hs) ∷ rest) h = let ih = handlers_of-missing j rest in ground arith

has_key-put_entry :
    (j k : String) (hs : List Handler) (rest : Handlers)
    → str_eq k j ≡ false
    → has_key j rest ≡ false
    → has_key j (put_entry k hs rest) ≡ false
unfolding put_entry
has_key-put_entry j k [] rest e h = h
has_key-put_entry j k (x ∷ xs) rest e h = ground arith

put_entry-Distinct :
    (k : String) (hs : List Handler) (rest : Handlers)
    → has_key k rest ≡ false
    → Distinct rest
    → Distinct (put_entry k hs rest)
unfolding put_entry
put_entry-Distinct k [] rest new h = h
put_entry-Distinct k (x ∷ xs) rest new h = (new, h)

handlers_of-put_entry :
    (j k : String) (hs : List Handler) (rest : Handlers)
    → has_key k rest ≡ false
    → handlers_of j (put_entry k hs rest) ≡ (if str_eq k j then hs else handlers_of j rest)
unfolding put_entry handlers_of
handlers_of-put_entry j k [] rest new =
    let missing = handlers_of-missing k rest new in
    let same : k ≡ j → handlers_of k rest ≡ handlers_of j rest = ap (λ t. handlers_of t rest) in
    ground (arith, str_eq_iff k j)
handlers_of-put_entry j k (x ∷ xs) rest new = refl

module _ (dead : List ℕ) where
  has_key-register_at :
      (t : String) (who : ℕ) (slot j : String) (handlers : Handlers)
      → has_key j (register_at dead t who slot handlers) ≡ (str_eq t j || has_key j handlers)
  unfolding register_at
  has_key-register_at t who slot j [] = refl
  has_key-register_at t who slot j ((k, hs) ∷ rest) =
      let ih = has_key-register_at t who slot j rest in
      ground (arith, str_eq_iff t j, str_eq_iff k t, str_eq_iff k j)

  pub register_at-Distinct :
      (t : String) (who : ℕ) (slot : String) (handlers : Handlers)
      → Distinct handlers
      → Distinct (register_at dead t who slot handlers)
  unfolding register_at
  register_at-Distinct t who slot [] h = (refl, tt)
  register_at-Distinct t who slot ((k, hs) ∷ rest) (new, h) = elim (Bool-cases (str_eq k t)) [
    | inl e ↦ rw e (new, h)
    | inr e ↦ rw e (
      ground (arith, has_key-register_at t who slot k rest, str_eq_iff t k, str_eq_iff k t),
      register_at-Distinct t who slot rest h,
    )
  ]

  has_key-unregister_handler :
      (t : String) (who : Option ℕ) (j : String) (handlers : Handlers)
      → has_key j handlers ≡ false
      → has_key j (unregister_handler dead t who handlers) ≡ false
  unfolding unregister_handler
  has_key-unregister_handler t who j [] h = refl
  has_key-unregister_handler t who j ((k, hs) ∷ rest) h =
      let ih = has_key-unregister_handler t who j rest in
      let put = has_key-put_entry j k (remove_handlers dead who hs) rest in
      elim (Bool-cases (str_eq k t)) [ inl e ↦ rw e (ground arith) | inr e ↦ rw e (ground arith) ]

  pub unregister_handler-Distinct :
      (t : String) (who : Option ℕ) (handlers : Handlers)
      → Distinct handlers
      → Distinct (unregister_handler dead t who handlers)
  unfolding unregister_handler
  unregister_handler-Distinct t who [] h = tt
  unregister_handler-Distinct t who ((k, hs) ∷ rest) (new, h) = elim (Bool-cases (str_eq k t)) [
    | inl e ↦ rw e (put_entry-Distinct k (remove_handlers dead who hs) rest new h)
    | inr e ↦
        rw e (has_key-unregister_handler t who k rest new, unregister_handler-Distinct t who rest h)
  ]

  pub handlers_of-unregister_handler :
      (t : String) (who : Option ℕ) (j : String) (handlers : Handlers)
      → Distinct handlers
      → handlers_of j (unregister_handler dead t who handlers) ≡ (
          if str_eq t j
          then remove_handlers dead who (handlers_of j handlers)
          else handlers_of j handlers)
  unfolding handlers_of unregister_handler remove_handlers
  handlers_of-unregister_handler t who j [] h = ground arith
  handlers_of-unregister_handler t who j ((k, hs) ∷ rest) (new, h) =
      let put = handlers_of-put_entry j k (remove_handlers dead who hs) rest new in
      let ih = handlers_of-unregister_handler t who j rest h in
      elim (Bool-cases (str_eq k t)) [
        | inl e ↦ rw (e, put) (ground (arith, str_eq_iff t j, str_eq_iff k t, str_eq_iff k j))
        | inr e ↦ rw e (ground (arith, str_eq_iff t j, str_eq_iff k t, str_eq_iff k j))
      ]
