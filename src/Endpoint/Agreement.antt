-- ===== src/Endpoint/Agreement.antt =====
-- bus_endpoint.cpp: `m_subscriptions`, which the IO thread keeps, against what the GUI thread does to the bus.
use qml_and_bgfx_testbridge.Prelude.{
  ℕ, ◌≡◌, refl, sym, ◌∙◌, Bool, true, false, not, ◌&&◌, ◌||◌, List, [], ◌∷◌, ◌++◌, some, String,
  str_eq, str_eq_iff, ◌==◌, arith, Bool-cases, inl, inr,
}
use qml_and_bgfx_testbridge.Json.{Json, member}
use qml_and_bgfx_testbridge.Rpc.{Outcome, returns, throws, throws_other}
use qml_and_bgfx_testbridge.Bus.{post}
use qml_and_bgfx_testbridge.Bus.Delivery.{told, one_if}
use qml_and_bgfx_testbridge.Bus.Calls.{
  Call, GuiDataBus, step, registers, unregisters, entitled, run, no_handlers, post-told,
}
use qml_and_bgfx_testbridge.Bus.{is_dead}
use qml_and_bgfx_testbridge.Endpoint.{
  BusEndpoint, Action, posts, registers_for, unregisters_for, contains, remove, topic_of,
  with_topic, publish, subscribe, subscribe_to, unsubscribe, unsubscribe_from,
}

-- A call of JSON-RPC, with its params.
pub data Request : Type 0 where
  publishes : Json → Request
  subscribes : Json → Request
  unsubscribes : Json → Request

-- What the GUI thread does to the bus for the endpoint, the object `me`.
abbrev pub bus_calls : ℕ → List Action → List Call
bus_calls me [] = []
bus_calls me (posts topic v ∷ rest) = bus_calls me rest
bus_calls me (registers_for topic ∷ rest) = registers topic me "onBusEvent" ∷ bus_calls me rest
bus_calls me (unregisters_for topic ∷ rest) = unregisters topic me ∷ bus_calls me rest

module _ (dump type_error : Json → String) where
  unfoldable pub request : BusEndpoint → Request → BusEndpoint
  request e (publishes params) = (publish dump type_error params e).1
  request e (subscribes params) = (subscribe dump type_error params e).1
  request e (unsubscribes params) = (unsubscribe dump type_error params e).1

  unfoldable pub requests : BusEndpoint → List Request → BusEndpoint
  requests e [] = e
  requests e (r ∷ rs) = requests (request e r) rs

module _ (me : ℕ) (t : String) where
  -- Whether the bus will have the endpoint for the topic once it has run the actions.
  abbrev pub will_have : List Action → Bool
  will_have actions = entitled t me "onBusEvent" false (bus_calls me actions)

  after : Bool → Action → Bool
  after b (posts topic v) = b
  after b (registers_for topic) = b || str_eq topic t
  after b (unregisters_for topic) = b && not (str_eq topic t)

  self : (me == me) ≡ true
  self = ground arith

  entitled-snoc :
      (actions : List Action) (b : Bool) (a : Action)
      → entitled t me "onBusEvent" b (bus_calls me (actions ++ a ∷ []))
        ≡ after (entitled t me "onBusEvent" b (bus_calls me actions)) a
  unfolding after
  entitled-snoc [] b (posts topic v) = refl
  entitled-snoc [] b (registers_for topic) = rw self (ground arith)
  entitled-snoc [] b (unregisters_for topic) = rw self (ground arith)
  entitled-snoc (posts topic v ∷ rest) b a = entitled-snoc rest b a
  entitled-snoc (registers_for topic ∷ rest) b a = entitled-snoc rest _ a
  entitled-snoc (unregisters_for topic ∷ rest) b a = entitled-snoc rest _ a

  -- The two threads agree on the topic.
  abbrev pub Agrees : BusEndpoint → Type 0
  Agrees e = contains t e.subscriptions ≡ will_have e.queued

  contains-remove :
      (topic : String) (ss : List String)
      → contains t (remove topic ss) ≡ (contains t ss && not (str_eq topic t))
  unfolding contains remove
  contains-remove topic [] = refl
  contains-remove topic (s ∷ ss) =
      ground
        (arith, contains-remove topic ss, str_eq_iff s topic, str_eq_iff s t, str_eq_iff topic t)

  subscribe_to-Agrees :
      (topic : String) (e : BusEndpoint) → Agrees e → Agrees (subscribe_to topic e).1
  unfolding subscribe_to contains after
  subscribe_to-Agrees topic e h =
      let grown = entitled-snoc e.queued false (registers_for topic) in
      elim (Bool-cases (contains topic e.subscriptions)) [
        | inl known ↦ rw known h
        | inr new ↦ rw (new, grown) (ground arith)
      ]

  unsubscribe_from-Agrees :
      (topic : String) (e : BusEndpoint) → Agrees e → Agrees (unsubscribe_from topic e).1
  unfolding unsubscribe_from after
  unsubscribe_from-Agrees topic e h =
      let shrunk = entitled-snoc e.queued false (unregisters_for topic) in
      let removed = contains-remove topic e.subscriptions in
      elim (Bool-cases (contains topic e.subscriptions)) [
        | inl known ↦ rw (known, shrunk, removed) (ground arith)
        | inr missing ↦ rw missing h
      ]

  module _ (dump type_error : Json → String) where
    topic-Agrees :
        (topic : Outcome String) (act : String → Json × BusEndpoint) (e : BusEndpoint)
        → Agrees e
        → ((s : String) → Agrees (act s).1)
        → Agrees (with_topic dump type_error topic act e).1
    unfolding with_topic
    topic-Agrees (returns s) act e h k = k s
    topic-Agrees (throws what) act e h k = h
    topic-Agrees throws_other act e h k = h

    request-Agrees :
        (e : BusEndpoint) (r : Request) → Agrees e → Agrees (request dump type_error e r)
    unfolding request publish subscribe unsubscribe after
    request-Agrees e (publishes params) h =
        topic-Agrees (topic_of dump type_error (member "topic" params)) _ e h
          (λ s. h ∙ sym (entitled-snoc e.queued false (posts s _)))
    request-Agrees e (subscribes params) h =
        topic-Agrees (topic_of dump type_error (member "topic" params)) _ e h
          (λ s. subscribe_to-Agrees s e h)
    request-Agrees e (unsubscribes params) h =
        topic-Agrees (topic_of dump type_error (member "topic" params)) _ e h
          (λ s. unsubscribe_from-Agrees s e h)

    requests-Agrees :
        (e : BusEndpoint) (rs : List Request) → Agrees e → Agrees (requests dump type_error e rs)
    unfolding requests
    requests-Agrees e [] h = h
    requests-Agrees e (r ∷ rs) h =
        requests-Agrees (request dump type_error e r) rs (request-Agrees e r h)

abbrev pub new_endpoint : BusEndpoint
new_endpoint = record { subscriptions = []; queued = [] }

nobody_died :
    (me : ℕ) (actions : List Action) (bus : GuiDataBus)
    → (run bus (bus_calls me actions)).dead ≡ bus.dead
unfolding run step
nobody_died me [] bus = refl
nobody_died me (posts topic v ∷ rest) bus = nobody_died me rest bus
nobody_died me (registers_for topic ∷ rest) bus =
    nobody_died me rest (step bus (registers topic me "onBusEvent"))
nobody_died me (unregisters_for topic ∷ rest) bus =
    nobody_died me rest (step bus (unregisters topic me))

-- Whatever requests came in, once the GUI thread has run what they queued, on a bus that only the endpoint and
-- posts use: a post on a topic by another object reaches the endpoint, once, exactly if the topic is among its
-- subscriptions; and a post by the endpoint itself does not reach it.
pub requests-told :
    {V : Type 0} (me : ℕ) (dump type_error : Json → String) (rs : List Request) (sender : ℕ)
    (topic : String) (v : V)
    → let e = requests dump type_error new_endpoint rs in
      let bus = run no_handlers (bus_calls me e.queued) in
      told me "onBusEvent" (post bus.dead (some sender) topic v bus.handlers)
      ≡ one_if (contains topic e.subscriptions && not (me == sender))
unfolding contains is_dead
requests-told me dump type_error rs sender topic v =
    let e = requests dump type_error new_endpoint rs in
    let agreed = requests-Agrees me topic dump type_error new_endpoint rs refl in
    post-told (bus_calls me e.queued) (some sender) topic v me "onBusEvent"
    ∙ rw (nobody_died me e.queued no_handlers, agreed) (ground arith)
