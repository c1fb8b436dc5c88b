-- ===== src/Endpoint/Examples.antt =====
-- Tests of bus_endpoint.cpp, and its theorems at inputs.
use qml_and_bgfx_testbridge.Prelude.{◌≡◌, String, List, [], ◌∷◌, some}
use qml_and_bgfx_testbridge.Json.{Json, string, object_of, member, lookup}
use qml_and_bgfx_testbridge.Bus.{post}
use qml_and_bgfx_testbridge.Bus.Delivery.{told}
use qml_and_bgfx_testbridge.Bus.Calls.{run, no_handlers}
use qml_and_bgfx_testbridge.Endpoint.{
  contains, remove, publish, subscribe, subscribe_to, unsubscribe, unsubscribe_from, topic_of,
  with_topic,
}
use qml_and_bgfx_testbridge.Endpoint.Agreement.{
  Request, publishes, subscribes, unsubscribes, request, requests, new_endpoint, bus_calls,
  requests-told,
}

abbrev dump : Json → String
dump j = "text"

abbrev on_topic : String → Json
on_topic topic = object_of (("topic", string topic) ∷ [])

abbrev asked : List Request
asked =
    subscribes (on_topic "scene")
    ∷ subscribes (on_topic "camera")
    ∷ publishes (on_topic "scene")
    ∷ unsubscribes (on_topic "camera")
    ∷ []

requests-told_example :
    let e = requests dump dump new_endpoint asked in
    let bus = run no_handlers (bus_calls 5 e.queued) in
    told {V = String} 5 "onBusEvent" (post bus.dead (some 6) "scene" "hello" bus.handlers) ≡ 1
unfolding requests request publish subscribe subscribe_to unsubscribe unsubscribe_from topic_of
    with_topic member lookup contains remove
requests-told_example = requests-told {V = String} 5 dump dump asked 6 "scene" "hello"
