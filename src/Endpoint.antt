-- ===== src/Endpoint.antt =====
-- src/testbridge/bus_endpoint.h and .cpp, `BusEndpoint`: the bus for the clients of JSON-RPC. What it queues
-- for the GUI thread (`Qt::QueuedConnection`) is a list of actions, which run in their order. The texts of the
-- errors of nlohmann::json, its printer and Qt's `toString` are parameters. `wait`, with its event loop, is
-- left out but for its answer.
pub mod Agreement
pub mod Variants
mod Examples
use qml_and_bgfx_testbridge.Prelude.{
  ℕ, Bool, true, false, not, ◌||◌, List, [], ◌∷◌, ◌++◌, Option, none, some, String, str_eq,
  if◌then◌else◌,
}
use qml_and_bgfx_testbridge.Prelude.Int.{ℤ, pos, wrap, signed}
use qml_and_bgfx_testbridge.Json.{
  Json, null, boolean, integer, float, string, array, object, object_of, member,
}
use qml_and_bgfx_testbridge.Rpc.{Outcome, returns, throws, throws_other}

-- A `QVariant` as `variantToJson` tells its types apart; `other` is one of another type, by its `toString`.
pub data Variant : Type 0 where
  invalid : Variant
  null_value : Variant
  bool : Bool → Variant
  long_long : ℤ → Variant
  unsigned_long_long : ℕ → Variant
  double : ℕ → Variant
  text : String → Variant
  other : String → Variant

unfoldable pub variant_to_json : Variant → Json
variant_to_json invalid = null
variant_to_json null_value = null
variant_to_json (bool b) = boolean b
variant_to_json (long_long n) = integer n
variant_to_json (unsigned_long_long n) = integer (pos n)
variant_to_json (double bits) = float bits
variant_to_json (text s) = string s
variant_to_json (other s) = string s

-- `get<long long>()` keeps 64 bits.
unfoldable pub json_to_variant : (Json → String) → Json → Variant
json_to_variant dump null = invalid
json_to_variant dump (boolean b) = bool b
json_to_variant dump (integer n) = long_long (signed 64 (wrap 64 n))
json_to_variant dump (float bits) = double bits
json_to_variant dump (string s) = text s
json_to_variant dump (array js) = text (dump (array js))
json_to_variant dump (object fs) = text (dump (object fs))

pub data Action : Type 0 where
  posts : String → Variant → Action
  registers_for : String → Action
  unregisters_for : String → Action

pub record BusEndpoint : Type 0 where
  pub subscriptions : List String
  pub queued : List Action

unfoldable pub contains : String → List String → Bool
contains t [] = false
contains t (s ∷ ss) = str_eq s t || contains t ss

unfoldable pub remove : String → List String → List String
remove t [] = []
remove t (s ∷ ss) = let rest = remove t ss in if str_eq s t then rest else s ∷ rest

abbrev pub queue : Action → BusEndpoint → BusEndpoint
queue a e = record e { queued = e.queued ++ a ∷ [] }

unfoldable pub subscribe_to : String → BusEndpoint → Json × BusEndpoint
subscribe_to topic e = if contains topic e.subscriptions then (boolean true, e) else (
  boolean true,
  queue (registers_for topic) (record e { subscriptions = topic ∷ e.subscriptions }),
)

unfoldable pub unsubscribe_from : String → BusEndpoint → Json × BusEndpoint
unsubscribe_from topic e =
    if contains topic e.subscriptions
    then (
      boolean true,
      queue (unregisters_for topic) (record e { subscriptions = remove topic e.subscriptions }),
    )
    else (boolean false, e)

module _ (dump : Json → String) (type_error : Json → String) where
  -- `params["topic"].get<std::string>()`, after the test for the member.
  unfoldable pub topic_of : Option Json → Outcome String
  topic_of none = throws "params.topic required"
  topic_of (some (string s)) = returns s
  topic_of (some null) = throws (type_error null)
  topic_of (some (boolean b)) = throws (type_error (boolean b))
  topic_of (some (integer n)) = throws (type_error (integer n))
  topic_of (some (float bits)) = throws (type_error (float bits))
  topic_of (some (array js)) = throws (type_error (array js))
  topic_of (some (object fs)) = throws (type_error (object fs))

  -- The rest of a method, once the topic is known.
  unfoldable pub with_topic :
      Outcome String → (String → Json × BusEndpoint) → BusEndpoint → Outcome Json × BusEndpoint
  with_topic (returns topic) act e = let (j, e') = act topic in (returns j, e')
  with_topic (throws what) act e = (throws what, e)
  with_topic throws_other act e = (throws_other, e)

  abbrev pub payload_of : Option Json → Variant
  payload_of none = invalid
  payload_of (some j) = json_to_variant dump j

  unfoldable pub publish : Json → BusEndpoint → Outcome Json × BusEndpoint
  publish params e =
      with_topic (topic_of (member "topic" params))
        (λ topic. (boolean true, queue (posts topic (payload_of (member "payload" params))) e)) e

  unfoldable pub subscribe : Json → BusEndpoint → Outcome Json × BusEndpoint
  subscribe params e =
      with_topic (topic_of (member "topic" params)) (λ topic. subscribe_to topic e) e

  unfoldable pub unsubscribe : Json → BusEndpoint → Outcome Json × BusEndpoint
  unsubscribe params e =
      with_topic (topic_of (member "topic" params)) (λ topic. unsubscribe_from topic e) e

-- The end of `wait`: the payload of the event that came before the timeout, if one did.
unfoldable pub wait_answer : Option Variant → Json
wait_answer none = null
wait_answer (some v) = variant_to_json v

-- What the callback is given, if there is one.
unfoldable pub on_bus_event : Bool → String → Variant → Option Json
on_bus_event has_callback topic payload =
    let params = object_of (("topic", string topic) ∷ ("payload", variant_to_json payload) ∷ []) in
    let notification =
      object_of
        (("jsonrpc", string "2.0") ∷ ("method", string "bus.event") ∷ ("params", params) ∷ []) in
    if has_callback then some notification else none
