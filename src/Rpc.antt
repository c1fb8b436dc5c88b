-- ===== src/Rpc.antt =====
-- src/testbridge/rpc_dispatcher.h and .cpp, `RpcDispatcher`: JSON-RPC 2.0. Parsing and printing are those of
-- nlohmann::json, parameters here, of which each can throw. A handler is a function on the state S of what it
-- acts on, and it can throw too.
pub mod Responses
mod Examples
use qml_and_bgfx_testbridge.Prelude.{
  ℕ, Bool, true, false, not, List, [], ◌∷◌, ◌++◌, Option, none, some, String, str_append, str_eq,
  if◌then◌else◌,
}
use qml_and_bgfx_testbridge.Prelude.Int.{ℤ, negsuc}
use qml_and_bgfx_testbridge.Json.{Json, null, string, object, object_of, member, integer, end}

-- What a call gives: its value, or what it throws.
pub data Outcome (A : Type 0) : Type 0 where
  returns : A → Outcome A
  throws : String → Outcome A  -- a `std::exception` with its `what()`
  throws_other : Outcome A

-- The namespace `RpcError`.
abbrev pub parse_error : ℤ
parse_error = negsuc 32699

abbrev pub invalid_request : ℤ
invalid_request = negsuc 32599

abbrev pub method_not_found : ℤ
method_not_found = negsuc 32600

abbrev pub invalid_params : ℤ
invalid_params = negsuc 32601

abbrev pub internal_error : ℤ
internal_error = negsuc 32602

abbrev pub is_null : Json → Bool
is_null null = true
is_null _ = false

unfoldable pub make_error : Json → ℤ → String → Json → Json
make_error id code message extra =
    let err = ("code", integer code) ∷ ("message", string message) ∷ [] in
    object_of (
      ("jsonrpc", string "2.0")
      ∷ ("id", id)
      ∷ ("error", object_of (if is_null extra then err else err ++ ("data", extra) ∷ []))
      ∷ [])

unfoldable pub make_result : Json → Json → Json
make_result id result = object_of (("jsonrpc", string "2.0") ∷ ("id", id) ∷ ("result", result) ∷ [])

-- `req["jsonrpc"] != "2.0"`, negated.
unfoldable pub is_version : Option Json → Bool
is_version (some (string s)) = str_eq s "2.0"
is_version _ = false

-- The method's name, if it is a string.
unfoldable pub method_of : Option Json → Option String
method_of (some (string s)) = some s
method_of _ = none

-- The members that `req.value` gives, with a default.
abbrev pub value_or : Option Json → Json → Json
value_or (some j) d = j
value_or none d = d

abbrev pub RpcHandler : Type 0 → Type 0
RpcHandler S = Json → S → Outcome Json × S

module _ {S : Type 0} where
  -- `m_handlers`
  unfoldable pub register_method :
      String → RpcHandler S → List (String × RpcHandler S) → List (String × RpcHandler S)
  register_method method handler [] = (method, handler) ∷ []
  register_method method handler ((m, h) ∷ rest) =
      let later = register_method method handler rest in
      if str_eq m method then (m, handler) ∷ rest else (m, h) ∷ later

  unfoldable pub find_method : String → List (String × RpcHandler S) → Option (RpcHandler S)
  find_method method [] = none
  find_method method ((m, h) ∷ rest) =
      let later = find_method method rest in if str_eq m method then some h else later

module _ (parse : String → Option Json) (dump : Json → Outcome String) where
  -- The `catch` clauses, for a request that has an id.
  unfoldable pub failure : Json → Outcome Json → Outcome String
  failure id (throws what) = dump (make_error id internal_error what null)
  failure id throws_other = dump (make_error id internal_error "Unknown error" null)
  failure id (returns result) = dump (make_result id result)

  -- The printing of the result stands in the `try` as well.
  unfoldable pub printed : Json → Outcome String → Outcome String
  printed id (returns text) = returns text
  printed id (throws what) = failure id (throws what)
  printed id throws_other = failure id throws_other

  -- From the `try` on. A notification, which has no id, is not answered.
  unfoldable pub answer : Option Json → Outcome Json → Outcome String
  answer none out = returns ""
  answer (some id) (returns result) = printed id (dump (make_result id result))
  answer (some id) (throws what) = failure id (throws what)
  answer (some id) throws_other = failure id throws_other

  -- An error that only a request with an id is told.
  unfoldable pub refuse : Option Json → ℤ → String → Outcome String
  refuse none code message = returns ""
  refuse (some id) code message = dump (make_error id code message null)

  module _ {S : Type 0} (handlers : List (String × RpcHandler S)) where
    unfoldable pub call_found :
        Option Json → String → Json → Option (RpcHandler S) → S → Outcome String × S
    call_found id method params none s =
        (refuse id method_not_found (str_append "Method not found: " method), s)
    call_found id method params (some handler) s =
        let (out, s') = handler params s in (answer id out, s')

    unfoldable pub call_method : Option Json → Json → Option String → S → Outcome String × S
    call_method id req none s = (refuse id invalid_request "method required", s)
    call_method id req (some method) s =
        call_found id method (value_or (member "params" req) (object end))
          (find_method method handlers) s

    -- The parsed request. Its id is absent in a notification.
    unfoldable pub dispatch_parsed : Option Json → S → Outcome String × S
    dispatch_parsed none s = (dump (make_error null parse_error "Parse error" null), s)
    dispatch_parsed (some req) s =
        let called = call_method (member "id" req) req (method_of (member "method" req)) s in
        if is_version (member "jsonrpc" req)
        then called
        else (dump (make_error null invalid_request "Invalid Request" null), s)

    unfoldable pub dispatch : String → S → Outcome String × S
    dispatch raw s = dispatch_parsed (parse raw) s
