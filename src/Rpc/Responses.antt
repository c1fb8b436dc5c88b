-- ===== src/Rpc/Responses.antt =====
-- rpc_dispatcher.cpp, `dispatch`: what the replies are, and when there are none.
use qml_and_bgfx_testbridge.Prelude.{
  ◌≡◌, refl, inl, inr, List, [], ◌∷◌, Option, none, some, String, str_eq, if◌then◌else◌, arith,
  Bool-cases, str_eq_iff,
}
use qml_and_bgfx_testbridge.Prelude.Int.{ℤ}
use qml_and_bgfx_testbridge.Json.{
  Json, null, string, integer, boolean, float, array, object, member, lookup,
}
use qml_and_bgfx_testbridge.Rpc.{
  Outcome, returns, throws, throws_other, RpcHandler, make_error, make_result, is_version,
  method_of, register_method, find_method, failure, printed, answer, refuse, call_found,
  call_method, dispatch_parsed, dispatch, invalid_request, parse_error, internal_error,
}

-- A JSON-RPC response: the version, the id, and just one of a result and an error.
pub data Body (j : Json) : Type 0 where
  result_only : (r : Json) → member "result" j ≡ some r → member "error" j ≡ none → Body j
  error_only :
      (e : Json) (code : ℤ) (message : String)
      → member "result" j ≡ none
      → member "error" j ≡ some e
      → member "code" e ≡ some (integer code)
      → member "message" e ≡ some (string message)
      → Body j

pub record IsResponse (id j : Json) : Type 0 where
  pub version : member "jsonrpc" j ≡ some (string "2.0")
  pub same_id : member "id" j ≡ some id
  pub body : Body j

make_result-IsResponse : (id r : Json) → IsResponse id (make_result id r)
unfolding make_result member lookup
make_result-IsResponse id r = record {
  version = refl;
  same_id = refl;
  body = result_only r refl refl;
}

make_error-IsResponse :
    (id : Json) (code : ℤ) (m : String) → IsResponse id (make_error id code m null)
unfolding make_error member lookup
make_error-IsResponse id code m = record {
  version = refl;
  same_id = refl;
  body = error_only _ code m refl refl refl refl;
}

-- The id that a message is to be answered under, if any: null for what is no JSON-RPC 2.0 request.
abbrev pub addressee : Option Json → Option Json
addressee none = some null
addressee (some req) = if is_version (member "jsonrpc" req) then member "id" req else some null

module _ (parse : String → Option Json) (dump : Json → Outcome String) where
  -- What comes back under an id: a result that could be printed, or an error as it is printed, which may
  -- throw; and nothing where there is no id.
  pub data Reply : Option Json → Outcome String → Type 0 where
    silent : Reply none (returns "")
    result_reply :
        (id r j : Json) (text : String)
        → IsResponse id j
        → member "result" j ≡ some r
        → dump j ≡ returns text
        → Reply (some id) (returns text)
    error_reply :
        (id e j : Json) → IsResponse id j → member "error" j ≡ some e → Reply (some id) (dump j)

  error-Reply :
      (id : Json) (code : ℤ) (m : String) → Reply (some id) (dump (make_error id code m null))
  unfolding make_error member lookup
  error-Reply id code m = error_reply id _ _ (make_error-IsResponse id code m) refl

  printed-Reply :
      (id r : Json) (out : Outcome String)
      → dump (make_result id r) ≡ out
      → Reply (some id) (printed parse dump id out)
  unfolding printed failure make_result member lookup
  printed-Reply id r (returns text) e =
      result_reply id r (make_result id r) text (make_result-IsResponse id r) refl e
  printed-Reply id r (throws what) e = error-Reply id internal_error what
  printed-Reply id r throws_other e = error-Reply id internal_error "Unknown error"

  answer-Reply : (id : Option Json) (out : Outcome Json) → Reply id (answer parse dump id out)
  unfolding answer failure
  answer-Reply none out = silent
  answer-Reply (some id) (returns r) = printed-Reply id r (dump (make_result id r)) refl
  answer-Reply (some id) (throws what) = error-Reply id internal_error what
  answer-Reply (some id) throws_other = error-Reply id internal_error "Unknown error"

  refuse-Reply : (id : Option Json) (code : ℤ) (m : String) → Reply id (refuse parse dump id code m)
  unfolding refuse
  refuse-Reply none code m = silent
  refuse-Reply (some id) code m = error-Reply id code m

  module _ {S : Type 0} (handlers : List (String × RpcHandler S)) where
    found-Reply :
        (id : Option Json) (method : String) (params : Json) (h : Option (RpcHandler S)) (s : S)
        → Reply id (call_found parse dump handlers id method params h s).0
    unfolding call_found
    found-Reply id method params none s = refuse-Reply id _ _
    found-Reply id method params (some h) s = answer-Reply id (h params s).0

    method-Reply :
        (id : Option Json) (req : Json) (method : Option String) (s : S)
        → Reply id (call_method parse dump handlers id req method s).0
    unfolding call_method
    method-Reply id req none s = refuse-Reply id _ _
    method-Reply id req (some method) s = found-Reply id method _ (find_method method handlers) s

    parsed-Reply :
        (req : Option Json) (s : S)
        → Reply (addressee req) (dispatch_parsed parse dump handlers req s).0
    unfolding dispatch_parsed
    parsed-Reply none s = error-Reply null parse_error "Parse error"
    parsed-Reply (some req) s = elim (Bool-cases (is_version (member "jsonrpc" req))) [
      | inl e ↦ rw e (method-Reply (member "id" req) req (method_of (member "method" req)) s)
      | inr e ↦ rw e (error-Reply null invalid_request "Invalid Request")
    ]

    -- Whatever the message, the handlers, the parser and the printer: `dispatch` is silent just on a
    -- notification of JSON-RPC 2.0; to all else it gives a response under the id of the request (null for
    -- what is no request) with just one of result and error; and an exception leaves it only from the
    -- printing of an error.
    pub dispatch-Reply :
        (raw : String) (s : S)
        → Reply (addressee (parse raw)) (dispatch parse dump handlers raw s).0
    unfolding dispatch
    dispatch-Reply raw s = parsed-Reply (parse raw) s

    -- What becomes of the state: nothing, or what one handler does to it, which is registered under the name
    -- of the method in the message.
    pub data Effect (req : Option Json) (s : S) : S → Type 0 where
      untouched : Effect req s s
      handled :
          (j : Json) (method : String) (h : RpcHandler S) (params : Json)
          → req ≡ some j
          → member "method" j ≡ some (string method)
          → find_method method handlers ≡ some h
          → Effect req s (h params s).1

    found-Effect :
        (req : Json) (method : String) (params : Json) (h : Option (RpcHandler S)) (s : S)
        → member "method" req ≡ some (string method)
        → find_method method handlers ≡ h
        → Effect (some req) s (call_found parse dump handlers (member "id" req) method params h s).1
    unfolding call_found
    found-Effect req method params none s named found = untouched
    found-Effect req method params (some h) s named found =
        handled req method h params refl named found

    method-Effect :
        (req : Json) (m : Option Json) (s : S)
        → member "method" req ≡ m
        → Effect
            (some req)
            s
            (call_method parse dump handlers (member "id" req) req (method_of m) s).1
    unfolding call_method method_of
    method-Effect req (some (string method)) s e =
        found-Effect req method _ (find_method method handlers) s e refl
    method-Effect req (some null) s e = untouched
    method-Effect req (some (boolean _)) s e = untouched
    method-Effect req (some (integer _)) s e = untouched
    method-Effect req (some (float _)) s e = untouched
    method-Effect req (some (array _)) s e = untouched
    method-Effect req (some (object _)) s e = untouched
    method-Effect req none s e = untouched

    parsed-Effect :
        (req : Option Json) (s : S) → Effect req s (dispatch_parsed parse dump handlers req s).1
    unfolding dispatch_parsed
    parsed-Effect none s = untouched
    parsed-Effect (some req) s = elim (Bool-cases (is_version (member "jsonrpc" req))) [
      | inl e ↦ rw e (method-Effect req (member "method" req) s refl)
      | inr e ↦ rw e untouched
    ]

    -- `dispatch` runs at most one handler, once: the one that is registered under the name in the message,
    -- whether the message is a request or a notification; all else leaves the state as it is.
    pub dispatch-Effect :
        (raw : String) (s : S) → Effect (parse raw) s (dispatch parse dump handlers raw s).1
    unfolding dispatch
    dispatch-Effect raw s = parsed-Effect (parse raw) s

module _ {S : Type 0} where
  -- A registration replaces the handler of its name and leaves those of the others.
  pub find_method-register_method :
      (method name : String) (h : RpcHandler S) (handlers : List (String × RpcHandler S))
      → find_method name (register_method method h handlers)
        ≡ (if str_eq method name then some h else find_method name handlers)
  unfolding find_method register_method
  find_method-register_method method name h [] = refl
  find_method-register_method method name h ((m, g) ∷ rest) = ground (
    arith,
    str_eq_iff method name,
    str_eq_iff m method,
    str_eq_iff m name,
    find_method-register_method method name h rest,
  )
