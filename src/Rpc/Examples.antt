-- ===== src/Rpc/Examples.antt =====
-- Tests of rpc_dispatcher.cpp, and its theorems at inputs.
use qml_and_bgfx_testbridge.Prelude.{
  ℕ, ◌+◌, ◌≡◌, refl, List, [], ◌∷◌, Option, none, some, String, str_eq, if◌then◌else◌,
}
use qml_and_bgfx_testbridge.Prelude.Int.{pos}
use qml_and_bgfx_testbridge.Json.{Json, string, integer, object_of, member, lookup}
use qml_and_bgfx_testbridge.Rpc.{
  Outcome, returns, RpcHandler, dispatch, find_method, dispatch_parsed, is_version, call_method,
  method_of, call_found, answer, printed,
}
use qml_and_bgfx_testbridge.Rpc.Responses.{
  Reply, Effect, addressee, dispatch-Reply, dispatch-Effect,
}

-- A parser of two messages.
abbrev parse : String → Option Json
parse raw =
    if str_eq raw "call"
    then some (
        object_of
          (("jsonrpc", string "2.0") ∷ ("id", integer (pos 1)) ∷ ("method", string "count") ∷ []))
    else if str_eq raw "notify"
    then some (object_of (("jsonrpc", string "2.0") ∷ ("method", string "count") ∷ []))
    else none

abbrev dump : Json → Outcome String
dump j = returns "text"

abbrev count : RpcHandler ℕ
count params n = (returns (integer (pos n)), n + 1)

abbrev handlers : List (String × RpcHandler ℕ)
handlers = ("count", count) ∷ []

call_counts : dispatch parse dump handlers "call" 4 ≡ (returns "text", 5)
unfolding dispatch dispatch_parsed is_version call_method method_of call_found find_method answer
    printed member lookup
call_counts = refl

notification_counts : dispatch parse dump handlers "notify" 4 ≡ (returns "", 5)
unfolding dispatch dispatch_parsed is_version call_method method_of call_found find_method answer
    member lookup
notification_counts = refl

dispatch-Reply_example :
    Reply parse dump (addressee (parse "call")) (dispatch parse dump handlers "call" 4).0
dispatch-Reply_example = dispatch-Reply parse dump handlers "call" 4

dispatch-Effect_example :
    Effect parse dump handlers (parse "notify") 4 (dispatch parse dump handlers "notify" 4).1
dispatch-Effect_example = dispatch-Effect parse dump handlers "notify" 4
