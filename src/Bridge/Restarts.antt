-- ===== src/Bridge/Restarts.antt =====
-- test_bridge.cpp, `start` and `stop` over any calls.
use qml_and_bgfx_testbridge.Prelude.{
  ℕ, ◌+◌, ◌-◌, min, ◌∙◌, ◌||◌, ◌≡◌, refl, Bool, true, false, List, [], ◌∷◌, if◌then◌else◌, arith,
}
use qml_and_bgfx_testbridge.WsServer
use qml_and_bgfx_testbridge.WsServer.{new_server}
use qml_and_bgfx_testbridge.Bridge.{TestBridge, new_bridge, attach_sink, start, stop}

-- A call of the facade; a start comes with whether the port is free.
pub data Call : Type 0 where
  starts : Bool → Call
  stops : Call

unfoldable pub step : TestBridge → Call → TestBridge
step b (starts listen_ok) = (start listen_ok b).1
step b stops = stop b

unfoldable pub run : TestBridge → List Call → TestBridge
run b [] = b
run b (call ∷ calls) = run (step b call) calls

-- Whether the bridge is up after the calls, and how often it came up.
abbrev pub is_up : Bool → List Call → Bool
is_up up [] = up
is_up up (starts listen_ok ∷ calls) = is_up (if up then true else listen_ok) calls
is_up up (stops ∷ calls) = is_up false calls

abbrev pub ups : Bool → List Call → ℕ
ups up [] = 0
ups up (starts listen_ok ∷ calls) =
    (if up then 0 else if listen_ok then 1 else 0) + ups (if up then true else listen_ok) calls
ups up (stops ∷ calls) = ups false calls

-- The sinks that so many starts push onto the logger: two each, but for the first if it makes the logger.
abbrev pub pushed : Bool → ℕ → ℕ
pushed made n = n + n - (if made then 0 else min 1 n)

start-up :
    (listen_ok : Bool) (b : TestBridge)
    → ((start listen_ok b).1.started ≡ (if b.started then true else listen_ok))
      × ((start listen_ok b).1.logger_made
          ≡ (b.logger_made || (if b.started then false else listen_ok)))
      × ((start listen_ok b).1.sinks
          ≡ pushed b.logger_made (if b.started then 0 else if listen_ok then 1 else 0) + b.sinks)
unfolding start WsServer.start attach_sink
start-up listen_ok b = ground arith

stop-up :
    (b : TestBridge)
    → ((stop b).started ≡ false)
      × ((stop b).logger_made ≡ b.logger_made)
      × ((stop b).sinks ≡ b.sinks)
unfolding stop
stop-up b = ground arith

run-up :
    (up made : Bool) (b : TestBridge) (calls : List Call)
    → b.started ≡ up
    → b.logger_made ≡ made
    → ((run b calls).started ≡ is_up up calls)
      × ((run b calls).sinks ≡ pushed made (ups up calls) + b.sinks)
unfolding run step
run-up up made b [] e f = (e, ground arith)
run-up up made b (starts listen_ok ∷ calls) e f =
    let now = start-up listen_ok b in
    let same : (start listen_ok b).1.started ≡ (if up then true else listen_ok) = ground arith in
    let same' : (start listen_ok b).1.logger_made ≡ (made || (if up then false else listen_ok)) =
      ground arith in
    let later =
      run-up (if up then true else listen_ok) (made || (if up then false else listen_ok))
        (start listen_ok b).1 calls same same' in
    (later.0, ground arith)
run-up up made b (stops ∷ calls) e f =
    let now = stop-up b in
    let later = run-up false made (stop b) calls now.0 (now.1 ∙ f) in (later.0, ground arith)

-- Over any starts and stops of a new bridge: it is up after a start that found its port free until the next stop, and a
-- start that finds it up changes nothing. Each time the bridge comes up the log sink is pushed onto the logger of
-- `Logger` twice, or once if only this makes the logger; and no stop takes it out.
pub run_sinks :
    (logger_made : Bool) (calls : List Call)
    → let b = run (new_bridge logger_made) calls in
      (b.started ≡ is_up false calls) × (b.sinks ≡ pushed logger_made (ups false calls))
unfolding new_bridge
run_sinks logger_made calls =
    let all = run-up false logger_made (new_bridge logger_made) calls refl refl in
    (all.0, ground arith)
