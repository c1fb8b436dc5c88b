-- ===== src/WsServer/Examples.antt =====
-- Tests of ws_server.cpp, and its theorems at inputs.
use qml_and_bgfx_testbridge.Prelude.{ℕ, ◌≡◌, refl, true, [], ◌∷◌, some}
use qml_and_bgfx_testbridge.WsServer.{
  WsServer, closes, rejects, new_server, start, on_new_connection, on_idle_timeout,
}
use qml_and_bgfx_testbridge.WsServer.Reach.{
  Step, Keeps, second, starts, connects, Steps, done, then_step, Guarded, AllAllowed, Steps-Guarded,
  Step-Allowed,
}

abbrev up : WsServer
up = (start true true new_server).1

abbrev served : WsServer
served = (on_new_connection (some 7) up).0

idle_closed : (on_idle_timeout served).1 ≡ closes 7 ∷ []
unfolding on_idle_timeout on_new_connection start new_server
idle_closed = refl

abbrev served_steps : Steps new_server ([] ∷ [] ∷ []) served
unfolding on_new_connection start new_server
served_steps =
    then_step new_server up served ([] ∷ []) []
      (then_step new_server new_server up [] [] (done new_server) (starts true true new_server))
      (connects (some 7) up)

Steps-Guarded_example : Guarded served.conn served.idle_timer
Steps-Guarded_example = Steps-Guarded new_server served ([] ∷ [] ∷ []) refl served_steps

abbrev a_second_client :
    Step served (on_new_connection (some 9) served).1 (on_new_connection (some 9) served).0
a_second_client = connects (some 9) served

Step-Allowed_example :
    let now = (on_new_connection (some 9) served).1 in
    let t = (on_new_connection (some 9) served).0 in
    AllAllowed served t now
    × Keeps served.conn t.conn
    × ((p : ℕ)
        → second served now t a_second_client ≡ some p
        → (now ≡ rejects p ∷ []) × (t ≡ served))
Step-Allowed_example =
    Step-Allowed served (on_new_connection (some 9) served).1 (on_new_connection (some 9) served).0
      a_second_client
