-- ===== src/WsServer/Reach.antt =====
-- ws_server.cpp: the states that the server can reach, and what holds in them.
use qml_and_bgfx_testbridge.Prelude.{
  ℕ, ◌≡◌, refl, Bool, true, false, List, [], ◌∷◌, Option, none, some, String, Option-cases,
  Bool-cases, inl, inr, ◌⊎◌, arith,
}
use qml_and_bgfx_testbridge.WsServer.{
  WsServer, Effect, closes, rejects, sends, tells, closes_server, new_server, start, stop,
  on_new_connection, set_timer, on_text_message_received, on_client_disconnected, on_idle_timeout,
  send,
}

-- The steps of the server with their effects: calls from outside, and the signals of Qt. A message and a
-- disconnection come from the client there is, and the timer runs out only while it runs.
pub data Step : WsServer → List Effect → WsServer → Type 0 where
  starts : (listen_ok callback : Bool) (s : WsServer) → Step s [] (start listen_ok callback s).1
  stops : (s : WsServer) → Step s (stop s).1 (stop s).0
  sends_out : (valid : Bool) (msg : String) (s : WsServer) → Step s (send valid msg s) s
  connects :
      (pending : Option ℕ) (s : WsServer)
      → Step s (on_new_connection pending s).1 (on_new_connection pending s).0
  receives :
      (message : String) (c : ℕ) (s : WsServer)
      → s.conn ≡ some c
      → Step s (on_text_message_received message s).1 (on_text_message_received message s).0
  disconnects : (c : ℕ) (s : WsServer) → s.conn ≡ some c → Step s [] (on_client_disconnected s)
  times_out :
      (s : WsServer) → s.idle_timer ≡ some true → Step s (on_idle_timeout s).1 (on_idle_timeout s).0

-- Any number of steps, with the effects of all, the latest first.
pub data Steps : WsServer → List (List Effect) → WsServer → Type 0 where
  done : (s : WsServer) → Steps s [] s
  then_step :
      (s t u : WsServer) (before : List (List Effect)) (now : List Effect)
      → Steps s before t
      → Step t now u
      → Steps s (now ∷ before) u

-- Without a client no timer runs, and with a client there is a timer.
pub data Guarded : Option ℕ → Option Bool → Type 0 where
  no_timer : Guarded none none
  resting : Guarded none (some false)
  watched : (c : ℕ) (running : Bool) → Guarded (some c) (some running)

Guard : WsServer → Type 0
Guard s = Guarded s.conn s.idle_timer

stopped :
    (conn : Option ℕ) (timer : Option Bool)
    → Guarded conn timer
    → Guarded none (set_timer false timer)
stopped none none g = no_timer
stopped (some c) none g = no_timer
stopped conn (some running) g = resting

restarted :
    (conn : Option ℕ) (c : ℕ) (timer : Option Bool)
    → conn ≡ some c
    → Guarded conn timer
    → Guarded conn (set_timer true timer)
restarted none c timer e g = cc
restarted (some d) c none e g = g
restarted (some d) c (some running) e g = watched d true

timed :
    (conn : Option ℕ) (timer : Option Bool)
    → Guarded conn timer
    → Guarded conn (set_timer false timer)
timed none none g = no_timer
timed none (some running) g = resting
timed (some c) none g = g
timed (some c) (some running) g = watched c false

Step-Guard : (s : WsServer) (now : List Effect) (t : WsServer) → Step s now t → Guard s → Guard t
unfolding Guard start stop on_new_connection on_text_message_received on_client_disconnected
    on_idle_timeout
Step-Guard _ _ _ (starts listen_ok callback s) g = g
Step-Guard _ _ _ (stops s) g = no_timer
Step-Guard _ _ _ (sends_out valid msg s) g = g
Step-Guard _ _ _ (connects none s) g = g
Step-Guard _ _ _ (connects (some p) s) g = elim (Option-cases s.conn) [
  | inl e ↦ rw e (watched p true)
  | inr (c, e) ↦ rw e (rw e at g)
]
Step-Guard _ _ _ (receives message c s e) g = restarted s.conn c s.idle_timer e g
Step-Guard _ _ _ (disconnects c s e) g = stopped s.conn s.idle_timer g
Step-Guard _ _ _ (times_out s e) g = timed s.conn s.idle_timer g

-- From a new server, whatever the calls, the clients and the clock: a timer runs only while there is a client,
-- and while there is a client there is a timer.
pub Steps-Guarded :
    (s t : WsServer) (effects : List (List Effect))
    → s ≡ new_server
    → Steps s effects t
    → Guarded t.conn t.idle_timer
unfolding Guard new_server
Steps-Guarded _ _ _ new (done s) = rw new no_timer
Steps-Guarded _ _ _ new (then_step s t u before now earlier step) =
    Step-Guard t now u step (Steps-Guarded s t before new earlier)

-- What an effect needs of the state before a step and after it.
abbrev pub Allowed : WsServer → WsServer → Effect → Type 0
Allowed s t (closes k) = s.conn ≡ some k
Allowed s t (rejects k) = (t ≡ s) × (c : ℕ) × (s.conn ≡ some c)
Allowed s t (sends k msg) = (t ≡ s) × (s.conn ≡ some k)
Allowed s t (tells msg) = (s.has_callback ≡ true) × (t.conn ≡ s.conn) × (c : ℕ) × (s.conn ≡ some c)
Allowed s t closes_server = (s.listening ≡ true) × (t.conn ≡ none) × (t.idle_timer ≡ none)

abbrev pub AllAllowed : WsServer → WsServer → List Effect → Type 0
AllAllowed s t [] = Unit {0}
AllAllowed s t (e ∷ es) = Allowed s t e × AllAllowed s t es

effects-Allowed :
    (s : WsServer) (now : List Effect) (t : WsServer) → Step s now t → AllAllowed s t now
unfolding start stop send on_new_connection on_text_message_received on_idle_timeout
effects-Allowed _ _ _ (starts listen_ok callback s) = tt
effects-Allowed _ _ _ (stops s) = elim (Option-cases s.conn) [
  | inl e ↦ rw e (elim (Bool-cases s.listening) [
    | inl up ↦ rw up ((refl, refl, refl), tt)
    | inr down ↦ rw down tt
  ])
  | inr (c, e) ↦ rw e (elim (Bool-cases s.listening) [
    | inl up ↦ rw up (refl, ((up, refl, refl), tt))
    | inr down ↦ rw down (refl, tt)
  ])
]
effects-Allowed _ _ _ (sends_out true msg s) = elim (Option-cases s.conn) [
  | inl e ↦ rw e tt
  | inr (c, e) ↦ rw e ((refl, refl), tt)
]
effects-Allowed _ _ _ (sends_out false msg s) = elim (Option-cases s.conn) [
  | inl e ↦ rw e tt
  | inr (c, e) ↦ rw e tt
]
effects-Allowed _ _ _ (connects none s) = tt
effects-Allowed _ _ _ (connects (some p) s) = elim (Option-cases s.conn) [
  | inl e ↦ rw e tt
  | inr (c, e) ↦ rw e ((refl, c, refl), tt)
]
effects-Allowed _ _ _ (receives message c s e) = elim (Bool-cases s.has_callback) [
  | inl on ↦ rw on ((refl, refl, c, e), tt)
  | inr off ↦ rw off tt
]
effects-Allowed _ _ _ (disconnects c s e) = tt
effects-Allowed _ _ _ (times_out s e) = elim (Option-cases s.conn) [
  | inl e ↦ rw e tt
  | inr (c, e) ↦ rw e (refl, tt)
]

-- A client that connects while there is one.
abbrev pub second : (s : WsServer) (now : List Effect) (t : WsServer) → Step s now t → Option ℕ
second _ _ _ (connects pending s) = elim s.conn [ none ↦ none | some c ↦ pending ]
second _ _ _ (starts listen_ok callback s) = none
second _ _ _ (stops s) = none
second _ _ _ (sends_out valid msg s) = none
second _ _ _ (receives message c s e) = none
second _ _ _ (disconnects c s e) = none
second _ _ _ (times_out s e) = none

-- The client there was is there still, or it has left or was closed, and there is none.
abbrev pub Keeps : Option ℕ → Option ℕ → Type 0
Keeps old new = (c : ℕ) → old ≡ some c → (new ≡ some c) ⊎ (new ≡ none)

Step-second :
    (s : WsServer) (now : List Effect) (t : WsServer) (step : Step s now t) (p : ℕ)
    → second s now t step ≡ some p
    → (now ≡ rejects p ∷ []) × (t ≡ s)
unfolding on_new_connection
Step-second _ _ _ (connects none s) p h = elim (Option-cases s.conn) [
  | inl e ↦ absurd (ground (arith, rw e at h))
  | inr (c, e) ↦ absurd (ground (arith, rw e at h))
]
Step-second _ _ _ (connects (some q) s) p h = elim (Option-cases s.conn) [
  | inl e ↦ absurd (ground (arith, rw e at h))
  | inr (c, e) ↦ let same : some q ≡ some p = rw e at h in (rw e cc, rw e refl)
]
Step-second _ _ _ (starts listen_ok callback s) p h = cc
Step-second _ _ _ (stops s) p h = cc
Step-second _ _ _ (sends_out valid msg s) p h = cc
Step-second _ _ _ (receives message c s e) p h = cc
Step-second _ _ _ (disconnects c s e) p h = cc
Step-second _ _ _ (times_out s e) p h = cc

Step-Keeps : (s : WsServer) (now : List Effect) (t : WsServer) → Step s now t → Keeps s.conn t.conn
unfolding start stop on_new_connection on_text_message_received on_client_disconnected
    on_idle_timeout
Step-Keeps _ _ _ (connects none s) c h = inl h
Step-Keeps _ _ _ (connects (some q) s) c h = elim (Option-cases s.conn) [
  | inl e ↦ cc
  | inr (d, e) ↦ rw e (inl (rw e at h))
]
Step-Keeps _ _ _ (starts listen_ok callback s) c h = inl h
Step-Keeps _ _ _ (stops s) c h = inr refl
Step-Keeps _ _ _ (sends_out valid msg s) c h = inl h
Step-Keeps _ _ _ (receives message d s e) c h = inl h
Step-Keeps _ _ _ (disconnects d s e) c h = inr refl
Step-Keeps _ _ _ (times_out s e) c h = inl h

-- In every step: only the client there is is closed and sent to; a message is passed on only to a callback, and the
-- server is closed only with all else; a client is never replaced by another; and one that connects while there is
-- a client is rejected, with no other effect and no change of the server.
pub Step-Allowed :
    (s : WsServer) (now : List Effect) (t : WsServer) (step : Step s now t)
    → AllAllowed s t now
      × Keeps s.conn t.conn
      × ((p : ℕ) → second s now t step ≡ some p → (now ≡ rejects p ∷ []) × (t ≡ s))
Step-Allowed s now t step =
    (effects-Allowed s now t step, Step-Keeps s now t step, Step-second s now t step)
