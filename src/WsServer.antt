-- ===== src/WsServer.antt =====
-- src/testbridge/ws_server.h and .cpp, `WsServer`: one client at a time over the sockets of Qt, and its idle
-- timer. A socket is a number. What the server does to sockets and tells others is the list of its effects.
pub mod Reach
mod Examples
use qml_and_bgfx_testbridge.Prelude.{
  ℕ, Bool, true, false, List, [], ◌∷◌, ◌++◌, Option, none, some, String, if◌then◌else◌,
}

pub data Effect : Type 0 where
  closes : ℕ → Effect
  rejects : ℕ → Effect
  sends : ℕ → String → Effect
  tells : String → Effect  -- `m_onMessage`
  closes_server : Effect

-- `m_idleTimer` is absent, or it is there and runs or not.
pub record WsServer : Type 0 where
  pub listening : Bool
  pub conn : Option ℕ
  pub idle_timer : Option Bool
  pub has_callback : Bool

unfoldable pub new_server : WsServer
new_server = record { listening = false; conn = none; idle_timer = none; has_callback = false }

-- Whether `listen` succeeds is its answer; `callback` is whether one is given.
unfoldable pub start : Bool → Bool → WsServer → Bool × WsServer
start listen_ok callback s =
    (listen_ok, record s { listening = listen_ok; has_callback = callback })

abbrev pub close_conn : Option ℕ → List Effect
close_conn none = []
close_conn (some c) = closes c ∷ []

unfoldable pub stop : WsServer → WsServer × List Effect
stop s = (
  record s { idle_timer = none; conn = none; listening = false },
  close_conn s.conn ++ (if s.listening then closes_server ∷ [] else []),
)

-- `valid` is the answer of `isValid`.
unfoldable pub send : Bool → String → WsServer → List Effect
send valid msg s = to_client s.conn
  where
    to_client : Option ℕ → List Effect
    to_client none = []
    to_client (some c) = if valid then sends c msg ∷ [] else []

-- The pending connection, if there is one.
unfoldable pub on_new_connection : Option ℕ → WsServer → WsServer × List Effect
on_new_connection none s = (s, [])
on_new_connection (some pending) s = accept s.conn
  where
    accept : Option ℕ → WsServer × List Effect
    accept (some c) = (s, rejects pending ∷ [])
    accept none = (record s { conn = some pending; idle_timer = some true }, [])

-- `start` and `stop` of the timer, if it is there.
abbrev pub set_timer : Bool → Option Bool → Option Bool
set_timer running none = none
set_timer running (some old) = some running

unfoldable pub on_text_message_received : String → WsServer → WsServer × List Effect
on_text_message_received message s = (
  record s { idle_timer = set_timer true s.idle_timer },
  if s.has_callback then tells message ∷ [] else [],
)

unfoldable pub on_client_disconnected : WsServer → WsServer
on_client_disconnected s = record s { idle_timer = set_timer false s.idle_timer; conn = none }

-- The single shot timer has run out.
unfoldable pub on_idle_timeout : WsServer → WsServer × List Effect
on_idle_timeout s = (record s { idle_timer = set_timer false s.idle_timer }, close_conn s.conn)
