-- ===== src/Bridge.antt =====
-- src/testbridge/test_bridge.h and .cpp, `TestBridge`: the facade over the server, the dispatcher and the bus
-- endpoint. The methods of the bus, the QML probe, the screen grabber, the application and the log are a
-- parameter by their names; those that the host provides are here. S is what the methods act on.
pub mod Methods
pub mod Restarts
mod Examples
use qml_and_bgfx_testbridge.Prelude.{
  ℕ, ◌+◌, Bool, true, false, List, [], ◌∷◌, ◌++◌, Option, none, some, String, str_eq, if◌then◌else◌,
  map,
}
use qml_and_bgfx_testbridge.Json.{Json, boolean, string, object_of}
use qml_and_bgfx_testbridge.Rpc.{
  Outcome, returns, throws, throws_other, RpcHandler, register_method, dispatch,
}
use qml_and_bgfx_testbridge.WsServer
use qml_and_bgfx_testbridge.WsServer.{Effect, new_server}
use qml_and_bgfx_testbridge.Endpoint.{BusEndpoint}

-- `std::function<nlohmann::json()>`, which can be empty.
abbrev pub JsonProvider : Type 0 → Type 0
JsonProvider S = Option (S → Outcome Json × S)

abbrev pub JsonHandler : Type 0 → Type 0
JsonHandler S = Option (RpcHandler S)

pub record Providers (S : Type 0) : Type 0 where
  pub render_caps : JsonProvider S
  pub render_stats : JsonProvider S
  pub render_resources : JsonProvider S
  pub shader_compile : JsonHandler S
  pub shader_apply : JsonHandler S
  pub shader_revert : JsonHandler S
  pub shader_list : JsonProvider S

unfoldable pub unavailable : String → String → Json
unavailable name reason =
    object_of
      (("available", boolean false) ∷ ("provider", string name) ∷ ("reason", string reason) ∷ [])

module _ {S : Type 0} where
  -- The setters of the providers and handlers. The mutex makes each one step.
  unfoldable pub set_render_caps_provider : JsonProvider S → Providers S → Providers S
  set_render_caps_provider f p = record p { render_caps = f }

  unfoldable pub set_render_stats_provider : JsonProvider S → Providers S → Providers S
  set_render_stats_provider f p = record p { render_stats = f }

  unfoldable pub set_render_resources_provider : JsonProvider S → Providers S → Providers S
  set_render_resources_provider f p = record p { render_resources = f }

  unfoldable pub set_shader_compile_handler : JsonHandler S → Providers S → Providers S
  set_shader_compile_handler f p = record p { shader_compile = f }

  unfoldable pub set_shader_apply_handler : JsonHandler S → Providers S → Providers S
  set_shader_apply_handler f p = record p { shader_apply = f }

  unfoldable pub set_shader_revert_handler : JsonHandler S → Providers S → Providers S
  set_shader_revert_handler f p = record p { shader_revert = f }

  unfoldable pub set_shader_list_provider : JsonProvider S → Providers S → Providers S
  set_shader_list_provider f p = record p { shader_list = f }

  unfoldable pub call_provider : JsonProvider S → String → S → Outcome Json × S
  call_provider none name s = (returns (unavailable name "host did not register a provider"), s)
  call_provider (some provider) name s = provider s

  unfoldable pub call_handler : JsonHandler S → Json → String → S → Outcome Json × S
  call_handler none params name s =
      (returns (unavailable name "host did not register a handler"), s)
  call_handler (some handler) params name s = handler params s

  unfoldable pub register_all :
      List (String × RpcHandler S) → List (String × RpcHandler S) → List (String × RpcHandler S)
  register_all [] handlers = handlers
  register_all ((name, h) ∷ rest) handlers = register_all rest (register_method name h handlers)

-- The methods of other parts, in the order of their registration.
abbrev pub part_methods : List String
part_methods =
    "app.ping" ∷ "app.version" ∷ "app.describe" ∷ "app.quit" ∷ "bus.publish" ∷ "bus.subscribe"
    ∷ "bus.unsubscribe" ∷ "bus.wait" ∷ "qml.list" ∷ "qml.find" ∷ "qml.get" ∷ "qml.set"
    ∷ "qml.invoke" ∷ "qml.click" ∷ "qml.type" ∷ "qml.geometry" ∷ "qml.meta" ∷ "qml.mouse"
    ∷ "qml.key" ∷ "qml.tree" ∷ "qml.hit" ∷ "window.grab" ∷ "log.recent" ∷ "log.wait" ∷ []

-- The list "methods" of `app.describe`, which is written out there once more.
unfoldable pub described_methods : List String
described_methods =
    "app.ping" ∷ "app.version" ∷ "app.describe" ∷ "app.quit" ∷ "bus.publish" ∷ "bus.subscribe"
    ∷ "bus.unsubscribe" ∷ "bus.wait" ∷ "qml.list" ∷ "qml.find" ∷ "qml.get" ∷ "qml.set"
    ∷ "qml.invoke" ∷ "qml.click" ∷ "qml.type" ∷ "qml.geometry" ∷ "qml.meta" ∷ "qml.mouse"
    ∷ "qml.key" ∷ "qml.tree" ∷ "qml.hit" ∷ "window.grab" ∷ "log.recent" ∷ "log.wait" ∷ "render.caps"
    ∷ "render.stats" ∷ "render.resources" ∷ "shader.compile" ∷ "shader.apply" ∷ "shader.revert"
    ∷ "shader.list" ∷ "test.artifacts" ∷ []

module _ {S : Type 0} where
  -- `registerMethods`. The providers are those of the time of the call.
  unfoldable pub method_table :
      (String → RpcHandler S) → (S → Providers S) → List (String × RpcHandler S)
  method_table part providers =
      map (λ name. (name, part name)) part_methods
      ++ ("render.caps", λ params s. call_provider (providers s).render_caps "render.caps" s)
        ∷ ("render.stats", λ params s. call_provider (providers s).render_stats "render.stats" s)
        ∷ (
          "render.resources",
          λ params s. call_provider (providers s).render_resources "render.resources" s,
        )
        ∷ ("test.artifacts", part "test.artifacts")
        ∷ (
          "shader.compile",
          λ params s. call_handler (providers s).shader_compile params "shader.compile" s,
        )
        ∷ (
          "shader.apply",
          λ params s. call_handler (providers s).shader_apply params "shader.apply" s,
        )
        ∷ (
          "shader.revert",
          λ params s. call_handler (providers s).shader_revert params "shader.revert" s,
        )
        ∷ ("shader.list", λ params s. call_provider (providers s).shader_list "shader.list" s)
        ∷ []

  unfoldable pub register_methods :
      (String → RpcHandler S) → (S → Providers S) → List (String × RpcHandler S)
  register_methods part providers = register_all (method_table part providers) []

  -- The lambda that `start` gives to the server: a reply that is not empty is sent.
  unfoldable pub on_message :
      (String → Option Json)
      → (Json → Outcome String)
      → List (String × RpcHandler S)
      → Bool
      → WsServer.WsServer
      → String
      → S
      → Outcome (List Effect) × S
  on_message parse dump handlers valid server msg s =
      let (out, s') = dispatch parse dump handlers msg s in (reply out, s')
    where
      reply : Outcome String → Outcome (List Effect)
      reply (returns text) =
          returns (if str_eq text "" then [] else WsServer.send valid text server)
      reply (throws what) = throws what
      reply throws_other = throws_other

-- The parts that `start` makes, and the loggers: whether `Logger` is made, which makes its logger the default one, and
-- how often the log sink stands in its logger and in the one that is the default before.
pub record TestBridge : Type 0 where
  pub started : Bool
  pub server : Option WsServer.WsServer
  pub logger_made : Bool
  pub sinks : ℕ
  pub old_default_sinks : ℕ

-- A new bridge in a process that has made `Logger`, or not yet.
unfoldable pub new_bridge : Bool → TestBridge
new_bridge logger_made = record {
  started = false;
  server = none;
  logger_made = logger_made;
  sinks = 0;
  old_default_sinks = 0;
}

-- The sink is pushed onto the default logger, and onto that of `Logger::getInstance()`.
unfoldable pub attach_sink : TestBridge → TestBridge
attach_sink b = if b.logger_made then record b { sinks = b.sinks + 2 } else record b {
  logger_made = true;
  sinks = b.sinks + 1;
  old_default_sinks = b.old_default_sinks + 1;
}

-- Whether the port is free is `listen_ok`.
unfoldable pub start : Bool → TestBridge → Bool × TestBridge
start listen_ok b =
    let (up, server) = WsServer.start listen_ok true new_server in
    if b.started
    then (true, b)
    else if up
    then (true, record (attach_sink b) { server = some server; started = true })
    else (false, record b { server = none })

unfoldable pub stop : TestBridge → TestBridge
stop b = if b.started then record b { started = false; server = stopped b.server } else b
  where
    stopped : Option WsServer.WsServer → Option WsServer.WsServer
    stopped none = none
    stopped (some server) = some (WsServer.stop server).0
