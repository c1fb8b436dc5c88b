-- ===== src/Bridge/Examples.antt =====
-- Tests of test_bridge.cpp, and its theorems at inputs.
use qml_and_bgfx_testbridge.Prelude.{ℕ, ◌≡◌, true, false, String, List, [], ◌∷◌, none}
use qml_and_bgfx_testbridge.Json.{string}
use qml_and_bgfx_testbridge.Rpc.{RpcHandler, returns, find_method}
use qml_and_bgfx_testbridge.Bridge.{Providers, register_methods, described_methods, new_bridge}
use qml_and_bgfx_testbridge.Bridge.Methods.{is_some, find_method-register_methods}
use qml_and_bgfx_testbridge.Bridge.Restarts.{Call, starts, stops, run, run_sinks}

abbrev no_providers : Providers ℕ
no_providers = record {
  render_caps = none;
  render_stats = none;
  render_resources = none;
  shader_compile = none;
  shader_apply = none;
  shader_revert = none;
  shader_list = none;
}

abbrev pong : String → RpcHandler ℕ
pong name params s = (returns (string "pong"), s)

find_method-register_methods_example :
    is_some (find_method "qml.hit" (register_methods pong (λ s. no_providers))) ≡ true
unfolding described_methods
find_method-register_methods_example =
    find_method-register_methods pong (λ s. no_providers) "qml.hit"

abbrev twice : List Call
twice = starts true ∷ starts true ∷ stops ∷ starts false ∷ starts true ∷ []

run_sinks_example :
    ((run (new_bridge true) twice).started ≡ true) × ((run (new_bridge true) twice).sinks ≡ 4)
run_sinks_example = run_sinks true twice
