-- ===== src/Bus/Examples.antt =====
-- Tests of guidatabus.cpp, and its theorem at an input.
use qml_and_bgfx_testbridge.Prelude.{◌≡◌, refl, true, List, [], ◌∷◌, none, some}
use qml_and_bgfx_testbridge.Bus.{
  post, post_to, handlers_of, is_dead, register_handler, register_at, add_handler, is_registered,
  unregister_handler, remove_handlers, put_entry,
}
use qml_and_bgfx_testbridge.Bus.Delivery.{told}
use qml_and_bgfx_testbridge.Bus.Calls.{
  Call, registers, unregisters, dies, run, step, no_handlers, post-told,
}

abbrev calls : List Call
calls =
    registers "scene" 1 "onEvent"
    ∷ registers "scene" 2 "onEvent"
    ∷ registers "scene" 2 "onEvent"
    ∷ registers "scene" 3 "onEvent"
    ∷ unregisters "scene" 1
    ∷ dies 3
    ∷ []

told_once :
    let bus = run no_handlers calls in
    post bus.dead (some 1) "scene" true bus.handlers
    ≡ record { receiver = 2; slot = "onEvent"; topic = "scene"; payload = true } ∷ []
unfolding run step post post_to handlers_of is_dead register_handler register_at add_handler
    is_registered unregister_handler remove_handlers put_entry
told_once = refl

post-told_example :
    let bus = run no_handlers calls in
    told 2 "onEvent" (post bus.dead none "scene" true bus.handlers) ≡ 1
unfolding is_dead run step
post-told_example = post-told calls none "scene" true 2 "onEvent"
