-- ===== src/Bus/Calls.antt =====
-- guidatabus.cpp, `registerHandler`, `unregisterHandler` and `post` over any calls.
use qml_and_bgfx_testbridge.Prelude.{
  ℕ, ◌≡◌, refl, ap, ◌∙◌, Bool, false, not, ◌&&◌, ◌||◌, List, [], ◌∷◌, Option, some, String, str_eq,
  ◌==◌, if◌then◌else◌, arith, Bool-cases, inl, inr,
}
use qml_and_bgfx_testbridge.Bus.{
  Handlers, is_dead, add_handler, remove_handlers, handlers_of, post, register_handler,
  unregister_handler,
}
use qml_and_bgfx_testbridge.Bus.Delivery.{
  one_if, holds, told, is_sender, told-post_to, holds-add_handler, holds-remove_handlers,
  handlers_of-register_at, Distinct, register_at-Distinct, unregister_handler-Distinct,
  handlers_of-unregister_handler,
}

-- A call of the bus, or the end of an object.
pub data Call : Type 0 where
  registers : String → ℕ → String → Call
  unregisters : String → ℕ → Call
  dies : ℕ → Call

-- The dead, and `m_handlers`.
pub record GuiDataBus : Type 0 where
  pub dead : List ℕ
  pub handlers : Handlers

unfoldable pub step : GuiDataBus → Call → GuiDataBus
step bus (registers topic r slot) = record bus {
  handlers = register_handler bus.dead topic (some r) (some slot) bus.handlers;
}
step bus (unregisters topic r) = record bus {
  handlers = unregister_handler bus.dead topic (some r) bus.handlers;
}
step bus (dies r) = record bus { dead = r ∷ bus.dead }

unfoldable pub run : GuiDataBus → List Call → GuiDataBus
run bus [] = bus
run bus (call ∷ calls) = run (step bus call) calls

-- Whether a slot is to be called for a topic: it was registered and the receiver not unregistered since.
abbrev pub entitled : String → ℕ → String → Bool → List Call → Bool
entitled t r s now [] = now
entitled t r s now (registers t' r' s' ∷ calls) =
    entitled t r s (now || (str_eq t' t && r' == r && str_eq s' s)) calls
entitled t r s now (unregisters t' r' ∷ calls) =
    entitled t r s (now && not (str_eq t' t && r' == r)) calls
entitled t r s now (dies r' ∷ calls) = entitled t r s now calls

-- The dead stay dead.
alive_before :
    (bus : GuiDataBus) (calls : List Call) (r : ℕ)
    → is_dead (run bus calls).dead r ≡ false
    → is_dead bus.dead r ≡ false
unfolding run step is_dead
alive_before bus [] r h = h
alive_before bus (registers t' r' s' ∷ calls) r h =
    alive_before (step bus (registers t' r' s')) calls r h
alive_before bus (unregisters t' r' ∷ calls) r h =
    alive_before (step bus (unregisters t' r')) calls r h
alive_before bus (dies r' ∷ calls) r h =
    let later = alive_before (step bus (dies r')) calls r h in ground arith

run-holds :
    (t : String) (r : ℕ) (s : String) (now : Bool) (bus : GuiDataBus) (calls : List Call)
    → Distinct bus.handlers
    → is_dead (run bus calls).dead r ≡ false
    → holds r s (handlers_of t bus.handlers) ≡ one_if now
    → holds r s (handlers_of t (run bus calls).handlers) ≡ one_if (entitled t r s now calls)
unfolding run step register_handler
run-holds t r s now bus [] d living h = h
run-holds t r s now bus (registers t' r' s' ∷ calls) d living h =
    let call = registers t' r' s' in
    let alive = alive_before bus (call ∷ calls) r living in
    let old = handlers_of t bus.handlers in
    let looked = ap (holds r s) (handlers_of-register_at bus.dead t' r' s' t bus.handlers) in
    let added = holds-add_handler bus.dead r' s' r s old alive in
    let split_add : (b : Bool)
        → holds r s (if b then add_handler bus.dead r' s' old else old)
          ≡ one_if (now || (b && r' == r && str_eq s' s)) =
      λ b. elim (Bool-cases b) [ inl e ↦ rw e (ground arith) | inr e ↦ rw e (ground arith) ] in
    run-holds t r s (now || (str_eq t' t && r' == r && str_eq s' s)) (step bus call) calls
      (register_at-Distinct bus.dead t' r' s' bus.handlers d) living
      (looked ∙ split_add (str_eq t' t))
run-holds t r s now bus (unregisters t' r' ∷ calls) d living h =
    let call = unregisters t' r' in
    let alive = alive_before bus (call ∷ calls) r living in
    let old = handlers_of t bus.handlers in
    let looked =
      ap (holds r s) (handlers_of-unregister_handler bus.dead t' (some r') t bus.handlers d) in
    let removed = holds-remove_handlers bus.dead r' r s old alive in
    let split_remove : (b : Bool)
        → holds r s (if b then remove_handlers bus.dead (some r') old else old)
          ≡ one_if (now && not (b && r' == r)) =
      λ b. elim (Bool-cases b) [ inl e ↦ rw e (ground arith) | inr e ↦ rw e (ground arith) ] in
    run-holds t r s (now && not (str_eq t' t && r' == r)) (step bus call) calls
      (unregister_handler-Distinct bus.dead t' (some r') bus.handlers d) living
      (looked ∙ split_remove (str_eq t' t))
run-holds t r s now bus (dies r' ∷ calls) d living h =
    run-holds t r s now (step bus (dies r')) calls d living h

abbrev pub no_handlers : GuiDataBus
no_handlers = record { dead = []; handlers = [] }

-- Over any registrations and unregistrations, from an empty bus, and the deaths of any objects: a post calls a
-- slot of a receiver once if it was registered for the topic and not unregistered since, the receiver lives and
-- it is not the sender; and it does not call it otherwise.
pub post-told :
    {V : Type 0} (calls : List Call) (sender : Option ℕ) (topic : String) (v : V) (r : ℕ)
    (s : String)
    → let bus = run no_handlers calls in
      told r s (post bus.dead sender topic v bus.handlers)
      ≡ one_if
          (entitled topic r s false calls && not (is_dead bus.dead r) && not (is_sender sender r))
unfolding post handlers_of
post-told calls sender topic v r s =
    let bus = run no_handlers calls in
    let posted = told-post_to bus.dead sender topic v (handlers_of topic bus.handlers) r s in
    elim (Bool-cases (is_dead bus.dead r)) [
      | inl gone ↦ posted ∙ rw gone (ground arith)
      | inr alive ↦
          let held = run-holds topic r s false no_handlers calls tt alive (nothing topic) in
          posted ∙ rw (alive, held) (ground arith)
    ]
  where
    nothing : (t : String) → holds r s (handlers_of t []) ≡ 0
    nothing t = refl
