-- ===== src/Bus.antt =====
-- src/quick/guidatabus.h and .cpp, `GuiDataBus`: who is told of a topic. An object of Qt is a number; a
-- `QPointer` to it is empty once the object is among the dead, and a number is not given twice. What `post`
-- queues for the receivers is the list of its deliveries.
pub mod Delivery
pub mod Calls
mod Examples
use qml_and_bgfx_testbridge.Prelude.{
  ℕ, Bool, true, false, not, ◌&&◌, ◌||◌, List, [], ◌∷◌, ◌++◌, Option, none, some, String, str_eq,
  ◌==◌, if◌then◌else◌,
}

pub record Handler : Type 0 where
  pub receiver : ℕ
  pub slot : String

pub record Invocation (V : Type 0) : Type 0 where
  pub receiver : ℕ
  pub slot : String
  pub topic : String
  pub payload : V

unfoldable pub is_dead : List ℕ → ℕ → Bool
is_dead [] r = false
is_dead (d ∷ dead) r = d == r || is_dead dead r

-- `m_handlers.value(topic)`: empty without an entry.
abbrev pub Handlers : Type 0
Handlers = List (String × List Handler)

unfoldable pub handlers_of : String → Handlers → List Handler
handlers_of topic [] = []
handlers_of topic ((t, hs) ∷ rest) =
    let later = handlers_of topic rest in if str_eq t topic then hs else later

unfoldable pub post_to :
    {V : Type 0} → List ℕ → Option ℕ → String → V → List Handler → List (Invocation V)
post_to dead sender topic payload [] = []
post_to dead sender topic payload (h ∷ hs) =
    let rest = post_to dead sender topic payload hs in
    let d : Invocation _ = record {
      receiver = h.receiver;
      slot = h.slot;
      topic = topic;
      payload = payload;
    } in
    if is_dead dead h.receiver || is_sender sender h.receiver then rest else d ∷ rest
  where
    is_sender : Option ℕ → ℕ → Bool
    is_sender none r = false
    is_sender (some s) r = r == s

unfoldable pub post : {V : Type 0} → List ℕ → Option ℕ → String → V → Handlers → List (Invocation V)
post dead sender topic payload handlers =
    post_to dead sender topic payload (handlers_of topic handlers)

-- The loop of `registerHandler`.
unfoldable pub is_registered : List ℕ → ℕ → String → List Handler → Bool
is_registered dead receiver slot [] = false
is_registered dead receiver slot (h ∷ hs) =
    (not (is_dead dead h.receiver) && h.receiver == receiver && str_eq h.slot slot)
    || is_registered dead receiver slot hs

unfoldable pub add_handler : List ℕ → ℕ → String → List Handler → List Handler
add_handler dead receiver slot hs =
    if is_registered dead receiver slot hs
    then hs
    else hs ++ record { receiver = receiver; slot = slot } ∷ []

-- `m_handlers[topic]` makes an empty entry where there is none.
unfoldable pub register_at : List ℕ → String → ℕ → String → Handlers → Handlers
register_at dead topic receiver slot [] = (topic, add_handler dead receiver slot []) ∷ []
register_at dead topic receiver slot ((t, hs) ∷ rest) =
    let later = register_at dead topic receiver slot rest in
    if str_eq t topic then (t, add_handler dead receiver slot hs) ∷ rest else (t, hs) ∷ later

unfoldable pub register_handler : List ℕ → String → Option ℕ → Option String → Handlers → Handlers
register_handler dead topic (some receiver) (some slot) handlers =
    register_at dead topic receiver slot handlers
register_handler dead topic (some receiver) none handlers = handlers
register_handler dead topic none slot handlers = handlers

-- The loop of `unregisterHandler`: the dead go too. A null receiver is none of the living.
unfoldable pub remove_handlers : List ℕ → Option ℕ → List Handler → List Handler
remove_handlers dead receiver [] = []
remove_handlers dead receiver (h ∷ hs) =
    let rest = remove_handlers dead receiver hs in
    if is_dead dead h.receiver || is_it receiver h.receiver then rest else h ∷ rest
  where
    is_it : Option ℕ → ℕ → Bool
    is_it none r = false
    is_it (some s) r = r == s

-- An entry that has become empty is erased.
unfoldable pub put_entry : String → List Handler → Handlers → Handlers
put_entry topic [] rest = rest
put_entry topic (h ∷ hs) rest = (topic, h ∷ hs) ∷ rest

unfoldable pub unregister_handler : List ℕ → String → Option ℕ → Handlers → Handlers
unregister_handler dead topic receiver [] = []
unregister_handler dead topic receiver ((t, hs) ∷ rest) =
    let later = unregister_handler dead topic receiver rest in
    if str_eq t topic then put_entry t (remove_handlers dead receiver hs) rest else (t, hs) ∷ later
