-- ===== src/Messages/Sharing/Values.antt =====
-- A message that nobody writes to after it was sent may be taken for its bytes.
use volt_net.Common.{
  ℕ, zero, suc, ◌≤◌, ◌≡◌, ◌≢◌, refl, ap, ◌∙◌, length, drop, get_elem?, map, All, Option, none, some,
  List, [], ◌∷◌,
}
use volt_net.Defs.{Message}
use volt_net.NetCon.{Outcome}
use volt_net.NetCon.Writing.{Write, Sending, Event}
use volt_net.Messages.Sharing.{
  MsgVector, Store, Result, runs, throws, set_vector, make_vector, write_onto, BufferWrite,
  SharedSending, SharedEvent, makes, writes, begins, sends, fails,
}

abbrev pub content_of : Option MsgVector → Message
content_of none = []
content_of (some v) = v.content

abbrev pub view_as : Message → ℕ → Write
view_as m sent = record { msg = m; left = drop sent m }

-- An outstanding write with its bytes.
abbrev pub view : Store → BufferWrite → Write
view store w = view_as (content_of (get_elem? store.vectors w.pointer)) w.sent

abbrev pub view_all : SharedSending → Sending
view_all s = record { con = s.con; sent = s.sent; outstanding = map (view s.store) s.outstanding }

-- The vector of an outstanding write is as it was when the write was begun.
abbrev pub Holds : Store → BufferWrite → Type 0
Holds store w =
    (v : MsgVector) × (get_elem? store.vectors w.pointer ≡ some v)
    × (v.storage ≡ w.storage)
    × (length v.content ≡ w.size)
    × (w.sent ≤ w.size)

-- An event that does not write to the vector at an address.
abbrev pub Spares : ℕ → SharedEvent → Type 0
Spares a (writes b bytes) = b ≢ a
Spares a _ = Unit

-- Nothing is written to a vector after it was sent.
abbrev pub Settled : List SharedEvent → Type 0
Settled [] = Unit
Settled (makes capacity ∷ es) = Settled es
Settled (writes a bytes ∷ es) = Settled es
Settled (begins a ∷ es) = All (Spares a) es × Settled es
Settled (sends i n ∷ es) = Settled es
Settled (fails i err ∷ es) = Settled es

-- The events of the connection when messages are the bytes that they hold when they are sent.
unfoldable pub values : (ℕ → ℕ) → List SharedEvent → Store → List Event
values grown [] store = []
values grown (makes capacity ∷ es) store = values grown es (make_vector capacity store)
values grown (writes a bytes ∷ es) store = values grown es (write_onto grown a bytes store)
values grown (begins a ∷ es) store = elim (get_elem? store.vectors a) [
  | none ↦ values grown es store
  | some v ↦ Event.begins v.content ∷ values grown es store
]
values grown (sends i n ∷ es) store = Event.sends i n ∷ values grown es store
values grown (fails i err ∷ es) store = Event.fails i err ∷ values grown es store

-- Both return, with the same connection, or both throw.
abbrev pub Agree : Result SharedSending → Outcome Sending → Type 0
Agree (runs s) (Outcome.ok t) = view_all s ≡ t
Agree (throws x c) (Outcome.throws y d) = (x ≡ y) × (c ≡ d)
Agree _ _ = Unit → ⊥

pub get_elem?-set_vector :
    (vs : List MsgVector) (a b : ℕ) (v : MsgVector)
    → a ≢ b
    → get_elem? (set_vector vs a v) b ≡ get_elem? vs b
get_elem?-set_vector [] a b v h = refl
get_elem?-set_vector (x ∷ xs) zero zero v h = absurd (h refl)
get_elem?-set_vector (x ∷ xs) zero (suc b) v h = refl
get_elem?-set_vector (x ∷ xs) (suc a) zero v h = refl
get_elem?-set_vector (x ∷ xs) (suc a) (suc b) v h =
    get_elem?-set_vector xs a b v (λ e. h (ap suc e))

-- What stays as it is when the store changes elsewhere.
abbrev pub Keeps : Store → Store → BufferWrite → Type 0
Keeps store store' w = get_elem? store'.vectors w.pointer ≡ get_elem? store.vectors w.pointer

module _ (es : List SharedEvent) where
  abbrev pub Safe : Store → BufferWrite → Type 0
  Safe store w = Holds store w × All (Spares w.pointer) es

  pub view-Keeps :
      (store store' : Store) (ws : List BufferWrite)
      → All (Keeps store store') ws
      → map (view store') ws ≡ map (view store) ws
  view-Keeps store store' [] h = refl
  view-Keeps store store' (w ∷ ws) h =
      ap (λ o. view_as (content_of o) w.sent ∷ map (view store') ws) h.0
      ∙ ap (◌∷◌ (view store w)) (view-Keeps store store' ws h.1)

  pub Safe-Keeps :
      (store store' : Store) (ws : List BufferWrite)
      → All (Keeps store store') ws
      → All (Safe store) ws
      → All (Safe store') ws
  Safe-Keeps store store' [] h safe = tt
  Safe-Keeps store store' (w ∷ ws) h safe =
      let ((v, at, same, size, few), quiet) = safe.0 in
      (((v, h.0 ∙ at, same, size, few), quiet), Safe-Keeps store store' ws h.1 safe.1)
