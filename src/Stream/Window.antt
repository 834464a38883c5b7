-- ===== src/Stream/Window.antt =====
-- services/stream-processor/src/handlers/gps_handler.py: what a window hands on.
use rideshare_simulation_pla.Prelude.{
  ℕ, suc, ◌+◌, ◌≡◌, refl, ap, ◌∙◌, Option, none, some, List, [], ◌∷◌, map, arith, length, ◌==◌,
  if◌then◌else◌,
}
use rideshare_simulation_pla.Prelude.Dict.{Dict, lookup, insert, values, lookup-insert}
use rideshare_simulation_pla.Stream.{GpsPing, GpsHandler, latest, Channel, routed, handle, flush}

-- What is published of an entity.
unfoldable pub of_entity : ℕ → List (Channel × GpsPing) → List (Channel × GpsPing)
of_entity k [] = []
of_entity k ((c, e) ∷ es) = if e.entity_id == k then (c, e) ∷ of_entity k es else of_entity k es

unfoldable pub handle_all : List (Option GpsPing) → GpsHandler → GpsHandler
unfolding handle
handle_all [] h = h
handle_all (m ∷ ms) h = handle_all ms (handle m h)

-- The last valid ping of an entity, if there is one after `before`.
unfoldable pub last_of :
    ℕ → List (Channel × GpsPing) → List (Option GpsPing) → List (Channel × GpsPing)
last_of k before [] = before
last_of k before (none ∷ ms) = last_of k before ms
last_of k before (some e ∷ ms) = last_of k (if e.entity_id == k then routed e ∷ [] else before) ms

-- A window: no key twice, and every ping stands under its entity.
abbrev IsWindow : Dict GpsPing → Type 0
IsWindow [] = Unit
IsWindow ((k, e) ∷ m) = (e.entity_id ≡ k) × (lookup k m ≡ none) × IsWindow m

published : Dict GpsPing → List (Channel × GpsPing)
published m = map routed (values m)

insert-IsWindow : (e : GpsPing) (m : Dict GpsPing) → IsWindow m → IsWindow (insert e.entity_id e m)
unfolding insert lookup
insert-IsWindow e [] h = (refl, refl, tt)
insert-IsWindow e ((k, x) ∷ m) (p, q, h) =
    ground (arith, p, q, h, insert-IsWindow e m h, lookup-insert k e.entity_id e m)

absent :
    (k : ℕ) (m : Dict GpsPing) → IsWindow m → lookup k m ≡ none → of_entity k (published m) ≡ []
unfolding published values lookup of_entity
absent k [] h n = refl
absent k ((j, x) ∷ m) (p, q, h) n = ground (arith, p, absent k m h)

published-insert :
    (k : ℕ) (e : GpsPing) (m : Dict GpsPing)
    → IsWindow m
    → of_entity k (published (insert e.entity_id e m))
      ≡ (if e.entity_id == k then routed e ∷ [] else of_entity k (published m))
unfolding published values insert of_entity
published-insert k e [] h = ground arith
published-insert k e ((j, x) ∷ m) (p, q, h) =
    ground (arith, p, q, absent j m h q, published-insert k e m h)

handle_latest :
    (e : GpsPing) (h : GpsHandler)
    → h.strategy ≡ latest
    → ((handle (some e) h).strategy ≡ latest)
      × ((handle (some e) h).window_state ≡ insert e.entity_id e h.window_state)
unfolding handle
handle_latest e h s = rw (s, handle) (refl, refl)

handle_all-window :
    (k : ℕ) (ms : List (Option GpsPing)) (h : GpsHandler)
    → h.strategy ≡ latest
    → IsWindow h.window_state
    → of_entity k (published (handle_all ms h).window_state)
      ≡ last_of k (of_entity k (published h.window_state)) ms
unfolding handle_all last_of
handle_all-window k [] h s v = refl
handle_all-window k (none ∷ ms) h s v = handle_all-window k ms h s v
handle_all-window k (some e ∷ ms) h s v =
    let (s', w) = handle_latest e h s in
    handle_all-window k ms (handle (some e) h) s' (rw w (insert-IsWindow e h.window_state v))
    ∙ ap (λ b. last_of k b ms)
        (ap (λ m. of_entity k (published m)) w ∙ published-insert k e h.window_state v)

length-published : (m : Dict GpsPing) → length m ≡ length (published m)
unfolding published values
length-published [] = refl
length-published ((k, e) ∷ m) = ap (λ n. suc n) (length-published m)

-- With the strategy `latest`, after any messages from an empty window a flush publishes for every entity
-- its last valid ping and nothing else of it, on the channel of its type, and nothing of an entity
-- without one. It leaves the window empty and counts what it publishes.
pub flush_lem :
    (ms : List (Option GpsPing)) (h : GpsHandler)
    → h.strategy ≡ latest
    → h.window_state ≡ []
    → ((k : ℕ) → of_entity k (flush (handle_all ms h)).0 ≡ last_of k [] ms)
      × ((flush (handle_all ms h)).1.window_state ≡ [])
      × ((flush (handle_all ms h)).1.messages_emitted
          ≡ (handle_all ms h).messages_emitted + length (flush (handle_all ms h)).0)
unfolding flush published values of_entity
flush_lem ms h s n = (
  λ k. handle_all-window k ms h s (rw n tt) ∙ ap (λ m. last_of k (of_entity k (published m)) ms) n,
  refl,
  ap (λ n. (handle_all ms h).messages_emitted + n)
      (length-published (handle_all ms h).window_state),
)
