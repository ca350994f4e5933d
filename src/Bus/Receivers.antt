-- ===== src/Bus/Receivers.antt =====
-- src-tauri/src/events/bus.rs: what a filtered receiver gets.
use hive_manager.Base.{
  ℕ, zero, suc, ◌≡◌, ◌≤◌, refl, ap, ◌∙◌, inl, inr, ◌⊎◌, true, false, Option, none, some, List, [],
  ◌∷◌, Bool-cases, map, length, select, arith,
}
use hive_manager.Events.{Event}
use hive_manager.Bus.{RecvError, EventFilter, matches, recv}

abbrev pub Stream : Type 0
Stream = List (RecvError ⊎ Event)

abbrev pub collect : Option ((RecvError ⊎ Event) × Stream) → (Stream → List Event) → List Event
collect none k = []
collect (some (inl e, rest)) k = []
collect (some (inr event, rest)) k = event ∷ k rest

-- `recv` again and again until it waits or fails; the fuel bounds how often.
unfoldable pub drain : ℕ → EventFilter → Stream → List Event
unfolding recv
drain zero filter stream = []
drain (suc fuel) filter stream = collect (recv filter stream) (drain fuel filter)

drain-skip :
    (fuel : ℕ) (f : EventFilter) (e : Event) (rest : Stream)
    → matches f e ≡ false
    → drain fuel f (inr e ∷ rest) ≡ drain fuel f rest
unfolding drain recv
drain-skip zero f e rest h = refl
drain-skip (suc fuel) f e rest h = rw h refl

drain-take :
    (fuel : ℕ) (f : EventFilter) (e : Event) (rest : Stream)
    → matches f e ≡ true
    → drain (suc fuel) f (inr e ∷ rest) ≡ e ∷ drain fuel f rest
unfolding drain recv
drain-take fuel f e rest h = rw h refl

drain-none : (fuel : ℕ) (f : EventFilter) → drain fuel f [] ≡ []
unfolding drain recv
drain-none zero f = refl
drain-none (suc fuel) f = refl

-- A receiver that is not lagging and keeps receiving gets exactly the events that match its
-- filter, in order; receiving as often as there are events is enough.
pub drain_lem :
    (events : List Event) (filter : EventFilter) (fuel : ℕ)
    → length events ≤ fuel
    → drain fuel filter (map inr events) ≡ select (matches filter) events
drain_lem [] filter fuel h = drain-none fuel filter
drain_lem (e ∷ events) filter zero h = elim h [ ]
drain_lem (e ∷ events) filter (suc fuel) h = elim (Bool-cases (matches filter e)) [
  | inl y ↦ rw y (
      drain-take fuel filter e (map inr events) y
      ∙ ap (λ r. e ∷ r) (drain_lem events filter fuel (omega (arith, h))))
  | inr n ↦ rw n (
      drain-skip (suc fuel) filter e (map inr events) n
      ∙ drain_lem events filter (suc fuel) (omega (arith, h)))
]
