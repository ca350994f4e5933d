-- ===== src/Injection/Broadcast.antt =====
-- src-tauri/src/coordination/injection.rs: messages to several workers.
use hive_manager.Base.{
  codes, Bool-cases, inl, inr, ◌≢◌, ◌≡◌, refl, sym, ap, ◌∙◌, Bool, true, false, Option, none, some,
  List, [], ◌∷◌, ◌++◌, Text, All, map, if◌then◌else◌,
}
use hive_manager.Injection.{InjectionError, not_authorized, pty_error, Effect, Outcomes, Outcome}
use hive_manager.Injection.Handlers.{
  queen_inject, write_to_agent, onto_results, switch_all, and_next, broadcast_to_workers,
}
use hive_manager.Injection.Followed.{queen_may, queen_inject-Follows}

-- The result that a worker's terminal gives.
abbrev pub result_of : (Text → Outcomes) → Text → Option InjectionError
result_of o worker_id = if (o worker_id).pty_ok then none else some pty_error

cons_result :
    (worker_id : Text) (result other : Option InjectionError)
    (r : List (Text × Option InjectionError) × List Effect)
    (tail : List (Text × Option InjectionError))
    → result ≡ other
    → r.0 ≡ tail
    → (onto_results worker_id result r).0 ≡ (worker_id, other) ∷ tail
cons_result worker_id result other (results, w) tail h k = rw (h, k) refl

cons_results :
    (worker_id : Text) (result other : Option InjectionError)
    (continue : List Effect → List (Text × Option InjectionError) × List Effect) (v : List Effect)
    (tail : List (Text × Option InjectionError))
    → result ≡ other
    → ((u : List Effect) → (continue u).0 ≡ tail)
    → (onto_results worker_id result (continue v)).0 ≡ (worker_id, other) ∷ tail
cons_results worker_id result other continue v tail h k =
    cons_result worker_id result other (continue v) tail h (k v)

write_result :
    (b : Bool) (agent_id content : Text) (w : List Effect)
    → (write_to_agent b agent_id content w).0 ≡ (if b then none else some pty_error)
unfolding write_to_agent
write_result true agent_id content w = refl
write_result false agent_id content w = refl

-- A branch switch writes to every worker in order and returns one result for each, the worker's own,
-- however many before it failed.
pub switch_all-results :
    (o : Text → Outcomes) (session_id branch : Text) (worker_ids : List Text) (w : List Effect)
    → (switch_all o session_id worker_ids branch w).0
      ≡ map (λ worker_id. (worker_id, result_of o worker_id)) worker_ids
unfolding switch_all
switch_all-results o session_id branch [] w = refl
switch_all-results o session_id branch (worker_id ∷ rest) w =
    cons_results worker_id _ (result_of o worker_id) (switch_all o session_id rest branch) _
      (map (λ i. (i, result_of o i)) rest)
      (write_result (o worker_id).pty_ok worker_id (3 ∷ codes "git switch " ++ branch) w)
      (switch_all-results o session_id branch rest)

error_remains : (e : InjectionError) → some e ≢ none
error_remains e h = cc

and_next-none :
    (r : Outcome) (continue : List Effect → Outcome)
    → (and_next r continue).0 ≡ none
    → (r.0 ≡ none) × ((continue r.1).0 ≡ none)
and_next-none (none, w) continue h = (refl, h)
and_next-none (some e, w) continue h = elim (error_remains e h) [ ]

allowed :
    (o : Outcomes) (session_id queen_id worker_id content : Text) (w : List Effect)
    → (queen_inject o session_id queen_id worker_id content w).0 ≡ none
    → queen_may queen_id worker_id ≡ true
allowed o session_id queen_id worker_id content w h =
    elim (Bool-cases (queen_may queen_id worker_id)) [
      | inl e ↦ e
      | inr e ↦
          elim (error_remains not_authorized (
            sym (
              ap (λ (r : Outcome). r.0)
                ((queen_inject-Follows o session_id queen_id worker_id content w).0 e))
            ∙ h)) [ ]
    ]

-- A broadcast that reports no error went only to workers that the Queen may write to.
pub broadcast-may :
    (o : Text → Outcomes) (session_id queen_id content : Text) (worker_ids : List Text)
    (w : List Effect)
    → (broadcast_to_workers o session_id queen_id worker_ids content w).0 ≡ none
    → All (λ worker_id. queen_may queen_id worker_id ≡ true) worker_ids
unfolding broadcast_to_workers
broadcast-may o session_id queen_id content [] w h = tt
broadcast-may o session_id queen_id content (worker_id ∷ rest) w h =
    let sent = queen_inject (o worker_id) session_id queen_id worker_id content w in
    let (fine, later) =
      and_next-none sent (broadcast_to_workers o session_id queen_id rest content) h in
    (
      allowed (o worker_id) session_id queen_id worker_id content w fine,
      broadcast-may o session_id queen_id content rest sent.1 later,
    )
