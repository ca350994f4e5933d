-- ===== src/Injection/Followed.antt =====
-- src-tauri/src/coordination/injection.rs: the order of a message's effects, and who has none. A step that fails has no effect.
use mathlib.Core.List.{append-nil, append_assoc}
use hive_manager.Base.{
  true-false, false-true, ◌≡◌, refl, sym, ap, ◌∙◌, Bool, true, false, not, ◌&&◌, Option, none, some,
  List, [], ◌∷◌, ◌++◌, Text, All, map, if_both, if◌then◌else◌,
}
use hive_manager.Injection.{
  CoordinationMessage, InjectionError, not_authorized, pty_error, storage_error, PeerMessage,
  Effect, logged, delivered, peer_written, shown, Outcomes, Outcome, is_qa_worker_id,
  is_queen_worker_id, is_queen_id, is_evaluator_id, with_enter, attempt, show, peer_then, send,
}
use hive_manager.Injection.Handlers.{
  queen_message, queen_peer, queen_inject, evaluator_message, evaluator_peer, evaluator_inject,
}

-- A step of a plan: the error of its call, if it fails, and its effect.
abbrev pub Step : Type 0
Step = Option InjectionError × Effect

-- All steps of a plan were done without an error, or the first that was not done failed with it.
abbrev pub Ended : Option InjectionError → List Step → Type 0
Ended none rest = rest ≡ []
Ended (some e) [] = some e ≡ none
Ended (some e) (s ∷ rest) = s.0 ≡ some e

-- The effects are those of the steps before the first that fails, whose error is returned; without
-- one all steps are done.
pub record Follows (plan : List Step) (before : List Effect) (r : Outcome) : Type 0 where
  pub did : List Step
  pub rest : List Step
  pub planned : plan ≡ did ++ rest
  pub fine : All (λ s. s.0 ≡ none) did
  pub effects : r.1 ≡ before ++ map (λ s. s.1) did
  pub ended : Ended r.0 rest

abbrev pub step : Bool → InjectionError → Effect → Step
step ok e x = (if ok then none else some e, x)

attempt-Follows :
    (b : Bool) (e : InjectionError) (x : Effect) (continue : List Effect → Outcome)
    (plan : List Step) (w : List Effect)
    → ((v : List Effect) → Follows plan v (continue v))
    → Follows (step b e x ∷ plan) w (attempt b e x continue w)
attempt-Follows true e x continue plan w k =
    let next = k (w ++ x ∷ []) in
    record {
      did = (none, x) ∷ next.did;
      rest = next.rest;
      planned = ap (λ l. (none, x) ∷ l) next.planned;
      fine = (refl, next.fine);
      effects = next.effects ∙ append_assoc w (x ∷ []) (map (λ s. s.1) next.did);
      ended = next.ended;
    }
attempt-Follows false e x continue plan w k = record {
  did = [];
  rest = (some e, x) ∷ plan;
  planned = refl;
  fine = tt;
  effects = sym (append-nil w);
  ended = refl;
}

abbrev pub shown_plan : Bool → CoordinationMessage → List Step
shown_plan has_window m = if has_window then (none, shown m) ∷ [] else []

show-Follows :
    (o : Outcomes) (m : CoordinationMessage) (w : List Effect)
    → Follows (shown_plan o.has_window m) w (show o m w)
show-Follows o m w = record {
  did = shown_plan o.has_window m;
  rest = [];
  planned = sym (append-nil (shown_plan o.has_window m));
  fine = if_both (λ p. All (λ s. s.0 ≡ none) p) o.has_window (λ _. (refl, tt)) (λ _. tt);
  effects = window o.has_window;
  ended = refl;
}
  where
    window :
        (b : Bool) → (if b then w ++ shown m ∷ [] else w) ≡ w ++ map (λ s. s.1) (shown_plan b m)
    window true = refl
    window false = sym (append-nil w)

abbrev pub peer_plan : Bool → Text → Option PeerMessage → List Step → List Step
peer_plan peer_ok session_id none rest = rest
peer_plan peer_ok session_id (some p) rest =
    step peer_ok storage_error (peer_written session_id p) ∷ rest

peer_then-Follows :
    (o : Outcomes) (session_id : Text) (peer : Option PeerMessage) (m : CoordinationMessage)
    (w : List Effect)
    → Follows
        (peer_plan o.peer_ok session_id peer (shown_plan o.has_window m))
        w
        (peer_then o session_id peer m w)
peer_then-Follows o session_id none m w = show-Follows o m w
peer_then-Follows o session_id (some p) m w =
    attempt-Follows o.peer_ok storage_error (peer_written session_id p) (show o m)
      (shown_plan o.has_window m) w (show-Follows o m)

-- What a message is to do: the log, the terminal, the file for the watcher, the window.
unfoldable pub plan_of :
    Outcomes → Text → Text → Text → CoordinationMessage → Option PeerMessage → List Step
unfolding with_enter
plan_of o session_id target content m peer =
    step o.log_ok storage_error (logged session_id m)
    ∷ step o.pty_ok pty_error (delivered target (with_enter content))
    ∷ peer_plan o.peer_ok session_id peer (shown_plan o.has_window m)

send-Follows :
    (o : Outcomes) (session_id target content : Text) (m : CoordinationMessage)
    (peer : Option PeerMessage) (w : List Effect)
    → Follows
        (plan_of o session_id target content m peer)
        w
        (send o session_id target content m peer w)
unfolding send plan_of
send-Follows o session_id target content m peer w =
    attempt-Follows o.log_ok storage_error (logged session_id m) _ _ w (λ v.
      attempt-Follows o.pty_ok pty_error (delivered target (with_enter content)) _ _ v
        (peer_then-Follows o session_id peer m))

unfoldable pub queen_may : Text → Text → Bool
queen_may queen_id target = is_queen_id queen_id && not (is_qa_worker_id target)

unfoldable pub evaluator_may : Text → Text → Bool
evaluator_may evaluator_id target =
    is_evaluator_id evaluator_id
    && not (is_queen_worker_id target)
    && not (not (is_queen_id target) && not (is_qa_worker_id target))

-- Two and three guards before what is done.
guarded_by_two :
    (P : Outcome → Type 0) (a b : Bool) (bad good : Outcome)
    → P good
    → (a && not b ≡ false → (if not a then bad else if b then bad else good) ≡ bad)
      × (a && not b ≡ true → P (if not a then bad else if b then bad else good))
guarded_by_two P false b bad good p = (λ _. refl, λ h. elim (false-true h) [ ])
guarded_by_two P true true bad good p = (λ _. refl, λ h. elim (false-true h) [ ])
guarded_by_two P true false bad good p = (λ h. elim (true-false h) [ ], λ _. p)

guarded_by_three :
    (P : Outcome → Type 0) (a b c : Bool) (bad good : Outcome)
    → P good
    → (a && not b && not c ≡ false
        → (if not a then bad else if b then bad else if c then bad else good) ≡ bad)
      × (a && not b && not c ≡ true
          → P (if not a then bad else if b then bad else if c then bad else good))
guarded_by_three P false b c bad good p = (λ _. refl, λ h. elim (false-true h) [ ])
guarded_by_three P true true c bad good p = (λ _. refl, λ h. elim (false-true h) [ ])
guarded_by_three P true false true bad good p = (λ _. refl, λ h. elim (false-true h) [ ])
guarded_by_three P true false false bad good p = (λ h. elim (true-false h) [ ], λ _. p)

-- A message of the Queen to a QA worker, or of anyone else in her name, has no effect and is
-- refused. Any other is logged, then delivered, then, to an evaluator, written for the watcher, then
-- shown if there is a window: the effects are those of the steps before the first whose call fails,
-- the error is that of this call, and if none fails there is no error and all steps are done.
pub queen_inject-Follows :
    (o : Outcomes) (session_id queen_id target content : Text) (w : List Effect)
    → (queen_may queen_id target ≡ false
        → queen_inject o session_id queen_id target content w ≡ (some not_authorized, w))
      × (queen_may queen_id target ≡ true
          → Follows
              (plan_of o session_id target content
                (queen_message queen_id target content)
                (queen_peer queen_id target content))
              w
              (queen_inject o session_id queen_id target content w))
unfolding queen_inject queen_may
queen_inject-Follows o session_id queen_id target content w =
    let m = queen_message queen_id target content in
    let peer = queen_peer queen_id target content in
    guarded_by_two (Follows (plan_of o session_id target content m peer) w) (is_queen_id queen_id)
      (is_qa_worker_id target) (some not_authorized, w) (send o session_id target content m peer w)
      (send-Follows o session_id target content m peer w)

-- A message of the evaluator to a worker of the Queen, or to another agent that is neither the Queen
-- nor a QA worker, or of anyone else in its name, has no effect and is refused. Any other is
-- logged, then delivered, then written for the watcher, then shown if there is a window: the
-- effects are those of the steps before the first whose call fails, the error is that of this call,
-- and if none fails there is no error and all steps are done.
pub evaluator_inject-Follows :
    (o : Outcomes) (session_id evaluator_id target content : Text) (w : List Effect)
    → (evaluator_may evaluator_id target ≡ false
        → evaluator_inject o session_id evaluator_id target content w ≡ (some not_authorized, w))
      × (evaluator_may evaluator_id target ≡ true
          → Follows
              (plan_of o session_id target content
                (evaluator_message evaluator_id target content)
                (evaluator_peer evaluator_id target content))
              w
              (evaluator_inject o session_id evaluator_id target content w))
unfolding evaluator_inject evaluator_may
evaluator_inject-Follows o session_id evaluator_id target content w =
    let m = evaluator_message evaluator_id target content in
    let peer = evaluator_peer evaluator_id target content in
    guarded_by_three (Follows (plan_of o session_id target content m peer) w)
      (is_evaluator_id evaluator_id) (is_queen_worker_id target)
      (not (is_queen_id target) && not (is_qa_worker_id target)) (some not_authorized, w)
      (send o session_id target content m peer w)
      (send-Follows o session_id target content m peer w)
