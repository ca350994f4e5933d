-- ===== src/Session/Cells/Statuses.antt =====
-- The status of a cell, by its agents.
use hive_manager.Base.{
  ◌≡◌, ◌≢◌, refl, ap, ◌∙◌, Bool, true, false, not, ◌&&◌, List, [], ◌∷◌, map, Text, any, all, is_nil,
  select, if◌then◌else◌, arith,
}
use hive_manager.Session.{
  SessionState, AgentStatus, agent_error, agent_completed, waiting_for_input, agent_starting,
  agent_running, agent_idle, AgentInfo, Session, CellStatus, cell_queued, cell_launching,
  cell_running, cell_completed, cell_waiting_input, cell_failed,
}
use hive_manager.Session.Cells.{agent_in_cell}
use hive_manager.Session.Cells.Aggregate.{
  session_state_to_cell_status, is_settled_session_state, is_closing, agent_status_to_cell_status,
  is_variant_scoped_cell, combine, status_eq, rank, aggregate_cell_status_for_state,
}
use hive_manager.Session.Cells.Members.{cached_agents_lem}

abbrev pub error_status : AgentStatus → Bool
error_status (agent_error _) = true
error_status _ = false

abbrev pub completed_status : AgentStatus → Bool
completed_status agent_completed = true
completed_status _ = false

-- The session states in which the agents decide.
abbrev pub is_open : SessionState → Bool
is_open state = not (is_closing state) && not (is_settled_session_state state)

-- What an agent makes of the cell's status.
abbrev pub shown : AgentInfo → CellStatus
shown a = agent_status_to_cell_status a.status

error_shown :
    (st : AgentStatus) → status_eq cell_failed (agent_status_to_cell_status st) ≡ error_status st
unfolding agent_status_to_cell_status
error_shown agent_starting = refl
error_shown agent_running = refl
error_shown agent_idle = refl
error_shown (waiting_for_input _) = refl
error_shown agent_completed = refl
error_shown (agent_error _) = refl

completed_shown :
    (st : AgentStatus)
    → status_eq cell_completed (agent_status_to_cell_status st) ≡ completed_status st
unfolding agent_status_to_cell_status
completed_shown agent_starting = refl
completed_shown agent_running = refl
completed_shown agent_idle = refl
completed_shown (waiting_for_input _) = refl
completed_shown agent_completed = refl
completed_shown (agent_error _) = refl

any-shown :
    (p : CellStatus → Bool) (q : AgentInfo → Bool) (as_ : List AgentInfo)
    → ((a : AgentInfo) → p (shown a) ≡ q a)
    → any p (map shown as_) ≡ any q as_
any-shown p q [] k = refl
any-shown p q (a ∷ as_) k = ground (arith, k a, any-shown p q as_ k)

all-shown :
    (p : CellStatus → Bool) (q : AgentInfo → Bool) (as_ : List AgentInfo)
    → ((a : AgentInfo) → p (shown a) ≡ q a)
    → all p (map shown as_) ≡ all q as_
all-shown p q [] k = refl
all-shown p q (a ∷ as_) k = ground (arith, k a, all-shown p q as_ k)

-- An open session's own status is none of those that only its agents can bring about.
open_status :
    (state : SessionState)
    → is_open state ≡ true
    → (status_eq cell_failed (session_state_to_cell_status state) ≡ false)
      × (status_eq cell_completed (session_state_to_cell_status state) ≡ false)
unfolding is_settled_session_state session_state_to_cell_status
open_status state h = ground arith

all_excludes :
    (p : CellStatus → Bool) (statuses : List CellStatus)
    → ((c : CellStatus) → status_eq cell_completed c ≡ true → p c ≡ false)
    → all (status_eq cell_completed) statuses ≡ true
    → any p statuses ≡ false
all_excludes p [] k h = refl
all_excludes p (c ∷ cs) k h = ground (arith, k c, all_excludes p cs k)

excluded :
    (r : CellStatus)
    → rank r ≢ 5
    → (c : CellStatus) → status_eq cell_completed c ≡ true
    → status_eq r c ≡ false
excluded r n c h = ground arith

-- The chain of tests over the answers of its tests.
chain_lem :
    (b1 b2 b3 b4 b5 b6 : Bool) (otherwise : CellStatus)
    → status_eq cell_failed otherwise ≡ false
    → status_eq cell_completed otherwise ≡ false
    → (b5 ≡ true → (b1 ≡ false) × (b2 ≡ false) × (b3 ≡ false) × (b4 ≡ false))
    → let chosen =
        if b1
        then cell_failed
        else if b2
        then cell_waiting_input
        else if b3
        then cell_launching
        else if b4
        then cell_running
        else if b5
        then cell_completed
        else if b6
        then cell_queued
        else otherwise in
      (status_eq cell_failed chosen ≡ b1) × (status_eq cell_completed chosen ≡ b5)
chain_lem true b2 b3 b4 true b6 o f c k = ground (arith, k refl)
chain_lem true b2 b3 b4 false b6 o f c k = (refl, refl)
chain_lem false b2 b3 b4 true b6 o f c k = ground (arith, k refl)
chain_lem false true b3 b4 false b6 o f c k = (refl, refl)
chain_lem false false true b4 false b6 o f c k = (refl, refl)
chain_lem false false false true false b6 o f c k = (refl, refl)
chain_lem false false false false false true o f c k = (refl, refl)
chain_lem false false false false false false o f c k = (f, c)

combine_lem :
    (statuses : List CellStatus) (scoped : Bool) (otherwise : CellStatus)
    → status_eq cell_failed otherwise ≡ false
    → status_eq cell_completed otherwise ≡ false
    → (status_eq cell_failed (combine statuses scoped otherwise)
        ≡ any (status_eq cell_failed) statuses)
      × (status_eq cell_completed (combine statuses scoped otherwise)
          ≡ (not (is_nil statuses) && all (status_eq cell_completed) statuses))
combine_lem statuses scoped otherwise f c =
    chain_lem _ _ _ _ (not (is_nil statuses) && all (status_eq cell_completed) statuses) _ otherwise
      f c
      λ h.
        let every : all (status_eq cell_completed) statuses ≡ true = ground arith in
        (
          all_excludes _ statuses (excluded cell_failed (λ e. omega arith)) every,
          all_excludes _ statuses (excluded cell_waiting_input (λ e. omega arith)) every,
          all_excludes _ statuses (excluded cell_launching (λ e. omega arith)) every,
          all_excludes _ statuses (excluded cell_running (λ e. omega arith)) every,
        )

is_nil-map : (as_ : List AgentInfo) → is_nil (map shown as_) ≡ is_nil as_
is_nil-map [] = refl
is_nil-map (a ∷ as_) = refl

aggregate-open :
    (session : Session) (cell_id : Text) (state : SessionState)
    → is_open state ≡ true
    → aggregate_cell_status_for_state session cell_id state
      ≡ combine
          (map shown (select (agent_in_cell session cell_id) session.agents))
          (is_variant_scoped_cell session cell_id)
          (session_state_to_cell_status state)
unfolding aggregate_cell_status_for_state
aggregate-open session cell_id state h =
    let not_closing : is_closing state ≡ false = ground arith in
    let not_settled : is_settled_session_state state ≡ false = ground arith in
    rw (not_closing, not_settled, cached_agents_lem session cell_id) refl

-- While a session is neither closing nor settled, a cell has failed exactly if an agent in it is in
-- error, and is completed exactly if it has agents and all of them are completed.
pub aggregate_lem :
    (session : Session) (cell_id : Text) (state : SessionState)
    → is_open state ≡ true
    → let inside = select (agent_in_cell session cell_id) session.agents in
      let status = aggregate_cell_status_for_state session cell_id state in
      (status_eq cell_failed status ≡ any (λ a. error_status a.status) inside)
      × (status_eq cell_completed status
          ≡ (not (is_nil inside) && all (λ a. completed_status a.status) inside))
aggregate_lem session cell_id state h =
    let inside = select (agent_in_cell session cell_id) session.agents in
    let own = open_status state h in
    let both =
      combine_lem (map shown inside) (is_variant_scoped_cell session cell_id)
        (session_state_to_cell_status state) own.0 own.1 in
    let agg = aggregate-open session cell_id state h in
    (
      ap (status_eq cell_failed) agg
          ∙ both.0
          ∙ any-shown (status_eq cell_failed) (λ a. error_status a.status) inside
              (λ a. error_shown a.status),
      ap (status_eq cell_completed) agg
          ∙ both.1
          ∙ rw
              (
                is_nil-map inside,
                all-shown (status_eq cell_completed) (λ a. completed_status a.status) inside
                    (λ a. completed_shown a.status),
              )
              refl,
    )
