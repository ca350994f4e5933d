-- ===== src/Session/Cells/Members.antt =====
-- The cells of a session and the agents in them: every agent is in one cell, and the cache of the
-- computed cell ids does not change who is in a cell.
use hive_manager.Base.{
  ◌+◌, ◌≡◌, refl, ap, ◌∙◌, Bool, true, false, not, ◌||◌, Option, none, some, List, [], ◌∷◌, ◌++◌,
  map, Text, text_eq, text_eq_iff, member, count_where, is_nil, select, if◌then◌else◌, Bool-cases,
  Option-cases, inl, inr, arith,
}
use hive_manager.Session.{AgentRole, fusion_agent, AgentInfo, Session}
use hive_manager.Session.Cells.{
  variant_to_cell_id, primary_cell_id, resolver_cell_id, first_of_each, variants_of, cell_ids_of,
  session_cell_ids, is_fusion_agent, Cache, cached, variant_matches, role_matches,
  fusion_agent_matches_cell, in_cell, agent_in_cell_with_variant_cache, agent_in_cell,
}
use hive_manager.Session.Cells.Aggregate.{cell_agents, variant_cell}

count-append :
    (p : Text → Bool) (xs ys : List Text)
    → count_where p (xs ++ ys) ≡ count_where p xs + count_where p ys
count-append p [] ys = omega arith
count-append p (x ∷ xs) ys = ground (arith, count-append p xs ys)

member-eq : (x y : Text) (seen : List Text) → text_eq x y ≡ true → member x seen ≡ member y seen
member-eq x y seen h = ap (λ t. member t seen) ((text_eq_iff x y).0 h)

count-first_of_each :
    (x : Text) (seen xs : List Text)
    → count_where (text_eq x) (first_of_each seen xs)
      ≡ (if member x seen then 0 else if member x xs then 1 else 0)
count-first_of_each x seen [] = ground arith
count-first_of_each x seen (y ∷ ys) = elim (Bool-cases (member y seen)) [
  | inl old ↦ ground (arith, member-eq x y seen, count-first_of_each x seen ys)
  | inr new ↦ ground (arith, member-eq x y seen, count-first_of_each x (y ∷ seen) ys)
]

count-agree :
    (p q : Text → Bool) (f : Text → Text) (seen vs : List Text)
    → ((v : Text) → p (f v) ≡ q (f v))
    → count_where p (first_of_each seen (map f vs)) ≡ count_where q (first_of_each seen (map f vs))
count-agree p q f seen [] k = refl
count-agree p q f seen (v ∷ vs) k = elim (Bool-cases (member (f v) seen)) [
  | inl old ↦ ground (arith, k v, count-agree p q f seen vs k)
  | inr new ↦ ground (arith, k v, count-agree p q f (f v ∷ seen) vs k)
]

count-none : (xs : List Text) → count_where (λ x. false) xs ≡ 0
count-none [] = refl
count-none (x ∷ xs) = count-none xs

member-map :
    (f : Text → Text) (x : Text) (vs : List Text)
    → member x vs ≡ true
    → member (f x) (map f vs) ≡ true
member-map f x [] h = cc
member-map f x (v ∷ vs) h =
    ground (arith, member-map f x vs, text_eq_iff x v, text_eq_iff (f x) (f v))

variant_not_resolver : (v : Text) → text_eq (variant_to_cell_id v) resolver_cell_id ≡ false
unfolding variant_to_cell_id
variant_not_resolver v = refl

variant_not_primary : (v : Text) → text_eq (variant_to_cell_id v) primary_cell_id ≡ false
unfolding variant_to_cell_id
variant_not_primary v = refl

-- A Fusion or Debate session knows the variants of its variant agents.
abbrev pub knows : Option (List Text) → AgentRole → Bool
knows none role = true
knows (some variants) (fusion_agent variant) = is_nil variants || member variant variants
knows (some variants) _ = true

-- Who is in a variant's cell, and in the resolver's.
in_variant_cell :
    (v w : Text) (vs : List Text) (a : AgentInfo) (role : AgentRole)
    → a.role ≡ role
    → (in_cell (some (w ∷ vs)) (variant_to_cell_id v) a none).0
      ≡ (if is_fusion_agent role then text_eq (variant_cell role) (variant_to_cell_id v) else false)
unfolding in_cell fusion_agent_matches_cell variant_to_cell_id
in_variant_cell v w vs a (fusion_agent x) e = rw e refl
in_variant_cell v w vs a _ e = rw e refl

in_resolver_cell :
    (w : Text) (vs : List Text) (a : AgentInfo)
    → (in_cell (some (w ∷ vs)) resolver_cell_id a none).0 ≡ not (is_fusion_agent a.role)
unfolding in_cell
in_resolver_cell w vs a = refl

variant_count :
    (x w : Text) (vs : List Text)
    → member x (w ∷ vs) ≡ true
    → count_where
        (text_eq (variant_to_cell_id x))
        (first_of_each [] (map variant_to_cell_id (w ∷ vs)))
      ≡ 1
variant_count x w vs k =
    let ids = map variant_to_cell_id (w ∷ vs) in
    ground (
      arith,
      count-first_of_each (variant_to_cell_id x) [] ids,
      member-map variant_to_cell_id x (w ∷ vs) k,
    )

-- The number of cells with an agent is that of its variant's cell, and one for the resolver's.
split_count :
    (w : Text) (vs : List Text) (a : AgentInfo) (q : Text → Bool)
    → ((v : Text)
        → (in_cell (some (w ∷ vs)) (variant_to_cell_id v) a none).0 ≡ q (variant_to_cell_id v))
    → count_where (λ id. (in_cell (some (w ∷ vs)) id a none).0) (cell_ids_of (some (w ∷ vs)))
      ≡ count_where q (first_of_each [] (map variant_to_cell_id (w ∷ vs)))
        + (if is_fusion_agent a.role then 0 else 1)
split_count w vs a q k =
    let ids = first_of_each [] (map variant_to_cell_id (w ∷ vs)) in
    let p : Text → Bool = λ id. (in_cell (some (w ∷ vs)) id a none).0 in
    ground (
      arith,
      count-append p ids (resolver_cell_id ∷ []),
      count-agree p q variant_to_cell_id [] (w ∷ vs) k,
      in_resolver_cell w vs a,
    )

count_of_role :
    (w : Text) (vs : List Text) (a : AgentInfo) (role : AgentRole)
    → a.role ≡ role
    → knows (some (w ∷ vs)) role ≡ true
    → count_where (λ id. (in_cell (some (w ∷ vs)) id a none).0) (cell_ids_of (some (w ∷ vs))) ≡ 1
count_of_role w vs a (fusion_agent x) e k =
    split_count w vs a (text_eq (variant_to_cell_id x))
      (λ v. in_variant_cell v w vs a (fusion_agent x) e)
    ∙ rw (e, variant_count x w vs k) refl
count_of_role w vs a role e k =
    let ids = first_of_each [] (map variant_to_cell_id (w ∷ vs)) in
    split_count w vs a (λ id. false) (λ v. in_variant_cell v w vs a role e)
    ∙ rw (e, count-none ids) refl

count_of_type :
    (vs : Option (List Text)) (a : AgentInfo)
    → knows vs a.role ≡ true
    → count_where (λ id. (in_cell vs id a none).0) (cell_ids_of vs) ≡ 1
count_of_type none a k = unfold in_cell in refl
count_of_type (some []) a k = unfold in_cell in refl
count_of_type (some (w ∷ vs)) a k = count_of_role w vs a a.role refl k

-- Every agent is in exactly one of the cells of its session, if its variant, where it is a variant
-- agent of a session with variants, is one of the session's.
pub one_cell :
    (session : Session) (agent : AgentInfo)
    → knows (variants_of session.session_type) agent.role ≡ true
    → count_where (λ id. agent_in_cell session id agent) (session_cell_ids session) ≡ 1
unfolding agent_in_cell agent_in_cell_with_variant_cache session_cell_ids
one_cell session agent k = count_of_type (variants_of session.session_type) agent k

-- A cache whose entries are right.
abbrev pub IsRight : Cache → Type 0
IsRight none = Unit
IsRight (some cache) = (v id : Text) → cached v cache ≡ some id → id ≡ variant_to_cell_id v

grow-IsRight :
    (v : Text) (cache : List (Text × Text))
    → IsRight (some cache)
    → IsRight (some ((v, variant_to_cell_id v) ∷ cache))
grow-IsRight v cache r w id e = elim (Bool-cases (text_eq w v)) [
  | inl same ↦ ground (arith, ap variant_to_cell_id ((text_eq_iff w v).0 same))
  | inr other ↦ ground (arith, r w id)
]

variant_matches-eq :
    (cell_id v : Text) (cache : Cache)
    → IsRight cache
    → ((variant_matches cell_id v cache).0 ≡ text_eq (variant_to_cell_id v) cell_id)
      × IsRight (variant_matches cell_id v cache).1
variant_matches-eq cell_id v none r = (refl, tt)
variant_matches-eq cell_id v (some cache) r = elim (Option-cases (cached v cache)) [
  | inl miss ↦ rw (variant_matches, miss) (refl, grow-IsRight v cache r)
  | inr (id, hit) ↦ rw (variant_matches, hit) (ap (λ x. text_eq x cell_id) (r v id hit), r)
]

role_matches-eq :
    (cell_id : Text) (role : AgentRole) (cache : Cache)
    → IsRight cache
    → ((role_matches cell_id role cache).0 ≡ (role_matches cell_id role none).0)
      × IsRight (role_matches cell_id role cache).1
role_matches-eq cell_id (fusion_agent v) cache r = variant_matches-eq cell_id v cache r
role_matches-eq cell_id _ cache r = (refl, r)

in_cell-eq :
    (vs : Option (List Text)) (cell_id : Text) (a : AgentInfo) (cache : Cache)
    → IsRight cache
    → ((in_cell vs cell_id a cache).0 ≡ (in_cell vs cell_id a none).0)
      × IsRight (in_cell vs cell_id a cache).1
unfolding in_cell fusion_agent_matches_cell
in_cell-eq none cell_id a cache r = (refl, r)
in_cell-eq (some vs) cell_id a cache r = elim (Bool-cases (text_eq cell_id resolver_cell_id)) [
  | inl res ↦ rw res (refl, r)
  | inr not_res ↦ elim (Bool-cases (text_eq cell_id primary_cell_id)) [
    | inl prim ↦ elim (Bool-cases (is_nil vs)) [
      | inl e ↦ rw (not_res, prim, e) (refl, r)
      | inr e ↦ rw (not_res, prim, e) (refl, r)
    ]
    | inr not_prim ↦ rw (not_res, not_prim) (role_matches-eq cell_id a.role cache r)
  ]
]

cell_agents-eq :
    (session : Session) (cell_id : Text) (as_ : List AgentInfo) (cache : Cache)
    → IsRight cache
    → cell_agents session cell_id as_ cache ≡ select (agent_in_cell session cell_id) as_
unfolding cell_agents agent_in_cell agent_in_cell_with_variant_cache
cell_agents-eq session cell_id [] cache r = refl
cell_agents-eq session cell_id (a ∷ as_) cache r =
    let looked = in_cell-eq (variants_of session.session_type) cell_id a cache r in
    rw (looked.0, cell_agents-eq session cell_id as_ _ looked.1) refl

-- The cache of computed cell ids, carried from agent to agent and empty at first, does not change
-- which agents of a session are in a cell.
pub cached_agents_lem :
    (session : Session) (cell_id : Text)
    → cell_agents session cell_id session.agents (some [])
      ≡ select (agent_in_cell session cell_id) session.agents
cached_agents_lem session cell_id =
    cell_agents-eq session cell_id session.agents (some []) (λ v id e. cc)
