-- ===== src/Knowledge/Scan/Bounded.antt =====
-- src-tauri/src/http/handlers/knowledge.rs: the bounds that the walk keeps to.
use mathlib.Core.List.{append-nil, append_assoc}
use hive_manager.Base.{
  ℕ, ◌+◌, ltb, leb, ◌≤◌, ◌<◌, ◌≡◌, refl, sym, subst, ap, ◌∙◌, false, List, [], ◌∷◌, ◌++◌, Text,
  member, length, map, if_both, arith,
}
use hive_manager.Knowledge.{KnowledgeOmissionReason, TruncationReport}
use hive_manager.Knowledge.Scan.{
  max_nodes_limit, max_raw_edges, KnowledgeNode, RawEdge, ParsedSource, SourceRead, parsed,
  too_large, unavailable, SourceFile, Walk, Turn, go, stop, record_in, push_edges, push_node, keep,
  take_read, visit, record_tail, after_turn, walk, started, walk_sources, clamped_cap,
}

-- Each text is none of those before it.
unfoldable pub Fresh : List Text → List Text → Type 0
Fresh before [] = Unit
Fresh before (t ∷ ts) = (member t before ≡ false) × Fresh (before ++ t ∷ []) ts

pub Fresh-push :
    (before ts : List Text) (t : Text)
    → Fresh before ts
    → member t (before ++ ts) ≡ false
    → Fresh before (ts ++ t ∷ [])
unfolding Fresh
Fresh-push before [] t f h = (subst (λ l. member t l ≡ false) (append-nil before) h, tt)
Fresh-push before (x ∷ ts) t (n, f) h = (
  n,
  Fresh-push (before ++ x ∷ []) ts t f
      (subst (λ l. member t l ≡ false) (sym (append_assoc before (x ∷ []) ts)) h),
)

-- The bytes of nodes.
abbrev pub bytes_of : (KnowledgeNode → ℕ) → List KnowledgeNode → ℕ
bytes_of node_bytes [] = 0
bytes_of node_bytes (n ∷ ns) = node_bytes n + bytes_of node_bytes ns

bytes-push :
    (node_bytes : KnowledgeNode → ℕ) (ns : List KnowledgeNode) (n : KnowledgeNode)
    → bytes_of node_bytes (ns ++ n ∷ []) ≡ bytes_of node_bytes ns + node_bytes n
bytes-push node_bytes [] n = omega arith
bytes-push node_bytes (m ∷ ns) n = omega (arith, bytes-push node_bytes ns n)

length-push : {A : Type 0} (xs : List A) (x : A) → length (xs ++ x ∷ []) ≡ length xs + 1
length-push [] x = refl
length-push (y ∷ xs) x = omega (arith, length-push xs x)

ids-push :
    (ns : List KnowledgeNode) (n : KnowledgeNode)
    → map (λ m. m.id) (ns ++ n ∷ []) ≡ map (λ m. m.id) ns ++ n.id ∷ []
ids-push [] n = refl
ids-push (m ∷ ns) n = ap (λ l. m.id ∷ l) (ids-push ns n)

-- What the walk keeps to.
pub record Within (node_bytes : KnowledgeNode → ℕ) (cap budget : ℕ) (w : Walk) : Type 0 where
  pub few_nodes : length w.nodes ≤ cap
  pub few_raw : length w.raw_edges ≤ max_raw_edges
  pub summed : w.graph_item_bytes ≡ bytes_of node_bytes w.nodes
  pub in_budget : w.graph_item_bytes ≤ budget
  pub ids : w.seen_ids ≡ map (λ n. n.id) w.nodes
  pub distinct : Fresh [] w.seen_ids

module _ (node_bytes : KnowledgeNode → ℕ) (cap budget : ℕ) where
  report-Within :
      (report : TruncationReport) (w : Walk)
      → Within node_bytes cap budget w
      → Within node_bytes cap budget (record w { report = report })
  report-Within report w h = record {
    few_nodes = h.few_nodes;
    few_raw = h.few_raw;
    summed = h.summed;
    in_budget = h.in_budget;
    ids = h.ids;
    distinct = h.distinct;
  }

  push_edges-Within :
      (es : List RawEdge) (w : Walk)
      → Within node_bytes cap budget w
      → Within node_bytes cap budget (push_edges es w)
  unfolding push_edges
  push_edges-Within [] w h = h
  push_edges-Within (e ∷ es) w h =
      if_both (Within node_bytes cap budget) (leb max_raw_edges (length w.raw_edges))
        (λ _. report-Within _ w h)
        (λ k.
          push_edges-Within es (record w { raw_edges = w.raw_edges ++ e ∷ [] })
            record {
              few_nodes = h.few_nodes;
              few_raw = ground (arith, k, length-push w.raw_edges e);
              summed = h.summed;
              in_budget = h.in_budget;
              ids = h.ids;
              distinct = h.distinct;
            })

  push_node-Within :
      (p : ParsedSource) (w : Walk)
      → Within node_bytes cap budget w
      → length w.nodes < cap
      → member p.node.id w.seen_ids ≡ false
      → w.graph_item_bytes + node_bytes p.node ≤ budget
      → Within node_bytes cap budget (push_node node_bytes cap budget p w)
  unfolding push_node
  push_node-Within p w h k new small = push_edges-Within p.raw_edges _ record {
    few_nodes = omega (arith, k, length-push w.nodes p.node);
    few_raw = h.few_raw;
    summed = omega (arith, h.summed, bytes-push node_bytes w.nodes p.node);
    in_budget = small;
    ids = ap (λ l. l ++ p.node.id ∷ []) h.ids ∙ sym (ids-push w.nodes p.node);
    distinct = Fresh-push [] w.seen_ids p.node.id h.distinct new;
  }

  -- A turn that keeps to the bounds.
  Keeps : Turn → Type 0
  Keeps (go w) = Within node_bytes cap budget w
  Keeps (stop reason w) = Within node_bytes cap budget w

  keep-Keeps :
      (p : ParsedSource) (w : Walk)
      → Within node_bytes cap budget w
      → length w.nodes < cap
      → Keeps (keep node_bytes cap budget p w)
  unfolding Keeps keep
  keep-Keeps p w h k =
      if_both Keeps (member p.node.id w.seen_ids) (λ _. report-Within _ w h)
        (λ new.
          if_both Keeps (ltb budget (w.graph_item_bytes + node_bytes p.node))
            (λ _. report-Within _ w h)
            (λ small. push_node-Within p w h k new (ground (arith, small))))

  take_read-Keeps :
      (r : SourceRead) (w : Walk)
      → Within node_bytes cap budget w
      → length w.nodes < cap
      → Keeps (take_read node_bytes cap budget r w)
  unfolding Keeps take_read
  take_read-Keeps too_large w h k = h
  take_read-Keeps unavailable w h k = h
  take_read-Keeps (parsed p) w h k = keep-Keeps p w h k

  visit-Keeps :
      (s : SourceFile) (w : Walk)
      → Within node_bytes cap budget w
      → Keeps (visit node_bytes cap budget s w)
  unfolding visit Keeps
  visit-Keeps s w h =
      if_both Keeps (leb cap (length w.nodes)) (λ _. report-Within _ w h)
        (λ k. take_read-Keeps s.read _ (report-Within _ w h) (ground (arith, k)))

  record_tail-Within :
      (reason : KnowledgeOmissionReason) (rest : List SourceFile) (w : Walk)
      → Within node_bytes cap budget w
      → Within node_bytes cap budget (record_tail node_bytes cap budget reason rest w)
  unfolding record_tail
  record_tail-Within reason [] w h = h
  record_tail-Within reason (s ∷ rest) w h =
      record_tail-Within reason rest (record_in reason s.node_id w) (report-Within _ w h)

  after_turn-Within :
      (rest : List SourceFile) (t : Turn) (continue : Walk → Walk)
      → Keeps t
      → ((w : Walk) → Within node_bytes cap budget w → Within node_bytes cap budget (continue w))
      → Within node_bytes cap budget (after_turn node_bytes cap budget rest continue t)
  unfolding Keeps after_turn
  after_turn-Within rest (go w) continue h k = k w h
  after_turn-Within rest (stop reason w) continue h k = record_tail-Within reason rest w h

  walk-Within :
      (sources : List SourceFile) (w : Walk)
      → Within node_bytes cap budget w
      → Within node_bytes cap budget (walk node_bytes cap budget sources w)
  unfolding walk
  walk-Within [] w h = h
  walk-Within (s ∷ rest) w h =
      after_turn-Within rest (visit node_bytes cap budget s w) (walk node_bytes cap budget rest)
        (visit-Keeps s w h) (walk-Within rest)

-- Whatever the files hold, the walk shows at most as many nodes as the request's cap, which is
-- between 1 and the limit of 5000, their bytes fit the budget, no two nodes have one id, and no more
-- than the limit of link candidates is kept.
pub walk_sources-Within :
    (node_bytes : KnowledgeNode → ℕ) (max_nodes budget : ℕ) (sources : List SourceFile)
    (report : TruncationReport)
    → Within node_bytes
        (clamped_cap max_nodes)
        budget
        (walk_sources node_bytes max_nodes budget sources report)
      × (1 ≤ clamped_cap max_nodes)
      × (clamped_cap max_nodes ≤ max_nodes_limit)
unfolding walk_sources Fresh
walk_sources-Within node_bytes max_nodes budget sources report = (
  walk-Within node_bytes (clamped_cap max_nodes) budget sources (started report) record {
    few_nodes = omega arith;
    few_raw = omega arith;
    summed = refl;
    in_budget = omega arith;
    ids = refl;
    distinct = tt;
  },
  omega arith,
  omega arith,
)
