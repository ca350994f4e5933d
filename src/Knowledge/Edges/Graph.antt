-- ===== src/Knowledge/Edges/Graph.antt =====
-- src-tauri/src/http/handlers/knowledge.rs: the edges of the whole graph.
use hive_manager.Base.{
  ℕ, ◌≤◌, ◌≡◌, refl, true, List, [], ◌∷◌, Text, text_eq_iff, member, All, map, length, arith,
}
use hive_manager.Knowledge.{TruncationReport}
use hive_manager.Knowledge.Scan.{max_edges, KnowledgeNode, RawEdge}
use hive_manager.Knowledge.Lookup.{from_nodes}
use hive_manager.Knowledge.Edges.{KnowledgeEdge, build_edges}
use hive_manager.Knowledge.Edges.Targets.{from_nodes-LookupIds}
use hive_manager.Knowledge.Edges.Kept.{FreshEdges, edges_bytes, Joins, add_raw-KeptSo}

-- The id of one of the nodes.
abbrev pub IsPage : List KnowledgeNode → Text → Type 0
IsPage nodes t = member t (map (λ n. n.id) nodes) ≡ true

member-cons : (t x : Text) (ts : List Text) → member t ts ≡ true → member t (x ∷ ts) ≡ true
member-cons t x ts h = ground (arith, h)

All-weaken :
    {A : Type 0} (P Q : A → Type 0) (xs : List A) → ((x : A) → P x → Q x) → All P xs → All Q xs
All-weaken P Q [] k a = tt
All-weaken P Q (x ∷ xs) k (p, a) = (k x p, All-weaken P Q xs k a)

pages-IsPage : (nodes : List KnowledgeNode) → All (λ (n : KnowledgeNode). IsPage nodes n.id) nodes
pages-IsPage [] = tt
pages-IsPage (n ∷ nodes) = (
  ground (arith, (text_eq_iff n.id n.id).1 refl),
  All-weaken (λ (m : KnowledgeNode). IsPage nodes m.id)
      (λ (m : KnowledgeNode). IsPage (n ∷ nodes) m.id) nodes (λ m h. member-cons m.id n.id _ h)
      (pages-IsPage nodes),
)

-- Whatever the hints say, every edge of the graph joins two different pages that are shown, no edge
-- stands there twice, there are at most 20000 of them and their bytes fit the budget: for
-- candidates that come from pages that are shown.
pub build_edges_lem :
    (edge_bytes : KnowledgeEdge → ℕ) (budget : ℕ) (to_lowercase : Text → Text)
    (nodes : List KnowledgeNode) (raws : List RawEdge) (report : TruncationReport)
    → All (λ (r : RawEdge). IsPage nodes r.source) raws
    → All
        (Joins (IsPage nodes))
        (build_edges edge_bytes budget to_lowercase (from_nodes to_lowercase nodes) raws report).0
      × FreshEdges []
          (build_edges edge_bytes budget to_lowercase (from_nodes to_lowercase nodes) raws report).0
      × (length
            (build_edges edge_bytes budget to_lowercase
              (from_nodes to_lowercase nodes)
              raws
              report).0
          ≤ max_edges)
      × (edges_bytes edge_bytes
            (build_edges edge_bytes budget to_lowercase
              (from_nodes to_lowercase nodes)
              raws
              report).0
          ≤ budget)
unfolding build_edges FreshEdges
build_edges_lem edge_bytes budget to_lowercase nodes raws report a =
    let kept =
      add_raw-KeptSo (IsPage nodes) edge_bytes budget to_lowercase (from_nodes to_lowercase nodes)
        raws record { edges = []; seen = []; item_bytes = 0; report = report }
        (from_nodes-LookupIds (IsPage nodes) to_lowercase nodes (pages-IsPage nodes)) a
        record {
          joins = tt;
          few = omega arith;
          summed = refl;
          small = omega arith;
          fresh = tt;
          known = λ e _. refl;
        } in
    (kept.joins, kept.fresh, kept.few, omega (arith, kept.summed, kept.small))
