-- ===== src/Knowledge/Edges.antt =====
-- src-tauri/src/http/handlers/knowledge.rs: the edges of the graph, from the candidates of the walk.
-- The size of an edge in JSON is a parameter.
pub mod Targets
pub mod Kept
pub mod Graph
use hive_manager.Base.{
  ℕ, ◌+◌, ◌==◌, ltb, leb, Bool, true, false, not, ◌&&◌, ◌||◌, Option, none, some, List, [], ◌∷◌,
  ◌++◌, Text, text_eq, length, if◌then◌else◌,
}
use hive_manager.Knowledge.{
  KnowledgeOmissionReason, edge_cap_reached, response_size_cap_reached, TruncationReport,
  record_omission,
}
use hive_manager.Knowledge.Scan.{
  max_edges, KnowledgeEdgeKind, cross_ref, wikilink, global, related, from, RawEdge,
}
use hive_manager.Knowledge.Lookup.{NodeLookup, resolve_hint}

pub record KnowledgeEdge : Type 0 where
  pub source : Text
  pub target : Text
  pub kind : KnowledgeEdgeKind

abbrev pub kind_position : KnowledgeEdgeKind → ℕ
kind_position cross_ref = 0
kind_position wikilink = 1
kind_position global = 2
kind_position related = 3
kind_position from = 4

abbrev pub edge_eq : KnowledgeEdge → KnowledgeEdge → Bool
edge_eq a b =
    text_eq a.source b.source
    && text_eq a.target b.target
    && kind_position a.kind == kind_position b.kind

abbrev pub has_edge : KnowledgeEdge → List KnowledgeEdge → Bool
has_edge e [] = false
has_edge e (x ∷ xs) = edge_eq e x || has_edge e xs

-- The variables of the loop.
pub record Building : Type 0 where
  pub edges : List KnowledgeEdge
  pub seen : List KnowledgeEdge
  pub item_bytes : ℕ
  pub report : TruncationReport

abbrev pub skip_edge : KnowledgeOmissionReason → Text → Building → Building
skip_edge reason source b = record b { report = record_omission reason (some source) b.report }

module _ (edge_bytes : KnowledgeEdge → ℕ) (max_item_bytes : ℕ) where
  -- An edge that is new.
  unfoldable pub fit_edge : KnowledgeEdge → Building → Building
  fit_edge e b =
      if leb max_edges (length b.edges)
      then skip_edge edge_cap_reached e.source b
      else if ltb max_item_bytes (b.item_bytes + edge_bytes e)
      then skip_edge response_size_cap_reached e.source b
      else record b { edges = b.edges ++ e ∷ []; item_bytes = b.item_bytes + edge_bytes e }

  unfoldable pub add_edge : KnowledgeEdge → Building → Building
  unfolding fit_edge
  add_edge e b =
      if text_eq e.target e.source || has_edge e b.seen
      then b
      else fit_edge e (record b { seen = e ∷ b.seen })

  unfoldable pub add_resolved : RawEdge → Option Text → Building → Building
  unfolding add_edge
  add_resolved raw none b = b
  add_resolved raw (some target) b =
      add_edge record { source = raw.source; target = target; kind = raw.kind } b

  module _ (to_lowercase : Text → Text) (lookup : NodeLookup) where
    unfoldable pub add_raw : List RawEdge → Building → Building
    unfolding add_resolved resolve_hint
    add_raw [] b = b
    add_raw (raw ∷ rest) b =
        add_raw rest (add_resolved raw (resolve_hint to_lowercase raw.target_hint lookup) b)

    unfoldable pub build_edges :
        List RawEdge → TruncationReport → List KnowledgeEdge × TruncationReport
    unfolding add_raw
    build_edges raw_edges report =
        let b =
          add_raw raw_edges record { edges = []; seen = []; item_bytes = 0; report = report } in
        (b.edges, b.report)
