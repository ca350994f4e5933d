-- ===== src/Knowledge/Scan.antt =====
-- src-tauri/src/http/handlers/knowledge.rs: the walk over the sources that were found. What reading
-- a file yields is chosen by the environment; the size of a node in JSON is a parameter.
pub mod Accounted
pub mod Bounded
use hive_manager.Base.{
  ℕ, zero, suc, ◌+◌, ltb, leb, min, max, Bool, true, false, not, Option, none, some, List, [], ◌∷◌,
  ◌++◌, Text, member, length, map, if◌then◌else◌,
}
use hive_manager.Knowledge.{
  KnowledgeOmissionReason, node_cap_reached, response_size_cap_reached, file_too_large,
  file_unreadable, raw_edge_cap_reached, edge_hint_too_long, title_truncated,
  last_updated_truncated, duplicate_id, TruncationReport, record_omission,
}

abbrev pub max_nodes_limit : ℕ
max_nodes_limit = 5000

abbrev pub max_edges : ℕ
max_edges = 20000

abbrev pub max_raw_edges : ℕ
max_raw_edges = 160000

-- A node's path is its id with `.md`, and is left out.
pub record KnowledgeNode : Type 0 where
  pub id : Text
  pub title : Text
  pub folder : Text
  pub last_updated : Text
  pub in_degree : ℕ
  pub out_degree : ℕ

pub data KnowledgeEdgeKind : Type 0 where
  cross_ref wikilink global related from : KnowledgeEdgeKind

pub record RawEdge : Type 0 where
  pub source : Text
  pub target_hint : Text
  pub kind : KnowledgeEdgeKind

-- What a file that was parsed has: its node, whether the title and the date were shortened, the
-- hints that were kept and how many were too long.
pub record ParsedSource : Type 0 where
  pub node : KnowledgeNode
  pub title_cut : Bool
  pub last_updated_cut : Bool
  pub raw_edges : List RawEdge
  pub long_hints : ℕ

pub data SourceRead : Type 0 where
  parsed : ParsedSource → SourceRead
  too_large : SourceRead
  unavailable : SourceRead

-- A source: the id that its path gives, and what reading it yields.
pub record SourceFile : Type 0 where
  pub node_id : Option Text
  pub read : SourceRead

abbrev pub record_if :
    Bool → KnowledgeOmissionReason → Option Text → TruncationReport → TruncationReport
record_if b reason example report = if b then record_omission reason example report else report

unfoldable pub record_times :
    ℕ → KnowledgeOmissionReason → Option Text → TruncationReport → TruncationReport
record_times zero reason example report = report
record_times (suc n) reason example report =
    record_times n reason example (record_omission reason example report)

-- What `read_source` records for a source.
abbrev pub report_parsed : Option Text → ParsedSource → TruncationReport → TruncationReport
unfolding record_times
report_parsed node_id p report = record_times p.long_hints edge_hint_too_long node_id (
    record_if p.last_updated_cut last_updated_truncated node_id
      (record_if p.title_cut title_truncated node_id report))

unfoldable pub read_report : SourceRead → Option Text → TruncationReport → TruncationReport
unfolding report_parsed
read_report too_large node_id report = record_omission file_too_large node_id report
read_report unavailable node_id report = record_omission file_unreadable node_id report
read_report (parsed p) node_id report = report_parsed (some p.node.id) p report

unfoldable pub read_source : SourceFile → TruncationReport → TruncationReport
unfolding read_report
read_source s report = read_report s.read s.node_id report

-- The variables of the walk; the set of ids that were seen is that of the nodes' ids.
pub record Walk : Type 0 where
  pub nodes : List KnowledgeNode
  pub raw_edges : List RawEdge
  pub seen_ids : List Text
  pub graph_item_bytes : ℕ
  pub report : TruncationReport

-- One turn of the loop goes on or breaks, with the reason for what is left.
pub data Turn : Type 0 where
  go : Walk → Turn
  stop : KnowledgeOmissionReason → Walk → Turn

abbrev pub record_in : KnowledgeOmissionReason → Option Text → Walk → Walk
record_in reason example w = record w { report = record_omission reason example w.report }

unfoldable pub push_edges : List RawEdge → Walk → Walk
push_edges [] w = w
push_edges (e ∷ es) w =
    let pushed = push_edges es (record w { raw_edges = w.raw_edges ++ e ∷ [] }) in
    if leb max_raw_edges (length w.raw_edges)
    then record_in raw_edge_cap_reached (some e.source) w
    else pushed

module _ (node_bytes : KnowledgeNode → ℕ) (node_cap item_byte_budget : ℕ) where
  abbrev pub push_node : ParsedSource → Walk → Walk
  unfolding push_edges
  push_node p w = push_edges p.raw_edges (record w {
    nodes = w.nodes ++ p.node ∷ [];
    seen_ids = w.seen_ids ++ p.node.id ∷ [];
    graph_item_bytes = w.graph_item_bytes + node_bytes p.node;
  })

  unfoldable pub keep : ParsedSource → Walk → Turn
  unfolding push_node
  keep p w =
      if member p.node.id w.seen_ids
      then go (record_in duplicate_id (some p.node.id) w)
      else if ltb item_byte_budget (w.graph_item_bytes + node_bytes p.node)
      then stop response_size_cap_reached (record_in response_size_cap_reached (some p.node.id) w)
      else go (push_node p w)

  unfoldable pub take_read : SourceRead → Walk → Turn
  unfolding keep
  take_read too_large w = go w
  take_read unavailable w = go w
  take_read (parsed p) w = keep p w

  unfoldable pub visit : SourceFile → Walk → Turn
  unfolding read_source take_read
  visit s w =
      if leb node_cap (length w.nodes)
      then stop node_cap_reached (record_in node_cap_reached s.node_id w)
      else take_read s.read (record w { report = read_source s w.report })

  -- What is left after a break is recorded, each source with the reason of the break.
  unfoldable pub record_tail : KnowledgeOmissionReason → List SourceFile → Walk → Walk
  record_tail reason [] w = w
  record_tail reason (s ∷ rest) w = record_tail reason rest (record_in reason s.node_id w)

  abbrev pub after_turn : List SourceFile → (Walk → Walk) → Turn → Walk
  unfolding record_tail
  after_turn rest continue (go w) = continue w
  after_turn rest continue (stop reason w) = record_tail reason rest w

  unfoldable pub walk : List SourceFile → Walk → Walk
  unfolding visit after_turn
  walk [] w = w
  walk (s ∷ rest) w = after_turn rest (walk rest) (visit s w)

-- The walk from the refusals of folders, with the request's cap within the limit.
abbrev pub started : TruncationReport → Walk
started report = record {
  nodes = [];
  raw_edges = [];
  seen_ids = [];
  graph_item_bytes = 0;
  report = report;
}

abbrev pub clamped_cap : ℕ → ℕ
clamped_cap max_nodes = min (max max_nodes 1) max_nodes_limit

unfoldable pub walk_sources :
    (KnowledgeNode → ℕ) → ℕ → ℕ → List SourceFile → TruncationReport → Walk
unfolding walk
walk_sources node_bytes max_nodes item_byte_budget sources report =
    walk node_bytes (clamped_cap max_nodes) item_byte_budget sources (started report)
