-- ===== src/Tests/KnowledgeCases.antt =====
-- The knowledge graph at concrete inputs.
use hive_manager.Base.{
  ℕ, ◌+◌, ◌==◌, ◌≤◌, ◌≡◌, refl, true, false, none, some, List, [], ◌∷◌, ◌++◌, Text, codes, All, map,
  length, has, ltb, split_at, to_ascii_lowercase,
}
use hive_manager.Knowledge.{project_folder}
use hive_manager.Knowledge.Report.{total}
use hive_manager.Knowledge.Scan.{
  KnowledgeNode, wikilink, RawEdge, parsed, too_large, SourceFile, max_nodes_limit, max_edges,
  clamped_cap, walk_sources,
}
use hive_manager.Knowledge.Scan.Accounted.{loses_page, pages, walk_sources-pages}
use hive_manager.Knowledge.Scan.Bounded.{Within, walk_sources-Within}
use hive_manager.Knowledge.Lookup.{normalize_parent_relative_hint, from_nodes, resolve_hint}
use hive_manager.Knowledge.Parents.{ups}
use hive_manager.Knowledge.Edges.{KnowledgeEdge, build_edges}
use hive_manager.Knowledge.Edges.Kept.{FreshEdges, edges_bytes, Joins}
use hive_manager.Knowledge.Edges.Graph.{IsPage, build_edges_lem}
use hive_manager.Knowledge.Ids.{validate_knowledge_id, follow, validate_knowledge_id-follow}
use hive_manager.Knowledge.Cut.{truncate_utf8, CutTo, truncate_utf8-CutTo}

abbrev page : Text → Text → KnowledgeNode
page id folder = record {
  id = id;
  title = codes "A page";
  folder = folder;
  last_updated = [];
  in_degree = 0;
  out_degree = 0;
}

abbrev log_page : KnowledgeNode
log_page = page (codes "root/log") (codes "root")

abbrev dna_page : KnowledgeNode
dna_page = page (codes ".project/project-dna") project_folder

abbrev a_link : RawEdge
a_link = record {
  source = codes "root/log";
  target_hint = codes "[[Project-DNA]]";
  kind = wikilink;
}

abbrev log_source : SourceFile
log_source = record {
  node_id = some (codes "root/log");
  read = parsed record {
    node = log_page;
    title_cut = true;
    last_updated_cut = false;
    raw_edges = a_link ∷ [];
    long_hints = 2;
  };
}

abbrev big_source : SourceFile
big_source = record { node_id = some (codes "root/big"); read = too_large }

abbrev some_sources : List SourceFile
some_sources = log_source ∷ log_source ∷ big_source ∷ log_source ∷ []

-- Every node has 10 bytes.
abbrev ten : KnowledgeNode → ℕ
ten n = 10

walk_sources-pages_example :
    pages (walk_sources ten 1 100 some_sources []) ≡ total loses_page [] + length some_sources
walk_sources-pages_example = walk_sources-pages ten 1 100 some_sources []

walk_sources-Within_example :
    Within ten (clamped_cap 1) 100 (walk_sources ten 1 100 some_sources [])
    × (1 ≤ clamped_cap 1)
    × (clamped_cap 1 ≤ max_nodes_limit)
walk_sources-Within_example = walk_sources-Within ten 1 100 some_sources []

abbrev two_pages : List KnowledgeNode
two_pages = log_page ∷ dna_page ∷ []

abbrev lower : Text → Text
lower t = map to_ascii_lowercase t

abbrev seven : KnowledgeEdge → ℕ
seven e = 7

abbrev two_edges : List KnowledgeEdge
two_edges = (build_edges seven 20 lower (from_nodes lower two_pages) (a_link ∷ a_link ∷ []) []).0

build_edges_lem_example :
    All (Joins (IsPage two_pages)) two_edges
    × FreshEdges [] two_edges
    × (length two_edges ≤ max_edges)
    × (edges_bytes seven two_edges ≤ 20)
build_edges_lem_example =
    build_edges_lem seven 20 lower two_pages (a_link ∷ a_link ∷ []) [] (refl, (refl, tt))

validate_knowledge_id-follow_example :
    (follow (codes "wiki" ∷ []) (split_at b'/' (codes "agents/queen.notes"))
      ≡ (codes "wiki" ∷ []) ++ split_at b'/' (codes "agents/queen.notes"))
    × (has (λ c. c == 92) (codes "agents/queen.notes") ≡ false)
    × (ltb (length (split_at b'/' (codes "agents/queen.notes"))) 2 ≡ false)
unfolding validate_knowledge_id
validate_knowledge_id-follow_example =
    validate_knowledge_id-follow (codes "agents/queen.notes") (codes "wiki" ∷ []) refl

truncate_utf8-CutTo_example : CutTo (codes "aé€") 4 (truncate_utf8 (codes "aé€") 4)
truncate_utf8-CutTo_example = truncate_utf8-CutTo (codes "aé€") 4

abbrev far_up : Text
far_up = ups 2 (codes "wiki/topics/log")

far_up_read :
    normalize_parent_relative_hint lower far_up
      (from_nodes lower (page (codes "topics/log") (codes "topics") ∷ []))
    ≡ some (codes "topics/log")
unfolding normalize_parent_relative_hint from_nodes
far_up_read = refl

-- A hint that walks upwards does not reach the project's pages, unless it is spelt in another case.
no_way_up : resolve_hint lower (codes "../.project/project-dna") (from_nodes lower two_pages) ≡ none
unfolding resolve_hint from_nodes
no_way_up = refl

way_up :
    resolve_hint lower (codes "../.Project/project-dna") (from_nodes lower two_pages)
    ≡ some (codes ".project/project-dna")
unfolding resolve_hint from_nodes
way_up = refl
