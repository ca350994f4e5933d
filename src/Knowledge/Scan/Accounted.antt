-- ===== src/Knowledge/Scan/Accounted.antt =====
-- src-tauri/src/http/handlers/knowledge.rs: no source is lost without being counted.
use hive_manager.Base.{
  ℕ, zero, suc, ◌+◌, ◌==◌, ltb, leb, ◌≡◌, refl, subst, ap, ◌∙◌, Bool, true, false, ◌||◌, Option,
  some, List, [], ◌∷◌, ◌++◌, Text, member, length, if_both, if◌then◌else◌, arith,
}
use hive_manager.Knowledge.{
  KnowledgeOmissionReason, position, TruncationReport, record_omission, node_cap_reached,
  response_size_cap_reached, file_too_large, file_unreadable, raw_edge_cap_reached,
  edge_hint_too_long, title_truncated, last_updated_truncated, duplicate_id,
}
use hive_manager.Knowledge.Report.{total, total-record}
use hive_manager.Knowledge.Scan.{
  max_raw_edges, KnowledgeNode, RawEdge, ParsedSource, SourceRead, parsed, too_large, unavailable,
  SourceFile, record_if, record_times, report_parsed, read_report, read_source, Walk, Turn, go,
  stop, record_in, push_edges, push_node, keep, take_read, visit, record_tail, after_turn, walk,
  started, walk_sources, clamped_cap,
}

-- The reasons for which a whole page is left out.
unfoldable pub loses_page : ℕ → Bool
loses_page n = n == 0 || n == 1 || n == 2 || n == 3 || n == 13

-- The pages that are shown or counted as left out.
unfoldable pub pages : Walk → ℕ
unfolding loses_page
pages w = length w.nodes + total loses_page w.report

record-pages :
    (reason : KnowledgeOmissionReason) (example : Option Text) (w : Walk)
    → pages (record_in reason example w) ≡ pages w + (if loses_page (position reason) then 1 else 0)
unfolding pages
record-pages reason example w = omega (arith, total-record loses_page reason example w.report)

note-total :
    (b : Bool) (reason : KnowledgeOmissionReason) (example : Option Text)
    (report : TruncationReport)
    → loses_page (position reason) ≡ false
    → total loses_page (record_if b reason example report) ≡ total loses_page report
note-total false reason example report h = refl
note-total true reason example report h =
    total-record loses_page reason example report
    ∙ ap (λ c. total loses_page report + (if c then 1 else 0)) h
    ∙ omega arith

times-total :
    (n : ℕ) (reason : KnowledgeOmissionReason) (example : Option Text) (report : TruncationReport)
    → loses_page (position reason) ≡ false
    → total loses_page (record_times n reason example report) ≡ total loses_page report
unfolding record_times
times-total zero reason example report h = refl
times-total (suc n) reason example report h =
    times-total n reason example (record_omission reason example report) h
    ∙ note-total true reason example report h

-- Parsing a page leaves out no page.
parsed-total :
    (p : ParsedSource) (node_id : Option Text) (report : TruncationReport)
    → total loses_page (read_report (parsed p) node_id report) ≡ total loses_page report
unfolding read_report report_parsed loses_page
parsed-total p node_id report =
    times-total p.long_hints edge_hint_too_long (some p.node.id) _ refl
    ∙ note-total p.last_updated_cut last_updated_truncated (some p.node.id) _ refl
    ∙ note-total p.title_cut title_truncated (some p.node.id) report refl

-- Raw edges and sizes do not count.
same_pages : (w v : Walk) → w.nodes ≡ v.nodes → w.report ≡ v.report → pages w ≡ pages v
unfolding pages
same_pages w v n r = rw (n, r) refl

raw_edge-pages :
    (w : Walk) → pages w + (if loses_page (position raw_edge_cap_reached) then 1 else 0) ≡ pages w
unfolding loses_page
raw_edge-pages w = omega arith

push_edges-pages : (es : List RawEdge) (w : Walk) → pages (push_edges es w) ≡ pages w
unfolding push_edges
push_edges-pages [] w = refl
push_edges-pages (e ∷ es) w =
    if_both (λ r. pages r ≡ pages w) (leb max_raw_edges (length w.raw_edges))
      (λ _. record-pages raw_edge_cap_reached (some e.source) w ∙ raw_edge-pages w)
      (λ _.
        push_edges-pages es (record w { raw_edges = w.raw_edges ++ e ∷ [] })
        ∙ same_pages (record w { raw_edges = w.raw_edges ++ e ∷ [] }) w refl refl)

-- A turn that accounts for a number of pages, and stops only for a reason that loses pages.
Accounts : ℕ → Turn → Type 0
Accounts n (go w) = pages w ≡ n
Accounts n (stop reason w) = (loses_page (position reason) ≡ true) × (pages w ≡ n)

length-push : (xs : List KnowledgeNode) (x : KnowledgeNode) → length (xs ++ x ∷ []) ≡ length xs + 1
length-push [] x = refl
length-push (y ∷ xs) x = omega (arith, length-push xs x)

-- Recording a reason that loses a page counts one.
lost-pages :
    (reason : KnowledgeOmissionReason) (example : Option Text) (w : Walk)
    → loses_page (position reason) ≡ true
    → pages (record_in reason example w) ≡ pages w + 1
lost-pages reason example w h =
    record-pages reason example w ∙ ap (λ c. pages w + (if c then 1 else 0)) h

-- A walk that has read a page.
abbrev read_into : ParsedSource → Option Text → Walk → Walk
read_into p node_id w = record w { report = read_report (parsed p) node_id w.report }

read-pages :
    (p : ParsedSource) (node_id : Option Text) (w : Walk) → pages (read_into p node_id w) ≡ pages w
unfolding pages
read-pages p node_id w = ap (λ n. length w.nodes + n) (parsed-total p node_id w.report)

module _ (node_bytes : KnowledgeNode → ℕ) (cap budget : ℕ) where
  push_node-pages :
      (p : ParsedSource) (w : Walk) → pages (push_node node_bytes cap budget p w) ≡ pages w + 1
  unfolding push_node pages
  push_node-pages p w = push_edges-pages p.raw_edges _ ∙ omega (arith, length-push w.nodes p.node)

  keep-Accounts :
      (p : ParsedSource) (w : Walk) → Accounts (pages w + 1) (keep node_bytes cap budget p w)
  unfolding keep Accounts loses_page
  keep-Accounts p w =
      if_both (Accounts (pages w + 1)) (member p.node.id w.seen_ids)
        (λ _. lost-pages duplicate_id (some p.node.id) w refl)
        (λ _.
          if_both (Accounts (pages w + 1)) (ltb budget (w.graph_item_bytes + node_bytes p.node))
            (λ _. (refl, lost-pages response_size_cap_reached (some p.node.id) w refl))
            (λ _. push_node-pages p w))

  take_read-Accounts :
      (r : SourceRead) (node_id : Option Text) (w : Walk)
      → Accounts
          (pages w + 1)
          (take_read node_bytes cap budget r (record w { report = read_report r node_id w.report }))
  unfolding take_read Accounts read_report loses_page
  take_read-Accounts too_large node_id w = lost-pages file_too_large node_id w refl
  take_read-Accounts unavailable node_id w = lost-pages file_unreadable node_id w refl
  take_read-Accounts (parsed p) node_id w =
      subst (λ n. Accounts (n + 1) (keep node_bytes cap budget p (read_into p node_id w)))
        (read-pages p node_id w) (keep-Accounts p (read_into p node_id w))

  visit-Accounts :
      (s : SourceFile) (w : Walk) → Accounts (pages w + 1) (visit node_bytes cap budget s w)
  unfolding visit Accounts read_source loses_page
  visit-Accounts s w =
      if_both (Accounts (pages w + 1)) (leb cap (length w.nodes))
        (λ _. (refl, lost-pages node_cap_reached s.node_id w refl))
        (λ _. take_read-Accounts s.read s.node_id w)

  record_tail-pages :
      (reason : KnowledgeOmissionReason) (rest : List SourceFile) (w : Walk)
      → loses_page (position reason) ≡ true
      → pages (record_tail node_bytes cap budget reason rest w) ≡ pages w + length rest
  unfolding record_tail
  record_tail-pages reason [] w h = omega arith
  record_tail-pages reason (s ∷ rest) w h = omega (
    arith,
    record_tail-pages reason rest (record_in reason s.node_id w) h,
    lost-pages reason s.node_id w h,
  )

  after_turn-pages :
      (n : ℕ) (rest : List SourceFile) (t : Turn) (continue : Walk → Walk)
      → Accounts n t
      → ((w : Walk) → pages (continue w) ≡ pages w + length rest)
      → pages (after_turn node_bytes cap budget rest continue t) ≡ n + length rest
  unfolding Accounts after_turn
  after_turn-pages n rest (go w) continue a k = k w ∙ ap (λ m. m + length rest) a
  after_turn-pages n rest (stop reason w) continue (h, a) k =
      record_tail-pages reason rest w h ∙ ap (λ m. m + length rest) a

  walk-pages :
      (sources : List SourceFile) (w : Walk)
      → pages (walk node_bytes cap budget sources w) ≡ pages w + length sources
  unfolding walk
  walk-pages [] w = omega arith
  walk-pages (s ∷ rest) w =
      after_turn-pages (pages w + 1) rest (visit node_bytes cap budget s w)
        (walk node_bytes cap budget rest) (visit-Accounts s w) (walk-pages rest)
      ∙ omega arith

-- Every source that was found is either shown as a node or counted in the report, once, under a
-- reason that leaves out a page (the node cap, the byte budget, a file too large or unreadable, a
-- duplicate id): whatever the files hold and wherever the walk stops, the nodes and the counts of
-- these reasons add up to the number of sources and the counts that the walk started with.
pub walk_sources-pages :
    (node_bytes : KnowledgeNode → ℕ) (max_nodes budget : ℕ) (sources : List SourceFile)
    (report : TruncationReport)
    → pages (walk_sources node_bytes max_nodes budget sources report)
      ≡ total loses_page report + length sources
unfolding walk_sources pages
walk_sources-pages node_bytes max_nodes budget sources report =
    walk-pages node_bytes (clamped_cap max_nodes) budget sources (started report) ∙ omega arith
