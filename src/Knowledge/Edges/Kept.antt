-- ===== src/Knowledge/Edges/Kept.antt =====
-- src-tauri/src/http/handlers/knowledge.rs: what is known of the edges that are kept.
use hive_manager.Base.{
  ℕ, ◌+◌, ltb, leb, ◌≤◌, ◌<◌, ◌≡◌, refl, Bool, false, ◌||◌, Option, none, some, List, [], ◌∷◌, ◌++◌,
  Text, text_eq, All, length, if_both, arith,
}
use hive_manager.Knowledge.{TruncationReport}
use hive_manager.Knowledge.Scan.{max_edges, RawEdge}
use hive_manager.Knowledge.Lookup.{NodeLookup, resolve_hint}
use hive_manager.Knowledge.Edges.{
  KnowledgeEdge, edge_eq, has_edge, Building, fit_edge, add_edge, add_resolved, add_raw,
}
use hive_manager.Knowledge.Edges.Targets.{Sure, LookupIds, resolve_hint-Sure}

-- Each edge is none of those before it.
unfoldable pub FreshEdges : List KnowledgeEdge → List KnowledgeEdge → Type 0
FreshEdges before [] = Unit
FreshEdges before (e ∷ es) = (has_edge e before ≡ false) × FreshEdges (before ++ e ∷ []) es

has_edge-append :
    (e : KnowledgeEdge) (xs ys : List KnowledgeEdge)
    → has_edge e (xs ++ ys) ≡ has_edge e xs || has_edge e ys
has_edge-append e [] ys = refl
has_edge-append e (x ∷ xs) ys = ground (arith, has_edge-append e xs ys)

FreshEdges-push :
    (before es : List KnowledgeEdge) (e : KnowledgeEdge)
    → FreshEdges before es
    → has_edge e before ≡ false
    → has_edge e es ≡ false
    → FreshEdges before (es ++ e ∷ [])
unfolding FreshEdges
FreshEdges-push before [] e f h k = (h, tt)
FreshEdges-push before (x ∷ es) e (n, f) h k = (
  n,
  FreshEdges-push (before ++ x ∷ []) es e f
      (ground (arith, has_edge-append e before (x ∷ []), h, k)) (ground (arith, k)),
)

-- The bytes of edges.
abbrev pub edges_bytes : (KnowledgeEdge → ℕ) → List KnowledgeEdge → ℕ
edges_bytes edge_bytes [] = 0
edges_bytes edge_bytes (e ∷ es) = edge_bytes e + edges_bytes edge_bytes es

edges_bytes-push :
    (edge_bytes : KnowledgeEdge → ℕ) (es : List KnowledgeEdge) (e : KnowledgeEdge)
    → edges_bytes edge_bytes (es ++ e ∷ []) ≡ edges_bytes edge_bytes es + edge_bytes e
edges_bytes-push edge_bytes [] e = omega arith
edges_bytes-push edge_bytes (x ∷ es) e = omega (arith, edges_bytes-push edge_bytes es e)

length-push : (xs : List KnowledgeEdge) (x : KnowledgeEdge) → length (xs ++ x ∷ []) ≡ length xs + 1
length-push [] x = refl
length-push (y ∷ xs) x = omega (arith, length-push xs x)

All-push :
    {A : Type 0} (Q : A → Type 0) (xs : List A) (x : A) → All Q xs → Q x → All Q (xs ++ x ∷ [])
All-push Q [] x a q = (q, tt)
All-push Q (y ∷ xs) x (p, a) q = (p, All-push Q xs x a q)

module _ (P : Text → Type 0) where
  -- Both ends are pages of the graph, and not the same one.
  pub record Joins (e : KnowledgeEdge) : Type 0 where
    pub from_page : P e.source
    pub to_page : P e.target
    pub no_loop : text_eq e.target e.source ≡ false

  module _ (edge_bytes : KnowledgeEdge → ℕ) (budget : ℕ) where
    -- What the loop keeps to.
    pub record KeptSo (b : Building) : Type 0 where
      pub joins : All Joins b.edges
      pub few : length b.edges ≤ max_edges
      pub summed : b.item_bytes ≡ edges_bytes edge_bytes b.edges
      pub small : b.item_bytes ≤ budget
      pub fresh : FreshEdges [] b.edges
      pub known : (e : KnowledgeEdge) → has_edge e b.seen ≡ false → has_edge e b.edges ≡ false

    skipped-KeptSo :
        (report : TruncationReport) (b : Building)
        → KeptSo b
        → KeptSo (record b { report = report })
    skipped-KeptSo report b h = record {
      joins = h.joins;
      few = h.few;
      summed = h.summed;
      small = h.small;
      fresh = h.fresh;
      known = h.known;
    }

    or_left : (a b : Bool) → a || b ≡ false → a ≡ false
    or_left a b h = ground (arith, h)

    or_right : (a b : Bool) → a || b ≡ false → b ≡ false
    or_right a b h = ground (arith, h)

    seen-KeptSo :
        (e : KnowledgeEdge) (b : Building) → KeptSo b → KeptSo (record b { seen = e ∷ b.seen })
    seen-KeptSo e b h = record {
      joins = h.joins;
      few = h.few;
      summed = h.summed;
      small = h.small;
      fresh = h.fresh;
      known = λ x k. h.known x (or_right (edge_eq x e) (has_edge x b.seen) k);
    }

    pushed-KeptSo :
        (e : KnowledgeEdge) (b : Building)
        → KeptSo b
        → Joins e
        → has_edge e b.edges ≡ false
        → length b.edges < max_edges
        → b.item_bytes + edge_bytes e ≤ budget
        → ((x : KnowledgeEdge) → has_edge x b.seen ≡ false → edge_eq x e ≡ false)
        → KeptSo (record b { edges = b.edges ++ e ∷ []; item_bytes = b.item_bytes + edge_bytes e })
    pushed-KeptSo e b h j new k s d = record {
      joins = All-push Joins b.edges e h.joins j;
      few = omega (arith, k, length-push b.edges e);
      summed = omega (arith, h.summed, edges_bytes-push edge_bytes b.edges e);
      small = s;
      fresh = FreshEdges-push [] b.edges e h.fresh refl new;
      known = λ x q. ground (arith, has_edge-append x b.edges (e ∷ []), h.known x q, d x q);
    }

    add_edge-KeptSo :
        (e : KnowledgeEdge) (b : Building)
        → P e.source
        → P e.target
        → KeptSo b
        → KeptSo (add_edge edge_bytes budget e b)
    unfolding add_edge fit_edge
    add_edge-KeptSo e b ps pt h =
        if_both KeptSo (text_eq e.target e.source || has_edge e b.seen) (λ _. h)
          (λ n.
            if_both KeptSo (leb max_edges (length b.edges))
              (λ _. skipped-KeptSo _ _ (seen-KeptSo e b h))
              (λ k.
                if_both KeptSo (ltb budget (b.item_bytes + edge_bytes e))
                  (λ _. skipped-KeptSo _ _ (seen-KeptSo e b h))
                  (λ s.
                    pushed-KeptSo e (record b { seen = e ∷ b.seen }) (seen-KeptSo e b h)
                      record {
                        from_page = ps;
                        to_page = pt;
                        no_loop = or_left (text_eq e.target e.source) (has_edge e b.seen) n;
                      }
                      (h.known e (or_right (text_eq e.target e.source) (has_edge e b.seen) n))
                      (ground (arith, k)) (ground (arith, s))
                      (λ x q. or_left (edge_eq x e) (has_edge x b.seen) q))))

    add_resolved-KeptSo :
        (raw : RawEdge) (o : Option Text) (b : Building)
        → P raw.source
        → Sure P o
        → KeptSo b
        → KeptSo (add_resolved edge_bytes budget raw o b)
    unfolding add_resolved Sure
    add_resolved-KeptSo raw none b ps s h = h
    add_resolved-KeptSo raw (some target) b ps s h = add_edge-KeptSo _ b ps s h

    pub add_raw-KeptSo :
        (to_lowercase : Text → Text) (l : NodeLookup) (raws : List RawEdge) (b : Building)
        → LookupIds P l
        → All (λ (r : RawEdge). P r.source) raws
        → KeptSo b
        → KeptSo (add_raw edge_bytes budget to_lowercase l raws b)
    unfolding add_raw
    add_raw-KeptSo to_lowercase l [] b i a h = h
    add_raw-KeptSo to_lowercase l (raw ∷ raws) b i (p, a) h =
        add_raw-KeptSo to_lowercase l raws _ i a (
          add_resolved-KeptSo raw (resolve_hint to_lowercase raw.target_hint l) b p
            (resolve_hint-Sure P to_lowercase raw.target_hint l i) h)
