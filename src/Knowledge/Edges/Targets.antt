-- ===== src/Knowledge/Edges/Targets.antt =====
-- src-tauri/src/http/handlers/knowledge.rs: a hint leads to a page of the graph or nowhere.
use hive_manager.Base.{
  ◌==◌, not, ◌&&◌, Option, none, some, List, [], ◌∷◌, ◌++◌, Text, text_eq, All, member, has,
  if_both,
}
use hive_manager.Knowledge.Scan.{KnowledgeNode}
use hive_manager.Knowledge.Lookup.{
  LookupMap, insert_lookup, get_lookup, only, unique_lookup, NodeLookup, strip_markdown_extension,
  is_unsafe_slug, normalize_lookup, add_node, add_nodes, from_nodes, normalize_parent_relative_hint,
  or_else, resolve_slug, resolve_parent, plain_hint, resolve_hint, before_first, after_last,
}

module _ (P : Text → Type 0) where
  -- Every id of a map has the property.
  pub MapIds : LookupMap → Type 0
  MapIds m = All (λ (e : Text × List Text). All P (e.1)) m

  -- A result that has the property if there is one.
  unfoldable pub Sure : Option Text → Type 0
  Sure none = Unit
  Sure (some id) = P id

  All-push : (ids : List Text) (id : Text) → All P ids → P id → All P (ids ++ id ∷ [])
  All-push [] id a p = (p, tt)
  All-push (x ∷ ids) id (q, a) p = (q, All-push ids id a p)

  insert-MapIds :
      (key id : Text) (m : LookupMap) → MapIds m → P id → MapIds (insert_lookup key id m)
  unfolding MapIds insert_lookup
  insert-MapIds key id [] a p = ((p, tt), tt)
  insert-MapIds key id ((k, ids) ∷ rest) (q, a) p =
      if_both MapIds (text_eq k key) (λ _. (All-push ids id q p, a))
        (λ _. (q, insert-MapIds key id rest a p))

  only-Sure : (ids : List Text) → All P ids → Sure (only (some ids))
  unfolding Sure
  only-Sure [] a = tt
  only-Sure (id ∷ []) (p, _) = p
  only-Sure (id ∷ x ∷ ids) a = tt

  unique-Sure : (m : LookupMap) (key : Text) → MapIds m → Sure (unique_lookup m key)
  unfolding MapIds Sure unique_lookup get_lookup
  unique-Sure [] key a = tt
  unique-Sure ((k, ids) ∷ rest) key (q, a) =
      if_both (λ o. Sure (only o)) (text_eq k key) (λ _. only-Sure ids q)
        (λ _. unique-Sure rest key a)

  or_else-Sure : (a b : Option Text) → Sure a → Sure b → Sure (or_else a b)
  unfolding Sure
  or_else-Sure none b p q = q
  or_else-Sure (some id) b p q = p

  pub record LookupIds (l : NodeLookup) : Type 0 where
    by_id_sure : MapIds l.by_id
    by_basename_sure : MapIds l.by_basename
    by_title_sure : MapIds l.by_title

  module _ (to_lowercase : Text → Text) where
    add_nodes-LookupIds :
        (nodes : List KnowledgeNode) (l : NodeLookup)
        → All (λ (n : KnowledgeNode). P n.id) nodes
        → LookupIds l
        → LookupIds (add_nodes to_lowercase nodes l)
    unfolding add_nodes add_node
    add_nodes-LookupIds [] l a h = h
    add_nodes-LookupIds (n ∷ nodes) l (p, a) h = add_nodes-LookupIds nodes _ a record {
      by_id_sure = insert-MapIds _ n.id l.by_id h.by_id_sure p;
      by_basename_sure = insert-MapIds _ n.id l.by_basename h.by_basename_sure p;
      by_title_sure = insert-MapIds _ n.id l.by_title h.by_title_sure p;
    }

    pub from_nodes-LookupIds :
        (nodes : List KnowledgeNode)
        → All (λ (n : KnowledgeNode). P n.id) nodes
        → LookupIds (from_nodes to_lowercase nodes)
    unfolding MapIds from_nodes
    from_nodes-LookupIds nodes a =
        add_nodes-LookupIds nodes _ a
          record { by_id_sure = tt; by_basename_sure = tt; by_title_sure = tt }

    resolve_slug-Sure :
        (l : NodeLookup) (slug : Text) → LookupIds l → Sure (resolve_slug to_lowercase l slug)
    unfolding Sure resolve_slug
    resolve_slug-Sure l slug h =
        if_both Sure
          (has (λ c. c == b'/') slug
            && not (member (normalize_lookup to_lowercase (before_first b'/' slug)) l.folders))
          (λ _. tt)
          (λ _.
            or_else-Sure (unique_lookup l.by_id (normalize_lookup to_lowercase slug)) _
              (unique-Sure l.by_id _ h.by_id_sure)
              (if_both Sure (has (λ c. c == b'/') slug) (λ _. tt)
                (λ _.
                  or_else-Sure
                    (unique_lookup l.by_basename
                      (normalize_lookup to_lowercase (after_last b'/' slug)))
                    _ (unique-Sure l.by_basename _ h.by_basename_sure)
                    (unique-Sure l.by_title _ h.by_title_sure))))

    resolve_parent-Sure :
        (l : NodeLookup) (o : Option Text) → LookupIds l → Sure (resolve_parent to_lowercase l o)
    unfolding Sure resolve_parent
    resolve_parent-Sure l none h = tt
    resolve_parent-Sure l (some hint) h =
        if_both Sure (is_unsafe_slug (strip_markdown_extension hint)) (λ _. tt)
          (λ _. resolve_slug-Sure l (strip_markdown_extension hint) h)

    pub resolve_hint-Sure :
        (hint : Text) (l : NodeLookup) → LookupIds l → Sure (resolve_hint to_lowercase hint l)
    unfolding resolve_hint
    resolve_hint-Sure hint l h =
        resolve_parent-Sure l (normalize_parent_relative_hint to_lowercase (plain_hint hint) l) h
