-- ===== src/Knowledge/Lookup.antt =====
-- src-tauri/src/http/handlers/knowledge.rs: how the hint of a link finds the page it means. The
-- lower-casing of Unicode is a parameter; that of ASCII is written out.
use hive_manager.Base.{
  find_text, ℕ, ◌==◌, ltb, Bool, true, false, not, ◌&&◌, ◌||◌, Option, none, some, List, [], ◌∷◌,
  ◌++◌, Text, codes, text_eq, member, is_nil, length, any, map, is_whitespace, trim_by, split_at,
  split_once, strip_prefix, strip_again, starts_with, has, to_ascii_lowercase, eq_ignore_ascii_case,
  if◌then◌else◌,
}
use hive_manager.Knowledge.{trim, project_folder}
use hive_manager.Knowledge.Scan.{KnowledgeNode}

abbrev pub last_part : List Text → Text
last_part [] = []
last_part (p ∷ []) = p
last_part (p ∷ q ∷ ps) = last_part (q ∷ ps)

abbrev pub first_part : List Text → Text
first_part [] = []
first_part (p ∷ ps) = p

-- `rsplit(sep).next()` and `split(sep).next()`.
abbrev pub after_last : ℕ → Text → Text
after_last sep t = last_part (split_at sep t)

abbrev pub before_first : ℕ → Text → Text
before_first sep t = first_part (split_at sep t)

-- A map from keys to ids in the order of their insertion.
abbrev pub LookupMap : Type 0
LookupMap = List (Text × List Text)

unfoldable pub insert_lookup : Text → Text → LookupMap → LookupMap
insert_lookup key id [] = (key, id ∷ []) ∷ []
insert_lookup key id ((k, ids) ∷ rest) =
    if text_eq k key then (k, ids ++ id ∷ []) ∷ rest else (k, ids) ∷ insert_lookup key id rest

unfoldable pub get_lookup : Text → LookupMap → Option (List Text)
get_lookup key [] = none
get_lookup key ((k, ids) ∷ rest) = if text_eq k key then some ids else get_lookup key rest

abbrev pub only : Option (List Text) → Option Text
only none = none
only (some []) = none
only (some (id ∷ [])) = some id
only (some (id ∷ _ ∷ _)) = none

unfoldable pub unique_lookup : LookupMap → Text → Option Text
unfolding get_lookup
unique_lookup m key = only (get_lookup key m)

pub record NodeLookup : Type 0 where
  pub by_id : LookupMap
  pub by_basename : LookupMap
  pub by_title : LookupMap
  pub folders : List Text

-- `strip_prefix` as long as the prefix is there; each time the text is shorter.
abbrev pub strip_all : Text → Text → Text
strip_all prefix t = strip_again (length t) prefix t

-- `strip_markdown_extension`, `.md` in any case.
unfoldable pub strip_markdown_extension : Text → Text
strip_markdown_extension [] = []
strip_markdown_extension (c ∷ cs) =
    let rest = strip_markdown_extension cs in
    if eq_ignore_ascii_case (c ∷ cs) (codes ".md") then [] else c ∷ rest

unfoldable pub embedded_wikilink : Text → Option Text
embedded_wikilink value = elim (find_text (codes "[[") value) [
  | none ↦ none
  | some (_, remainder) ↦ elim (find_text (codes "]]") remainder) [
    | none ↦ none
    | some (inner, _) ↦ some inner
  ]
]

-- The last `.md`, in any case: what stands before it, and after it.
abbrev pub rfind_extension : Text → Option (Text × Text)
rfind_extension [] = none
rfind_extension (c ∷ cs) = elim (rfind_extension cs) [
  | some (before, after) ↦ some (c ∷ before, after)
  | none ↦ elim (strip_prefix (codes ".md") (map to_ascii_lowercase (c ∷ cs))) [
    | none ↦ none
    | some _ ↦ some (c ∷ [], cs)
  ]
]

abbrev pub annotation_follows : Text → Bool
annotation_follows [] = true
annotation_follows (c ∷ cs) = c == b'#' || c == b'(' || is_whitespace c

abbrev pub drop2 : Text → Text
drop2 (a ∷ b ∷ t) = t
drop2 (a ∷ []) = []
drop2 [] = []

abbrev pub take2 : Text → Text
take2 (a ∷ b ∷ t) = a ∷ b ∷ []
take2 (a ∷ []) = a ∷ []
take2 [] = []

unfoldable pub strip_path_annotation : Text → Text
strip_path_annotation value = elim (rfind_extension value) [
  | none ↦ value
  | some (upto_dot, after_dot) ↦
      if annotation_follows (drop2 after_dot) then upto_dot ++ take2 after_dot else value
]

abbrev pub if_some : Option Text → Text → Text
if_some none t = t
if_some (some inner) t = inner

-- Drive letters: the second byte is a colon.
abbrev pub has_drive : Text → Bool
has_drive [] = false
has_drive (a ∷ []) = false
has_drive (a ∷ b ∷ t) = ltb a 128 && b == b':'

abbrev pub is_dots : Text → Bool
is_dots component =
    is_nil component || text_eq component (codes ".") || text_eq component (codes "..")

unfoldable pub is_unsafe_slug : Text → Bool
is_unsafe_slug slug =
    is_nil slug
    || starts_with (codes "/") slug
    || has_drive slug
    || any is_dots (split_at b'/' slug)

-- The text of a hint without its decoration.
unfoldable pub plain_hint : Text → Text
unfolding embedded_wikilink strip_path_annotation
plain_hint hint =
    let value = trim hint in
    let inner = trim (before_first b'|' (if_some (embedded_wikilink value) value)) in
    let slashes = map (λ c. if c == 92 then b'/' else c) inner in
    let bare = trim_by (λ c. c == b'<' || c == b'>') (trim slashes) in
    strip_all (codes "./") (strip_path_annotation bare)

-- `or_else`.
abbrev pub or_else : Option Text → Option Text → Option Text
or_else none other = other
or_else (some id) other = some id

module _ (to_lowercase : Text → Text) where
  unfoldable pub normalize_lookup : Text → Text
  normalize_lookup value = to_lowercase (trim value)

  unfoldable pub add_node : KnowledgeNode → NodeLookup → NodeLookup
  unfolding normalize_lookup insert_lookup
  add_node node lookup = record {
    by_id = insert_lookup (normalize_lookup node.id) node.id lookup.by_id;
    by_basename =
        insert_lookup (normalize_lookup (after_last b'/' node.id)) node.id lookup.by_basename;
    by_title = insert_lookup (normalize_lookup node.title) node.id lookup.by_title;
    folders = normalize_lookup node.folder ∷ lookup.folders;
  }

  unfoldable pub add_nodes : List KnowledgeNode → NodeLookup → NodeLookup
  unfolding add_node
  add_nodes [] lookup = lookup
  add_nodes (node ∷ nodes) lookup = add_nodes nodes (add_node node lookup)

  unfoldable pub from_nodes : List KnowledgeNode → NodeLookup
  unfolding add_nodes
  from_nodes nodes =
      add_nodes nodes record { by_id = []; by_basename = []; by_title = []; folders = [] }

  -- After leading parents, a hint has to name a folder of the graph and a page in it.
  unfoldable pub known_parent : NodeLookup → Text → Option (Text × Text) → Option Text
  unfolding normalize_lookup
  known_parent lookup slug none = none
  known_parent lookup slug (some (prefix, remainder)) =
      if is_nil remainder
        || text_eq prefix project_folder
        || not (member (normalize_lookup prefix) lookup.folders)
      then none
      else some slug

  unfoldable pub normalize_parent_relative_hint : Text → NodeLookup → Option Text
  unfolding known_parent
  normalize_parent_relative_hint slug lookup =
      let up = strip_all (codes "../") slug in
      let bare = if_some (strip_prefix (codes "wiki/") up) up in
      if starts_with (codes "../") slug
      then known_parent lookup bare (split_once (λ c. c == b'/') bare)
      else some bare

  -- The id, if one only is meant; for a hint that is no path, then the base name, then the title.
  unfoldable pub resolve_slug : NodeLookup → Text → Option Text
  unfolding normalize_lookup unique_lookup
  resolve_slug lookup slug =
      let explicit_path = has (λ c. c == b'/') slug in
      let by_id = unique_lookup lookup.by_id (normalize_lookup slug) in
      let by_name =
        or_else (unique_lookup lookup.by_basename (normalize_lookup (after_last b'/' slug)))
          (unique_lookup lookup.by_title (normalize_lookup slug)) in
      if explicit_path && not (member (normalize_lookup (before_first b'/' slug)) lookup.folders)
      then none
      else or_else by_id (if explicit_path then none else by_name)

  unfoldable pub resolve_parent : NodeLookup → Option Text → Option Text
  unfolding resolve_slug strip_markdown_extension is_unsafe_slug
  resolve_parent lookup none = none
  resolve_parent lookup (some hint) =
      let slug = strip_markdown_extension hint in
      if is_unsafe_slug slug then none else resolve_slug lookup slug

  unfoldable pub resolve_hint : Text → NodeLookup → Option Text
  unfolding plain_hint normalize_parent_relative_hint resolve_parent
  resolve_hint hint lookup =
      resolve_parent lookup (normalize_parent_relative_hint (plain_hint hint) lookup)
