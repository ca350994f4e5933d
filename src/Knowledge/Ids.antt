-- ===== src/Knowledge/Ids.antt =====
-- src-tauri/src/http/handlers/knowledge.rs: the check of a page's id, which is the shape of a path.
use hive_manager.Base.{
  false-true, ℕ, ◌==◌, ltb, ◌≡◌, sym, ◌∙◌, Bool, true, false, ◌||◌, List, [], ◌∷◌, ◌++◌, Text,
  codes, text_eq, is_nil, length, any, split_at, starts_with, has, if_both, if◌then◌else◌, arith,
}
use mathlib.Core.List.{append-nil, append_assoc}
use hive_manager.Knowledge.{byte_len, project_folder, is_valid_folder_name}
use hive_manager.Knowledge.Lookup.{first_part, has_drive, is_dots}

abbrev pub max_id_bytes : ℕ
max_id_bytes = 512

-- The reserved prefix has two pages; another has to be shaped like a folder's name.
abbrev pub known_prefix : Text → Text → Bool
unfolding is_valid_folder_name
known_prefix id prefix =
    if text_eq prefix project_folder
    then text_eq id (codes ".project/project-dna") || text_eq id (codes ".project/bug-patterns")
    else is_valid_folder_name prefix

unfoldable pub validate_knowledge_id : Text → Bool
unfolding known_prefix
validate_knowledge_id id =
    let components = split_at b'/' id in
    if is_nil id || ltb max_id_bytes (byte_len id) || has (λ c. c == 0) id
    then false
    else if starts_with (codes "/") id || has (λ c. c == 92) id || has_drive id
    then false
    else if ltb (length components) 2 || any is_dots components
    then false
    else known_prefix id (first_part components)

-- Where a relative path leads from a directory, both as lists of components: a dot stays, two dots
-- go up, a name goes down.
abbrev pub up : List Text → List Text
up [] = []
up (d ∷ []) = []
up (d ∷ e ∷ ds) = d ∷ up (e ∷ ds)

unfoldable pub follow : List Text → List Text → List Text
follow directory [] = directory
follow directory (c ∷ cs) =
    if text_eq c (codes "..")
    then follow (up directory) cs
    else if is_nil c || text_eq c (codes ".")
    then follow directory cs
    else follow (directory ++ c ∷ []) cs

follow-names :
    (directory cs : List Text) → any is_dots cs ≡ false → follow directory cs ≡ directory ++ cs
unfolding follow
follow-names directory [] h = sym (append-nil directory)
follow-names directory (c ∷ cs) h =
    if_both (λ r. r ≡ directory ++ c ∷ cs) (text_eq c (codes "..")) (λ e. ground (arith, e, h))
      (λ _.
        if_both (λ r. r ≡ directory ++ c ∷ cs) (is_nil c || text_eq c (codes "."))
          (λ e. ground (arith, e, h))
          (λ _.
            follow-names (directory ++ c ∷ []) cs (ground (arith, h))
            ∙ append_assoc directory (c ∷ []) cs))

or_right : (a b : Bool) → a || b ≡ false → b ≡ false
or_right a b h = ground (arith, h)

-- An id that is accepted leads, from any directory, only downwards through its own components, of
-- which there are at least two, and holds no backslash: read as a relative path it stays inside.
pub validate_knowledge_id-follow :
    (id : Text) (directory : List Text)
    → validate_knowledge_id id ≡ true
    → (follow directory (split_at b'/' id) ≡ directory ++ split_at b'/' id)
      × (has (λ c. c == 92) id ≡ false)
      × (ltb (length (split_at b'/' id)) 2 ≡ false)
unfolding validate_knowledge_id
validate_knowledge_id-follow id directory =
    if_both Inside (is_nil id || ltb max_id_bytes (byte_len id) || has (λ c. c == 0) id)
      (λ _ h. elim (false-true h) [ ])
      (λ _.
        if_both Inside (starts_with (codes "/") id || has (λ c. c == 92) id || has_drive id)
          (λ _ h. elim (false-true h) [ ])
          (λ s.
            if_both Inside (ltb (length (split_at b'/' id)) 2 || any is_dots (split_at b'/' id))
              (λ _ h. elim (false-true h) [ ])
              (λ d _. (
                follow-names directory (split_at b'/' id) (or_right _ _ d),
                ground (arith, s),
                ground (arith, d),
              ))))
  where
    Inside : Bool → Type 0
    Inside b =
        b ≡ true
        → (follow directory (split_at b'/' id) ≡ directory ++ split_at b'/' id)
          × (has (λ c. c == 92) id ≡ false)
          × (ltb (length (split_at b'/' id)) 2 ≡ false)
