-- ===== src/Knowledge/Parents.antt =====
-- src-tauri/src/http/handlers/knowledge.rs: hints that begin with parents.
use hive_manager.Base.{
  ℕ, zero, suc, ◌==◌, ◌≡◌, Bool, true, false, Option, none, some, ◌∷◌, ◌++◌, Text, codes, lacks,
  member, is_nil, text_eq, strip_prefix,
}
use hive_manager.Knowledge.{project_folder}
use hive_manager.Knowledge.Lookup.{NodeLookup, if_some, normalize_lookup}

-- A hint with a number of leading parents.
abbrev pub ups : ℕ → Text → Text
ups zero t = t
ups (suc n) t = codes "../" ++ ups n t

-- A text without the leading folder of the wiki.
abbrev pub without_wiki : Text → Text
without_wiki t = if_some (strip_prefix (codes "wiki/") t) t

abbrev pub slash : ℕ → Bool
slash c = c == b'/'

abbrev pub parts_of : Text × Text → Option (Text × Text) → Text × Text
parts_of other none = other
parts_of other (some x) = x

-- The parts of a text that is cut at its first slash.
abbrev pub IsCut : Text → Text → Text → Type 0
IsCut t a b = (t ≡ a ++ b'/' ∷ b) × (lacks b'/' a ≡ true)

module _ (to_lowercase : Text → Text) (lookup : NodeLookup) where
  -- A page in a folder of the graph that is not the project's.
  pub record IsKnown (r : Text) : Type 0 where
    pub folder : Text
    pub page : Text
    pub parts : IsCut r folder page
    pub present : is_nil page ≡ false
    pub outside : text_eq folder project_folder ≡ false
    pub listed : member (normalize_lookup to_lowercase folder) lookup.folders ≡ true
