-- ===== src/Knowledge.antt =====
-- src-tauri/src/http/handlers/knowledge.rs: the graph of a wiki's pages. Here what was left out of
-- it, the names of folders and pages, and texts cut to a number of bytes.
pub mod Report
pub mod Folders
pub mod Ids
pub mod Cut
pub mod Scan
pub mod Lookup
pub mod Edges
pub mod Stripped
pub mod Parents
use hive_manager.Base.{
  ℕ, zero, suc, ◌+◌, ◌==◌, ltb, leb, Bool, true, false, not, ◌&&◌, ◌||◌, Option, none, some, List,
  [], ◌∷◌, ◌++◌, Text, codes, text_eq, member, is_nil, length, any, is_whitespace, trim_by,
  split_at, starts_with, has, eq_ignore_ascii_case, if◌then◌else◌,
}

abbrev pub trim : Text → Text
trim t = trim_by is_whitespace t

abbrev pub max_folder_name_bytes : ℕ
max_folder_name_bytes = 128

abbrev pub max_omission_examples : ℕ
max_omission_examples = 5

-- `str::len`: the bytes of UTF-8.
abbrev pub char_bytes : ℕ → ℕ
char_bytes c = if ltb c 128 then 1 else if ltb c 2048 then 2 else if ltb c 65536 then 3 else 4

abbrev pub byte_len : Text → ℕ
byte_len [] = 0
byte_len (c ∷ cs) = char_bytes c + byte_len cs

-- The name of a folder: `KnowledgeFolder::PROJECT` is reserved.
abbrev pub project_folder : Text
project_folder = codes ".project"

unfoldable pub is_valid_folder_name : Text → Bool
is_valid_folder_name name =
    not (is_nil name)
    && leb (byte_len name) max_folder_name_bytes
    && not (starts_with (codes ".") name)
    && not (has (λ c. c == b'/' || c == 92 || c == b':' || c == 0) name)

pub data KnowledgeOmissionReason : Type 0 where
  node_cap_reached response_size_cap_reached file_too_large : KnowledgeOmissionReason
  file_unreadable scan_entry_cap_reached directory_depth_exceeded : KnowledgeOmissionReason
  discovered_file_cap_reached edge_cap_reached raw_edge_cap_reached : KnowledgeOmissionReason
  edge_hint_too_long title_truncated last_updated_truncated : KnowledgeOmissionReason
  content_truncated duplicate_id folder_link_refused folder_name_rejected : KnowledgeOmissionReason

-- Equality of reasons, by their positions.
abbrev pub position : KnowledgeOmissionReason → ℕ
position node_cap_reached = 0
position response_size_cap_reached = 1
position file_too_large = 2
position file_unreadable = 3
position scan_entry_cap_reached = 4
position directory_depth_exceeded = 5
position discovered_file_cap_reached = 6
position edge_cap_reached = 7
position raw_edge_cap_reached = 8
position edge_hint_too_long = 9
position title_truncated = 10
position last_updated_truncated = 11
position content_truncated = 12
position duplicate_id = 13
position folder_link_refused = 14
position folder_name_rejected = 15

abbrev pub reason_eq : KnowledgeOmissionReason → KnowledgeOmissionReason → Bool
reason_eq a b = position a == position b

-- An omission; its detail is a fixed text of the reason.
pub record KnowledgeOmission : Type 0 where
  pub reason : KnowledgeOmissionReason
  pub count : ℕ
  pub examples : List Text

abbrev pub TruncationReport : Type 0
TruncationReport = List KnowledgeOmission

abbrev pub with_example : Option Text → List Text → List Text
with_example none examples = examples
with_example (some example) examples =
    if ltb (length examples) max_omission_examples && not (member example examples)
    then examples ++ example ∷ []
    else examples

abbrev pub counted : Option Text → KnowledgeOmission → KnowledgeOmission
counted example slot = record slot {
  count = slot.count + 1;
  examples = with_example example slot.examples;
}

-- The omission of the reason counts one more; the first of a reason goes to the end.
unfoldable pub record_omission :
    KnowledgeOmissionReason → Option Text → TruncationReport → TruncationReport
record_omission reason example [] =
    counted example record { reason = reason; count = 0; examples = [] } ∷ []
record_omission reason example (slot ∷ rest) =
    if reason_eq slot.reason reason
    then counted example slot ∷ rest
    else slot ∷ record_omission reason example rest

abbrev pub truncated : TruncationReport → Bool
truncated report = not (is_nil report)
