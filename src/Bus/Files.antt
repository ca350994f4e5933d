-- ===== src/Bus/Files.antt =====
-- src-tauri/src/events/bus.rs: the bytes of a session's file. Those that were handed to it are on disk
-- or still to be written.
use hive_manager.Base.{ℕ, zero, suc, List, [], ◌∷◌, ◌++◌, String, Text, str_eq, if◌then◌else◌}

pub record SessionFile : Type 0 where
  pub disk : Text
  pub pending : Text

abbrev pub SessionFiles : Type 0
SessionFiles = List (String × SessionFile)

abbrev pub empty_file : SessionFile
empty_file = record { disk = []; pending = [] }

unfoldable pub file_of : String → SessionFiles → SessionFile
file_of session_id [] = empty_file
file_of session_id ((id, f) ∷ rest) = if str_eq id session_id then f else file_of session_id rest

unfoldable pub put_file : String → SessionFile → SessionFiles → SessionFiles
put_file session_id file [] = (session_id, file) ∷ []
put_file session_id file ((id, f) ∷ rest) =
    if str_eq id session_id then (id, file) ∷ rest else (id, f) ∷ put_file session_id file rest

-- The first bytes and the others.
unfoldable pub cut : ℕ → Text → Text × Text
cut zero t = ([], t)
cut (suc n) [] = ([], [])
cut (suc n) (c ∷ cs) = let parts = cut n cs in (c ∷ parts.0, parts.1)

-- The bytes are taken, and a number of those that are not on disk gets there.
unfoldable pub accept : ℕ → Text → SessionFile → SessionFile
unfolding cut
accept written bytes f =
    let parts = cut written (f.pending ++ bytes) in
    record { disk = f.disk ++ parts.0; pending = parts.1 }

-- A part of the bytes is taken, and what does not get on disk is lost.
unfoldable pub lose : ℕ → ℕ → Text → SessionFile → SessionFile
unfolding cut
lose written taken bytes f = record {
  disk = f.disk ++ (cut written (f.pending ++ (cut taken bytes).0)).0;
  pending = [];
}

-- All that was handed to the file and is not lost.
abbrev pub handed : SessionFile → Text
handed f = f.disk ++ f.pending
