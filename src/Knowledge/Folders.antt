-- ===== src/Knowledge/Folders.antt =====
-- src-tauri/src/http/handlers/knowledge.rs: which folders are scanned. A folder is its name.
use hive_manager.Base.{
  ◌≡◌, refl, true, Option, none, some, List, [], ◌∷◌, ◌++◌, Text, text_eq_iff, member, All, is_nil,
  eq_ignore_ascii_case, if_both, if◌then◌else◌, arith,
}
use hive_manager.Knowledge.{trim}
use hive_manager.Knowledge.Scan.Bounded.{Fresh, Fresh-push}

-- The first folder that an entry names.
abbrev pub find_folder : Text → List Text → Option Text
find_folder name [] = none
find_folder name (f ∷ fs) =
    let later = find_folder name fs in if eq_ignore_ascii_case f name then some f else later

abbrev pub push_folder : List Text → Option Text → List Text
push_folder selected none = selected
push_folder selected (some folder) =
    if member folder selected then selected else selected ++ folder ∷ []

unfoldable pub select_folders : List Text → List Text → List Text → List Text
select_folders discovered [] selected = selected
select_folders discovered (raw ∷ rest) selected =
    let skipped = select_folders discovered rest selected in
    let pushed =
      select_folders discovered rest (push_folder selected (find_folder (trim raw) discovered)) in
    if is_nil (trim raw) then skipped else pushed

unfoldable pub resolve_wiki_folders_from : Option (List Text) → List Text → List Text
unfolding select_folders
resolve_wiki_folders_from none discovered = discovered
resolve_wiki_folders_from (some configured) discovered = select_folders discovered configured []

-- Every folder was discovered.
Discovered : List Text → List Text → Type 0
Discovered discovered selected = All (λ f. member f discovered ≡ true) selected

member-cons : (t x : Text) (ts : List Text) → member t ts ≡ true → member t (x ∷ ts) ≡ true
member-cons t x ts h = ground (arith, h)

Found : List Text → Option Text → Type 0
Found discovered none = Unit
Found discovered (some f) = member f discovered ≡ true

Found-cons : (f : Text) (fs : List Text) (o : Option Text) → Found fs o → Found (f ∷ fs) o
unfolding Found
Found-cons f fs none h = tt
Found-cons f fs (some g) h = member-cons g f fs h

find_folder-Found :
    (name : Text) (discovered : List Text) → Found discovered (find_folder name discovered)
unfolding Found
find_folder-Found name [] = tt
find_folder-Found name (f ∷ fs) =
    if_both (Found (f ∷ fs)) (eq_ignore_ascii_case f name)
      (λ _. ground (arith, (text_eq_iff f f).1 refl))
      (λ _. Found-cons f fs (find_folder name fs) (find_folder-Found name fs))

All-push : (P : Text → Type 0) (xs : List Text) (x : Text) → All P xs → P x → All P (xs ++ x ∷ [])
All-push P [] x a q = (q, tt)
All-push P (y ∷ xs) x (p, a) q = (p, All-push P xs x a q)

-- A selection: discovered folders, each once.
Selection : List Text → List Text → Type 0
unfolding Discovered
Selection discovered selected = Discovered discovered selected × Fresh [] selected

push_folder-Selection :
    (discovered selected : List Text) (o : Option Text)
    → Found discovered o
    → Selection discovered selected
    → Selection discovered (push_folder selected o)
unfolding Found Selection Discovered
push_folder-Selection discovered selected none h s = s
push_folder-Selection discovered selected (some f) h (d, u) =
    if_both (Selection discovered) (member f selected) (λ _. (d, u))
      (λ n.
        (All-push (λ g. member g discovered ≡ true) selected f d h, Fresh-push [] selected f u n))

select_folders-Selection :
    (discovered configured selected : List Text)
    → Selection discovered selected
    → Selection discovered (select_folders discovered configured selected)
unfolding select_folders
select_folders-Selection discovered [] selected s = s
select_folders-Selection discovered (raw ∷ rest) selected s =
    if_both (Selection discovered) (is_nil (trim raw))
      (λ _. select_folders-Selection discovered rest selected s)
      (λ _.
        select_folders-Selection discovered rest
          (push_folder selected (find_folder (trim raw) discovered))
          (push_folder-Selection discovered selected (find_folder (trim raw) discovered)
            (find_folder-Found (trim raw) discovered) s))

-- Configuration only narrows: whatever entries it has, the folders that are scanned were discovered
-- under the wiki's root, and none is scanned twice.
pub resolve_wiki_folders_from-narrows :
    (configured discovered : List Text)
    → All (λ f. member f discovered ≡ true) (resolve_wiki_folders_from (some configured) discovered)
      × Fresh [] (resolve_wiki_folders_from (some configured) discovered)
unfolding resolve_wiki_folders_from Selection Discovered Fresh
resolve_wiki_folders_from-narrows configured discovered =
    select_folders-Selection discovered configured [] (tt, tt)
