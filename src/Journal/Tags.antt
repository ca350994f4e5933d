-- ===== src/Journal/Tags.antt =====
-- The stored tags, and the deterministic step ids.
use hive_manager.Base.{
  ℕ, ◌≡◌, refl, sym, ap, ◌∙◌, List, [], ◌∷◌, ◌++◌, String, codes, decimal, value-decimal,
  value_from, ◌==◌, if◌then◌else◌,
}
use hive_manager.Journal.{
  StepKind, worker_spawn, evaluator_spawn, git_commit, git_branch, file_write, task_injection,
  other, StepStatus, started, completed, failed, interrupted, unknown, skipped, Confidence, high,
  likely, uncertain, kind_tag, kind_of_tag, status_tag, status_of_tag, confidence_tag,
  confidence_from_tag, step_content, deterministic_step_id,
}

kind_roundtrip : (k : StepKind) → kind_of_tag (kind_tag k) ≡ k
unfolding kind_of_tag kind_tag
kind_roundtrip worker_spawn = refl
kind_roundtrip evaluator_spawn = refl
kind_roundtrip git_commit = refl
kind_roundtrip git_branch = refl
kind_roundtrip file_write = refl
kind_roundtrip task_injection = refl
kind_roundtrip other = refl

status_roundtrip : (s : StepStatus) → status_of_tag (status_tag s) ≡ s
unfolding status_of_tag status_tag
status_roundtrip started = refl
status_roundtrip completed = refl
status_roundtrip failed = refl
status_roundtrip interrupted = refl
status_roundtrip unknown = refl
status_roundtrip skipped = refl

confidence_roundtrip : (c : Confidence) → confidence_from_tag (confidence_tag c) ≡ c
unfolding confidence_from_tag confidence_tag
confidence_roundtrip high = refl
confidence_roundtrip likely = refl
confidence_roundtrip uncertain = refl

-- Every step kind, step status and confidence is read back from the tag that is stored for it.
pub tags_roundtrip :
    (k : StepKind) (s : StepStatus) (c : Confidence)
    → (kind_of_tag (kind_tag k) ≡ k)
      × (status_of_tag (status_tag s) ≡ s)
      × (confidence_from_tag (confidence_tag c) ≡ c)
tags_roundtrip k s c = (kind_roundtrip k, status_roundtrip s, confidence_roundtrip c)

abbrev drop_head : List ℕ → List ℕ
drop_head [] = []
drop_head (x ∷ r) = r

append_cancel : (xs ys zs : List ℕ) → xs ++ ys ≡ xs ++ zs → ys ≡ zs
append_cancel [] ys zs p = p
append_cancel (x ∷ xs) ys zs p = append_cancel xs ys zs (ap drop_head p)

-- The kind that a text beginning with its tag stands for.
abbrev kind_at : List ℕ → StepKind
kind_at (a ∷ b ∷ c ∷ d ∷ e ∷ r) =
    if a == b'w'
    then worker_spawn
    else if a == b'e'
    then evaluator_spawn
    else if a == b'g'
    then (if e == b'c' then git_commit else git_branch)
    else if a == b'f'
    then file_write
    else if a == b't'
    then task_injection
    else other
kind_at _ = other

-- What stands behind the first colon.
abbrev after_colon : List ℕ → List ℕ
after_colon [] = []
after_colon (c ∷ cs) = if c == b':' then cs else after_colon cs

kind_at-tag : (k : StepKind) (r : List ℕ) → kind_at (codes (kind_tag k) ++ b':' ∷ r) ≡ k
unfolding kind_tag
kind_at-tag worker_spawn r = refl
kind_at-tag evaluator_spawn r = refl
kind_at-tag git_commit r = refl
kind_at-tag git_branch r = refl
kind_at-tag file_write r = refl
kind_at-tag task_injection r = refl
kind_at-tag other r = refl

after_colon-tag : (k : StepKind) (r : List ℕ) → after_colon (codes (kind_tag k) ++ b':' ∷ r) ≡ r
unfolding kind_tag
after_colon-tag worker_spawn r = refl
after_colon-tag evaluator_spawn r = refl
after_colon-tag git_commit r = refl
after_colon-tag git_branch r = refl
after_colon-tag file_write r = refl
after_colon-tag task_injection r = refl
after_colon-tag other r = refl

-- If the UUID of a text determines the text, two steps of one run with one deterministic step id
-- have the same kind and ordinal.
pub step_id_injective :
    (uuid : List ℕ → String) (run_id : String) (k k' : StepKind) (n n' : ℕ)
    → ((xs ys : List ℕ) → uuid xs ≡ uuid ys → xs ≡ ys)
    → deterministic_step_id uuid run_id k n ≡ deterministic_step_id uuid run_id k' n'
    → (k ≡ k') × (n ≡ n')
unfolding deterministic_step_id step_content
step_id_injective uuid run_id k k' n n' distinct same = (
  sym (kind_at-tag k (decimal n)) ∙ ap kind_at tail ∙ kind_at-tag k' (decimal n'),
  sym (value-decimal n) ∙ ap (value_from 0) digits ∙ value-decimal n',
)
  where
    tail : codes (kind_tag k) ++ b':' ∷ decimal n ≡ codes (kind_tag k') ++ b':' ∷ decimal n'
    tail = ap drop_head (append_cancel (codes run_id) _ _ (distinct _ _ same))

    digits : decimal n ≡ decimal n'
    digits =
        sym (after_colon-tag k (decimal n)) ∙ ap after_colon tail ∙ after_colon-tag k' (decimal n')
