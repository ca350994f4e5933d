-- ===== src/Knowledge/Report.antt =====
-- src-tauri/src/http/handlers/knowledge.rs: what is known of a report.
use hive_manager.Base.{
  ℕ, ◌+◌, ==_iff, ◌≡◌, ◌≤◌, refl, ap, ◌∙◌, Bool, true, false, not, ◌&&◌, Option, none, some, List,
  [], ◌∷◌, ◌++◌, All, Text, member, length, ltb, if_both, if◌then◌else◌, arith,
}
use hive_manager.Knowledge.{
  KnowledgeOmissionReason, position, reason_eq, KnowledgeOmission, TruncationReport,
  max_omission_examples, counted, record_omission,
}

-- The sum of the counts of the reasons that pass a test.
abbrev pub total : (ℕ → Bool) → TruncationReport → ℕ
total p [] = 0
total p (o ∷ report) = (if p (position o.reason) then o.count else 0) + total p report

one_more :
    (b : Bool) (c n : ℕ)
    → (if b then c + 1 else 0) + n ≡ (if b then c else 0) + n + (if b then 1 else 0)
one_more true c n = omega arith
one_more false c n = omega arith

-- Recording adds one to the total of every test that the reason passes, and to no other.
pub total-record :
    (p : ℕ → Bool) (reason : KnowledgeOmissionReason) (example : Option Text)
    (report : TruncationReport)
    → total p (record_omission reason example report)
      ≡ total p report + (if p (position reason) then 1 else 0)
unfolding record_omission
total-record p reason example [] = omega arith
total-record p reason example (slot ∷ rest) =
    if_both (λ r. total p r ≡ total p (slot ∷ rest) + (if p (position reason) then 1 else 0))
      (reason_eq slot.reason reason)
      (λ e.
        one_more (p (position slot.reason)) slot.count (total p rest)
        ∙ ap (λ n. total p (slot ∷ rest) + (if p n then 1 else 0)) ((==_iff _ _).0 e))
      (λ _. omega (arith, total-record p reason example rest))

-- An omission that counts something, with few examples and no more than it counts.
pub record GoodOmission (o : KnowledgeOmission) : Type 0 where
  pub counts : 1 ≤ o.count
  pub few : length o.examples ≤ max_omission_examples
  pub covered : length o.examples ≤ o.count

length-push : (xs : List Text) (x : Text) → length (xs ++ x ∷ []) ≡ length xs + 1
length-push [] x = refl
length-push (y ∷ xs) x = omega (arith, length-push xs x)

counted-GoodOmission :
    (example : Option Text) (o : KnowledgeOmission)
    → length o.examples ≤ max_omission_examples
    → length o.examples ≤ o.count
    → GoodOmission (counted example o)
counted-GoodOmission none o h k = record {
  counts = omega arith;
  few = h;
  covered = omega (arith, k);
}
counted-GoodOmission (some t) o h k =
    if_both (λ es. GoodOmission (record o { count = o.count + 1; examples = es }))
      (ltb (length o.examples) max_omission_examples && not (member t o.examples))
      (λ e. record {
        counts = omega arith;
        few = ground (arith, e, length-push o.examples t);
        covered = omega (arith, k, length-push o.examples t);
      })
      (λ _. record { counts = omega arith; few = h; covered = omega (arith, k) })

-- Every report made by recording has omissions that count something, each with at most five
-- examples and no more examples than it counts.
pub record_omission-GoodOmission :
    (reason : KnowledgeOmissionReason) (example : Option Text) (report : TruncationReport)
    → All GoodOmission report
    → All GoodOmission (record_omission reason example report)
unfolding record_omission
record_omission-GoodOmission reason example [] a = (
  counted-GoodOmission example record { reason = reason; count = 0; examples = [] } (omega arith)
      (omega arith),
  tt,
)
record_omission-GoodOmission reason example (slot ∷ rest) (g, a) =
    if_both (All GoodOmission) (reason_eq slot.reason reason)
      (λ _. (counted-GoodOmission example slot g.few g.covered, a))
      (λ _. (g, record_omission-GoodOmission reason example rest a))
