-- ===== src/Evaluation/Tallies.antt =====
-- The overall counts of evaluation/run_detection_evaluation.py against a description that has no loop
-- state: hits and misses of the labelled entities, and the detections that no entity accounts for.
use privacy_gateway_llm_appl.Prelude.{
  ℕ, ◌+◌, Text, List, [], ◌∷◌, Option, some, Bool, not, ◌≡◌, refl, sym, ap, ◌∙◌, subst, nat_eq,
  text_eq, ◌==◌, if◌then◌else◌, lookup, insert, Bool-cases, inl, inr, arith,
}
use privacy_gateway_llm_appl.Errors.{Result, ok, ◌>>=◌}
use privacy_gateway_llm_appl.Mediator.{RecognizerResult, PiiMediator, analyze}
use privacy_gateway_llm_appl.Evaluation.{
  Entity, Case, any, detects, Counts, CountKey, true_positive, false_positive, false_negative,
  zero_counts, increment, Counters, counts_or_zero, bump, add_counts, overall,
}
use privacy_gateway_llm_appl.Evaluation.Spans.{places}

-- Whether a detection accounts for an entity.
abbrev pub Matching : Type 0
Matching = Entity → RecognizerResult → Bool

abbrev pub count_if {ℓ} : {A : Type ℓ} → (A → Bool) → List A → ℕ
count_if test [] = 0
count_if test (x ∷ xs) = (if test x then 1 else 0) + count_if test xs

-- The entities that some detection accounts for, the detections that account for no entity, and the
-- entities that no detection accounts for.
abbrev pub tally : Matching → List Entity → List RecognizerResult → Counts
tally matches es dets = record {
  tp = count_if (λ e. any (matches e) dets) es;
  fp = count_if (λ det. not (any (λ e. matches e det) es)) dets;
  fn = count_if (λ e. not (any (matches e) dets)) es;
}

-- The detection has the entity's type, and overlaps a place of its value in the text.
abbrev pub accounts_for : Text → Matching
accounts_for text e det = detects (places 0 text e.value) e.type det

-- The counts of all cases, or what analyze raises.
unfoldable pub tally_all : PiiMediator → List Case → Result Counts
tally_all m [] = ok zero_counts
tally_all m (c ∷ cases) = analyze m c.text >>= λ dets.
    tally_all m cases >>= λ rest. ok (add_counts (tally (accounts_for c.text) c.entities dets) rest)

pub Counts-eq : (a b : Counts) → a.tp ≡ b.tp → a.fp ≡ b.fp → a.fn ≡ b.fn → a ≡ b
Counts-eq a b e f g = λ i. record { tp = e i; fp = f i; fn = g i }

add_counts-increment :
    (key : CountKey) (a b : Counts)
    → (add_counts (increment key a) b ≡ increment key (add_counts a b))
      × (add_counts a (increment key b) ≡ increment key (add_counts a b))
add_counts-increment true_positive a b =
    (Counts-eq _ _ (omega arith) refl refl, Counts-eq _ _ (omega arith) refl refl)
add_counts-increment false_positive a b =
    (Counts-eq _ _ refl (omega arith) refl, Counts-eq _ _ refl (omega arith) refl)
add_counts-increment false_negative a b =
    (Counts-eq _ _ refl refl (omega arith), Counts-eq _ _ refl refl (omega arith))

pub add_counts-zero : (a : Counts) → add_counts a zero_counts ≡ a
add_counts-zero a = Counts-eq _ _ (omega arith) (omega arith) (omega arith)

pub add_counts_swap :
    (a b c : Counts) → add_counts a (add_counts b c) ≡ add_counts (add_counts b a) c
add_counts_swap a b c = Counts-eq _ _ (omega arith) (omega arith) (omega arith)

pub zero-add_counts : (a : Counts) → add_counts zero_counts a ≡ a
zero-add_counts a = Counts-eq _ _ (omega arith) (omega arith) (omega arith)

overall-insert :
    (type : Text) (key : CountKey) (held : Option Counts) (counters : Counters)
    → lookup type counters ≡ held
    → overall (insert type (increment key (counts_or_zero held)) counters)
      ≡ increment key (overall counters)
unfolding overall insert lookup
overall-insert type key held [] e =
    subst
      (λ o. add_counts (increment key (counts_or_zero o)) zero_counts ≡ increment key zero_counts) e
      (add_counts-zero (increment key zero_counts))
overall-insert type key held ((k, c) ∷ counters) e = elim (Bool-cases (k == type)) [
  | inl same ↦
      let e' : some c ≡ held = rw same at e in
      rw (same, sym e') (add_counts-increment key c (overall counters)).0
  | inr other ↦
      let e' : lookup type counters ≡ held = rw other at e in
      rw other (
        ap (add_counts c) (overall-insert type key held counters e')
        ∙ (add_counts-increment key c (overall counters)).1)
]

-- bump adds one to the sums.
pub overall-bump :
    (type : Text) (key : CountKey) (counters : Counters)
    → overall (bump type key counters) ≡ increment key (overall counters)
unfolding bump
overall-bump type key counters = overall-insert type key _ counters refl
