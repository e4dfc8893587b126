-- ===== src/Evaluation/Spans.antt =====
-- _spans_of of evaluation/run_detection_evaluation.py finds a value at each of its places in a text.
use mathlib.Core.List.{append_assoc}
use privacy_gateway_llm_appl.Prelude.{
  ℕ, zero, suc, ◌+◌, ◌<◌, Text, List, [], ◌∷◌, ◌++◌, none, ◌≡◌, refl, sym, ap, ◌∙◌, if◌then◌else◌,
  length, length-append, drop, Bool-cases, inl, inr, arith,
}
use privacy_gateway_llm_appl.Evaluation.{starts_with, find_in, find, spans_loop, spans_of}

-- The spans of a value in the rest of a text, place by place.
unfoldable pub places : ℕ → Text → Text → List (ℕ × ℕ)
places start [] value = if starts_with [] value then (start, start + length value) ∷ [] else []
places start (c ∷ rest) value =
    let more = places (start + 1) rest value in
    if starts_with (c ∷ rest) value then (start, start + length value) ∷ more else more

drop_prefix : (before rest : Text) → drop (length before) (before ++ rest) ≡ rest
drop_prefix [] rest = refl
drop_prefix (c ∷ before) rest = drop_prefix before rest

find_rest :
    (text before rest value : Text) (n : ℕ)
    → text ≡ before ++ rest
    → n ≡ length before
    → find text value n ≡ find_in value rest n
unfolding find
find_rest text before rest value n e same =
    rw (e, same, drop_prefix before rest) (ground (arith, length-append before rest))

find_past : (text value : Text) (n : ℕ) → length text < n → find text value n ≡ none
unfolding find
find_past text value n h = ground arith

spans_loop-places :
    (text before rest value : Text) (fuel start : ℕ)
    → text ≡ before ++ rest
    → start ≡ length before
    → length rest < fuel
    → spans_loop fuel text value (find_in value rest start) ≡ places start rest value
unfolding spans_loop find_in places
spans_loop-places text before rest value zero start e same h = elim h [ ]
spans_loop-places text before [] value (suc fuel) start e same h =
    elim (Bool-cases (starts_with [] value)) [
      | inl here ↦
          rw
            (
              here,
              find_past text value (start + 1)
                  (rw e (omega (arith, same, length-append before []))),
            )
            refl
      | inr missing ↦ rw missing refl
    ]
spans_loop-places text before (c ∷ rest) value (suc fuel) start e same h =
    let e' : text ≡ (before ++ c ∷ []) ++ rest = e ∙ sym (append_assoc before (c ∷ []) rest) in
    let same' : start + 1 ≡ length (before ++ c ∷ []) =
      omega (arith, same, length-append before (c ∷ [])) in
    elim (Bool-cases (starts_with (c ∷ rest) value)) [
      | inl here ↦
          rw (here, find_rest text (before ++ c ∷ []) rest value (start + 1) e' same')
            (ap (λ l. (start, start + length value) ∷ l)
              (spans_loop-places text (before ++ c ∷ []) rest value fuel (start + 1) e' same'
                (omega arith)))
      | inr missing ↦ rw missing (
          spans_loop-places text (before ++ c ∷ []) rest value (suc fuel) (start + 1) e' same'
            (omega arith))
    ]

-- The fuel of spans_of is enough.
pub spans_of-places : (text value : Text) → spans_of text value ≡ places 0 text value
unfolding spans_of
spans_of-places text value =
    rw (find_rest text [] text value 0 refl refl)
      (spans_loop-places text [] text value (length text + 1) 0 refl refl (omega arith))
