-- ===== src/Anonymizer.antt =====
-- What gateway/pii_mediator.py relies on of Presidio's anonymizer: the text falls into stretches that
-- are kept and spans that are replaced by what the operator of their entity type returns.
use privacy_gateway_llm_appl.Prelude.{Text, List, [], ◌∷◌, ◌++◌}

pub data Segment : Type 0 where
  kept : Text → Segment
  span : (entity_type value : Text) → Segment

-- The text that the segments are taken from.
abbrev pub original : List Segment → Text
original [] = []
original (kept p ∷ segs) = p ++ original segs
original (span e v ∷ segs) = v ++ original segs

module _ {S : Type 0} (operator : Text → Text → S → Text × S) where
  -- The operators are run for each span, in whatever order, and their results take the spans' places;
  -- they may be run on other values too, as a test of the operator does, whose results are dropped: `Rendered segs s out s'` has the output, and the operators' state before and after.
  pub data Rendered : List Segment → S → Text → S → Type 0 where
    nil : {s : S} → Rendered [] s [] s
    keep :
        {p : Text} {segs : List Segment} {s s' : S} {out : Text}
        → Rendered segs s out s'
        → Rendered (kept p ∷ segs) s (p ++ out) s'
    replace_first :
        {e v : Text} {segs : List Segment} {s s' : S} {out : Text}
        → Rendered segs (operator e v s).1 out s'
        → Rendered (span e v ∷ segs) s ((operator e v s).0 ++ out) s'
    replace_last :
        {e v : Text} {segs : List Segment} {s s' : S} {out : Text}
        → Rendered segs s out s'
        → Rendered (span e v ∷ segs) s ((operator e v s').0 ++ out) (operator e v s').1
    test_first :
        {e v : Text} {segs : List Segment} {s s' : S} {out : Text}
        → Rendered segs (operator e v s).1 out s'
        → Rendered segs s out s'
    test_last :
        {e v : Text} {segs : List Segment} {s s' : S} {out : Text}
        → Rendered segs s out s'
        → Rendered segs s out (operator e v s').1
