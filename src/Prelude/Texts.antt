-- ===== src/Prelude/Texts.antt =====
-- Texts as lists of Unicode code points: equality, and splitting at the first or last separator.
use Prim.Native.Nat.{ℕ}
use Prim.Native.Char.{code}
use Prim.Native.String.{String}
use mathlib.Core.Path.{◌≡◌, refl}
use mathlib.Core.Logic.{◌↔◌, ◌⊎◌, ◌≢◌, inl, inr}
use mathlib.Core.Bool.{Bool, true, false, ◌&&◌}
use mathlib.Core.List.{List, [], ◌∷◌, ◌++◌}
use native.Mathlib.Omega.{arith}
use privacy_gateway_llm_appl.Prelude.Tests.{nat_beq, Bool-cases, Comparable}
use privacy_gateway_llm_appl.Prelude.Lists.{All}

-- A Python `str`, one number for each code point.
abbrev pub Text : Type 0
Text = List ℕ

-- The code points of a literal. `String` has its own `[]` and `∷`.
abbrev pub codes : String → Text
codes String.[] = []
codes (String.◌∷◌ c s) = code c ∷ codes s

unfoldable pub text_beq : Text → Text → Bool
text_beq [] [] = true
text_beq (a ∷ s) (b ∷ t) = nat_beq a b && text_beq s t
text_beq _ _ = false

pub text_beq_iff : (s t : Text) → (text_beq s t ≡ true) ↔ (s ≡ t)
unfolding text_beq
text_beq_iff [] [] = ground arith
text_beq_iff [] (b ∷ t) = ground arith
text_beq_iff (a ∷ s) [] = ground arith
text_beq_iff (a ∷ s) (b ∷ t) = ground (arith, text_beq_iff s t)

instance abbrev pub text_eq : Comparable Text
text_eq = record { test = text_beq; test_iff = text_beq_iff }

pub Text-cases : (s t : Text) → (s ≡ t) ⊎ (s ≢ t)
Text-cases s t = elim (Bool-cases (text_beq s t)) [
  | inl same ↦ inl ((text_beq_iff s t).0 same)
  | inr other ↦ inr (λ e. grind (arith, (text_beq_iff s t).1 e))
]

-- A separator in the middle of a text that holds none.
not_inside : (sep : ℕ) (xs ys : Text) → ¬ (All (λ c. c ≢ sep) (xs ++ sep ∷ ys))
not_inside sep [] ys (h, _) = h refl
not_inside sep (x ∷ xs) ys (_, h) = not_inside sep xs ys h

-- What follows the last separator is determined, and so is what precedes it.
pub last_split :
    (sep : ℕ) (xs ys ds es : Text)
    → All (λ c. c ≢ sep) ds
    → All (λ c. c ≢ sep) es
    → xs ++ sep ∷ ds ≡ ys ++ sep ∷ es
    → (xs ≡ ys) × (ds ≡ es)
last_split sep [] [] ds es hd he e = (refl, cc)
last_split sep [] (y ∷ ys) ds es hd he e =
    absurd (not_inside sep ys es (rw (let t : ds ≡ ys ++ sep ∷ es = cc in t) at hd))
last_split sep (x ∷ xs) [] ds es hd he e =
    absurd (not_inside sep xs ds (rw (let t : es ≡ xs ++ sep ∷ ds = cc in t) at he))
last_split sep (x ∷ xs) (y ∷ ys) ds es hd he e =
    let t : xs ++ sep ∷ ds ≡ ys ++ sep ∷ es = cc in
    let (p, q) = last_split sep xs ys ds es hd he t in (cc, q)

-- What precedes the first separator is determined, and so is what follows it.
pub first_split :
    (sep : ℕ) (xs ys s t : Text)
    → All (λ c. c ≢ sep) xs
    → All (λ c. c ≢ sep) ys
    → xs ++ sep ∷ s ≡ ys ++ sep ∷ t
    → (xs ≡ ys) × (s ≡ t)
first_split sep [] [] s t hx hy e = (refl, cc)
first_split sep [] (y ∷ ys) s t hx hy e = absurd (hy.0 cc)
first_split sep (x ∷ xs) [] s t hx hy e = absurd (hx.0 cc)
first_split sep (x ∷ xs) (y ∷ ys) s t hx hy e =
    let (p, q) = first_split sep xs ys s t hx.1 hy.1 cc in (cc, q)
