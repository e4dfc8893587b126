-- ===== src/Prelude/Decimal.antt =====
-- `str(n)` of a natural number: its decimal digits, most significant first.
use Prim.Native.Nat.{ℕ, zero, suc, ◌+◌, ◌-◌, ◌*◌, ◌/◌, ◌%◌, ◌<◌, ◌≤◌}
use mathlib.Core.Path.{◌≡◌, refl, ap, sym, ◌∙◌}
use mathlib.Core.Logic.{◌≢◌, inl, inr}
use mathlib.Core.List.{[], ◌∷◌, ◌++◌}
use native.Mathlib.Omega.{arith}
use privacy_gateway_llm_appl.Prelude.Tests.{ltb, if◌then◌else◌, Bool-cases}
use privacy_gateway_llm_appl.Prelude.Lists.{All, All-append}
use privacy_gateway_llm_appl.Prelude.Texts.{Text}

unfoldable pub str_from : ℕ → ℕ → Text
str_from zero n = []
str_from (suc fuel) n =
    let higher = str_from fuel (n / 10) in
    if ltb n 10 then (48 + n) ∷ [] else higher ++ (48 + n % 10) ∷ []

unfoldable pub str : ℕ → Text
unfolding str_from
str n = str_from (suc n) n

-- The number that a list of digits denotes.
value_from : ℕ → Text → ℕ
value_from acc [] = acc
value_from acc (d ∷ ds) = value_from (acc * 10 + (d - 48)) ds

value_from-append :
    (acc : ℕ) (xs : Text) (d : ℕ)
    → value_from acc (xs ++ d ∷ []) ≡ value_from acc xs * 10 + (d - 48)
unfolding value_from
value_from-append acc [] d = refl
value_from-append acc (x ∷ xs) d = value_from-append (acc * 10 + (x - 48)) xs d

value_from-str_from : (fuel n : ℕ) → n < fuel → value_from 0 (str_from fuel n) ≡ n
unfolding str_from value_from
value_from-str_from zero n h = elim h [ ]
value_from-str_from (suc fuel) n h = elim (Bool-cases (ltb n 10)) [
  | inl one ↦ rw one (omega arith)
  | inr more ↦ rw (more, value_from-append) (ground (arith, value_from-str_from fuel (n / 10)))
]

pub str-injective : (m n : ℕ) → str m ≡ str n → m ≡ n
unfolding str
str-injective m n e =
    sym (value_from-str_from (suc m) m (omega arith))
    ∙ ap (value_from 0) e
    ∙ value_from-str_from (suc n) n (omega arith)

-- What holds of every digit holds of the whole numeral.
module _ (P : ℕ → Type 0) (digit : (d : ℕ) → 48 ≤ d → d ≤ 57 → P d) where
  All-str_from : (fuel n : ℕ) → All P (str_from fuel n)
  unfolding str_from
  All-str_from zero n = tt
  All-str_from (suc fuel) n = elim (Bool-cases (ltb n 10)) [
    | inl one ↦ rw one (digit (48 + n) (omega arith) (ground arith), tt)
    | inr more ↦ rw more (
        All-append P _ _ (All-str_from fuel (n / 10))
          (digit (48 + n % 10) (omega arith) (omega arith), tt))
  ]

  pub All-str : (n : ℕ) → All P (str n)
  unfolding str
  All-str n = All-str_from (suc n) n

append-ne-nil : (s : Text) (d : ℕ) → s ++ d ∷ [] ≢ []
append-ne-nil [] d = cc
append-ne-nil (c ∷ s) d = cc

pub str-ne-nil : (n : ℕ) → str n ≢ []
unfolding str str_from
str-ne-nil n = elim (Bool-cases (ltb n 10)) [
  | inl one ↦ rw one (cc)
  | inr more ↦ rw more (append-ne-nil _ _)
]
