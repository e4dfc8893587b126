-- ===== src/Policy/Extremes.antt =====
-- The least and the greatest of the scores that gateway/policy.py reports.
use privacy_gateway_llm_appl.Prelude.{
  ℕ, ◌≤◌, List, [], ◌∷◌, ◌≡◌, ◌⊎◌, inl, inr, refl, sym, ◌∙◌, All, text_eq, min, max, arith,
}
use privacy_gateway_llm_appl.Policy.{least, greatest}

pub least-le : (x y : ℕ) (xs : List ℕ) → x ≤ y → least x xs ≤ y
least-le x y [] h = h
least-le x y (z ∷ xs) h = least-le (min x z) y xs (omega arith)

pub le-greatest : (x y : ℕ) (xs : List ℕ) → y ≤ x → y ≤ greatest x xs
le-greatest x y [] h = h
le-greatest x y (z ∷ xs) h = le-greatest (max x z) y xs (omega arith)

pub least_bounds : (x : ℕ) (xs : List ℕ) → All (λ s. least x xs ≤ s) xs
least_bounds x [] = tt
least_bounds x (y ∷ xs) = (least-le (min x y) y xs (omega arith), least_bounds (min x y) xs)

pub greatest_bounds : (x : ℕ) (xs : List ℕ) → All (λ s. s ≤ greatest x xs) xs
greatest_bounds x [] = tt
greatest_bounds x (y ∷ xs) =
    (le-greatest (max x y) y xs (omega arith), greatest_bounds (max x y) xs)

pub All-both : (P Q : ℕ → Type 0) (xs : List ℕ) → All P xs → All Q xs → All (λ s. P s × Q s) xs
All-both P Q [] h k = tt
All-both P Q (x ∷ xs) (h, hs) (k, ks) = ((h, k), All-both P Q xs hs ks)

-- A score is one of the list.
abbrev pub Among : ℕ → List ℕ → Type 0
Among a [] = ⊥
Among a (x ∷ xs) = (x ≡ a) ⊎ Among a xs

Among-first :
    (pick : ℕ → ℕ → ℕ) (x y a : ℕ) (xs : List ℕ)
    → (pick x y ≡ x) ⊎ (pick x y ≡ y)
    → Among a (pick x y ∷ xs)
    → Among a (x ∷ y ∷ xs)
Among-first pick x y a xs chosen (inr later) = inr (inr later)
Among-first pick x y a xs (inl one) (inl first) = inl (sym one ∙ first)
Among-first pick x y a xs (inr two) (inl first) = inr (inl (sym two ∙ first))

min-cases : (x y : ℕ) → (min x y ≡ x) ⊎ (min x y ≡ y)
min-cases x y = ground arith

max-cases : (x y : ℕ) → (max x y ≡ x) ⊎ (max x y ≡ y)
max-cases x y = ground arith

-- The least and the greatest of some scores are among them.
pub least-Among : (x : ℕ) (xs : List ℕ) → Among (least x xs) (x ∷ xs)
least-Among x [] = inl refl
least-Among x (y ∷ xs) = Among-first min x y _ xs (min-cases x y) (least-Among (min x y) xs)

pub greatest-Among : (x : ℕ) (xs : List ℕ) → Among (greatest x xs) (x ∷ xs)
greatest-Among x [] = inl refl
greatest-Among x (y ∷ xs) = Among-first max x y _ xs (max-cases x y) (greatest-Among (max x y) xs)
