-- ===== src/Evaluation/Attacks/Hashes.antt =====
-- What equal hashed texts of rows say of the fields, for the rows that
-- evaluation/run_audit_attack_evaluation.py changes.
use mathlib.Core.List.{append_cancel_left, append_cancel_right}
use privacy_gateway_llm_appl.Prelude.{
  ℕ, Text, str, str_from, [], ◌∷◌, ◌++◌, ◌≡◌, ap, nat_eq, arith, ◌⊎◌, inl, inr,
}
use privacy_gateway_llm_appl.Audit.{bar, material}

abbrev first : Text → ℕ
first [] = 0
first (c ∷ s) = c

-- Rows with the same id and version that hash the same text.
same_after_version :
    (i : ℕ) (t t' j j' p p' : Text)
    → material i 2 t j p ≡ material i 2 t' j' p'
    → t ++ bar ∷ (j ++ bar ∷ p) ≡ t' ++ bar ∷ (j' ++ bar ∷ p')
unfolding material str
same_after_version i t t' j j' p p' e =
    let m = append_cancel_left (str i) _ _ e in
    let m' : str 2 ++ bar ∷ (t ++ bar ∷ (j ++ bar ∷ p))
        ≡ str 2 ++ bar ∷ (t' ++ bar ∷ (j' ++ bar ∷ p')) =
      cc in
    let m'' = append_cancel_left (str 2) _ _ m' in cc

pub same_payload : (i : ℕ) (t j j' p : Text) → material i 2 t j p ≡ material i 2 t j' p → j ≡ j'
same_payload i t j j' p e =
    let m = append_cancel_left t _ _ (same_after_version i t t j j' p p e) in
    let m' : j ++ bar ∷ p ≡ j' ++ bar ∷ p = cc in append_cancel_right j j' (bar ∷ p) m'

pub same_timestamp : (i : ℕ) (t t' j p : Text) → material i 2 t j p ≡ material i 2 t' j p → t ≡ t'
same_timestamp i t t' j p e =
    append_cancel_right t t' (bar ∷ (j ++ bar ∷ p)) (same_after_version i t t' j j p p e)

pub other_id :
    (i : ℕ) (t j p : Text) → (i ≡ 3) ⊎ (i ≡ 6) → material 2 2 t j p ≡ material i 2 t j p → ⊥
unfolding material str str_from
other_id i t j p (inl three) e = let m : ◌≡◌ {A = ℕ} 50 51 = ap first (rw three at e) in omega arith
other_id i t j p (inr six) e = let m : ◌≡◌ {A = ℕ} 50 54 = ap first (rw six at e) in omega arith
