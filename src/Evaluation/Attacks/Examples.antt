-- ===== src/Evaluation/Attacks/Examples.antt =====
-- The script of evaluation/run_audit_attack_evaluation.py with hashes that write each code point in unary
-- digits, on a free database and a steady clock.
use privacy_gateway_llm_appl.Prelude.{
  ℕ, zero, suc, Text, codes, [], ◌∷◌, ◌++◌, Option, none, some, ◌≡◌, ◌≢◌, refl, ap, All, inl, inr,
  first_split, arith, ◌⊎◌, sym, ◌==◌, nat_eq, if◌then◌else◌, All-append,
}
use privacy_gateway_llm_appl.Errors.{Result, ok}
use privacy_gateway_llm_appl.Audit.{Library, Row, mac, compute_record_hash}
use privacy_gateway_llm_appl.Audit.Append.{new_row}
use privacy_gateway_llm_appl.Audit.Pinned.{NoCollision}
use privacy_gateway_llm_appl.Audit.Chain.{IsHex}
use privacy_gateway_llm_appl.Evaluation.Attacks.{
  logger, attack_key, different_key, Note, Bench, all_f, forged, numbered_note, main,
}
use privacy_gateway_llm_appl.Evaluation.Attacks.Benches.{IsDocumented, MeetsNoCollision, IsCalm}
use privacy_gateway_llm_appl.Evaluation.Attacks.Limits.{main-all_ok}

-- `c` times "1", then "0"
abbrev unary : ℕ → Text → Text
unary zero rest = b'0' ∷ rest
unary (suc c) rest = b'1' ∷ unary c rest

abbrev digits : Text → Text
digits [] = []
digits (c ∷ s) = unary c (digits s)

abbrev keyed : Text → Text → Text
keyed key m = digits key ++ b'f' ∷ digits m

-- A text with a mark in front of each code point and at its end, then another.
abbrev marked : Text → Text → Text
marked [] rest = 0 ∷ rest
marked (c ∷ s) rest = 1 ∷ c ∷ marked s rest

abbrev put_first : ℕ → Text × Text → Text × Text
put_first c (front, rest) = (c ∷ front, rest)

abbrev unmarked : Text → Text × Text
unmarked [] = ([], [])
unmarked (zero ∷ rest) = ([], rest)
unmarked (suc _ ∷ []) = ([], [])
unmarked (suc _ ∷ c ∷ s) = put_first c (unmarked s)

abbrev print_with : Option Text → Text → Text
print_with none text = b'n' ∷ text
print_with (some r) text = b's' ∷ marked r text

-- Read back what `printed` writes.
abbrev note_with : Text × Text → Note
note_with (r, text) = record { request_id = some r; note = text }

abbrev parsed : Text → Result Note
parsed [] = ok (record { request_id = none; note = [] })
parsed (c ∷ s) =
    if c == b'n' then ok (record { request_id = none; note = s }) else ok (note_with (unmarked s))

abbrev unary_library : Library Note
unary_library = record {
  sha256_hex = digits;
  hmac_hex = keyed;
  dumps = λ p. print_with p.request_id p.note;
  loads = parsed;
}

abbrev steady_bench : Bench
steady_bench = record {
  library = unary_library;
  env = λ name i. record {
    attempt = λ k. record { now = codes "t1"; failure = none };
    saved_at = codes "t1";
    save_failure = none;
  };
  now = λ name. codes "t2";
}

unmarked-marked : (s rest : Text) → unmarked (marked s rest) ≡ (s, rest)
unmarked-marked [] rest = refl
unmarked-marked (c ∷ s) rest = rw (unmarked-marked s rest) refl

parsed-print_with :
    (r : Option Text) (text : Text)
    → parsed (print_with r text) ≡ ok (record { request_id = r; note = text })
parsed-print_with none text = refl
parsed-print_with (some r) text = rw (unmarked-marked r text) refl

abbrev first : Text → ℕ
first [] = 0
first (c ∷ s) = c

-- What `print_with` writes starts with "n" or "s".
first-print_with :
    (r : Option Text) (text : Text)
    → (first (print_with r text) ≡ 110) ⊎ (first (print_with r text) ≡ 115)
first-print_with none text = inl refl
first-print_with (some r) text = inr refl

other_first : (r : Option Text) (text s : Text) → first s ≡ 123 → print_with r text ≢ s
other_first r text s brace e = elim (first-print_with r text) [
  | inl n ↦ grind (arith, ap first e)
  | inr n ↦ grind (arith, ap first e)
]

unary-IsHex : (c : ℕ) (rest : Text) → All IsHex rest → All IsHex (unary c rest)
unary-IsHex zero rest h = (inl (omega arith, omega arith), h)
unary-IsHex (suc c) rest h = (inl (omega arith, omega arith), unary-IsHex c rest h)

digits-IsHex : (m : Text) → All IsHex (digits m)
digits-IsHex [] = tt
digits-IsHex (c ∷ s) = unary-IsHex c (digits s) (digits-IsHex s)

unary_not_f : (c : ℕ) (rest : Text) → All (λ d. d ≢ b'f') rest → All (λ d. d ≢ b'f') (unary c rest)
unary_not_f zero rest h = (λ e. omega arith, h)
unary_not_f (suc c) rest h = (λ e. omega arith, unary_not_f c rest h)

digits_not_f : (m : Text) → All (λ d. d ≢ b'f') (digits m)
digits_not_f [] = tt
digits_not_f (c ∷ s) = unary_not_f c (digits s) (digits_not_f s)

unary_injective : (c d : ℕ) (s t : Text) → unary c s ≡ unary d t → (c ≡ d) × (s ≡ t)
unary_injective zero zero s t e = (refl, cc)
unary_injective zero (suc d) s t e = absurd (let h : ◌≡◌ {A = ℕ} 48 49 = ap first e in omega arith)
unary_injective (suc c) zero s t e = absurd (let h : ◌≡◌ {A = ℕ} 49 48 = ap first e in omega arith)
unary_injective (suc c) (suc d) s t e = let (p, q) = unary_injective c d s t cc in (ap suc p, q)

unary-ne : (c : ℕ) (s : Text) → unary c s ≢ []
unary-ne zero s e = cc
unary-ne (suc c) s e = cc

digits_injective : (m m' : Text) → digits m ≡ digits m' → m ≡ m'
digits_injective [] [] e = refl
digits_injective [] (d ∷ t) e = absurd (unary-ne d (digits t) (sym e))
digits_injective (c ∷ s) [] e = absurd (unary-ne c (digits s) e)
digits_injective (c ∷ s) (d ∷ t) e =
    let (p, q) = unary_injective c d (digits s) (digits t) e in
    let rest = digits_injective s t q in cc

digits-hash_not_f : (m : Text) → digits m ≢ all_f
digits-hash_not_f m e = (rw e at (digits_not_f m)).0 refl

documented : IsDocumented unary_library
documented = record {
  sha256_hex = digits-IsHex;
  hmac_hex = λ key m.
      All-append IsHex (digits key) (b'f' ∷ digits m) (digits-IsHex key)
        (inr (omega arith, omega arith), digits-IsHex m);
  reads_back = λ p. parsed-print_with p.request_id p.note;
  has_keys = λ p. other_first p.request_id p.note (codes "{}") refl;
  not_forged = λ i. other_first (numbered_note i).request_id (numbered_note i).note forged refl;
}

keyed_split :
    (key key' m m' : Text)
    → unary_library.hmac_hex key m ≡ unary_library.hmac_hex key' m'
    → (key ≡ key') × (m ≡ m')
keyed_split key key' m m' e =
    let (p, q) =
      first_split b'f' (digits key) (digits key') (digits m) (digits m') (digits_not_f key)
        (digits_not_f key') e in
    (digits_injective key key' p, digits_injective m m' q)

two_rows-NoCollision : (r r' : Row) → NoCollision (logger steady_bench) r r'
unfolding mac
two_rows-NoCollision r r' = record {
  sha256 = digits_injective _ _;
  hmac = λ e. (keyed_split attack_key attack_key r.record_hash r'.record_hash e).1;
}

free : MeetsNoCollision steady_bench
unfolding mac new_row compute_record_hash
free = record {
  content = two_rows-NoCollision _ _;
  timestamp = two_rows-NoCollision _ _;
  order = two_rows-NoCollision _ _;
  copy = two_rows-NoCollision _ _;
  rehash = two_rows-NoCollision _ _;
  keys = λ e. (keyed_split different_key attack_key _ _ e).0;
  prev_hash = digits-hash_not_f _;
}

calm : IsCalm steady_bench
calm = record {
  free = λ name i. refl;
  saves = λ name i. refl;
  clock = λ name i e. let h : ◌≡◌ {A = ℕ} 116 50 = ap first e in omega arith;
}

main-all_ok_example : main steady_bench ≡ ok 0
main-all_ok_example = main-all_ok steady_bench documented free calm
