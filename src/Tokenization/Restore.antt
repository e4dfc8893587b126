-- ===== src/Tokenization/Restore.antt =====
-- What TOKEN_PATTERN finds: exactly the tokens of a namespace that a text holds nothing of otherwise.
-- So rehydrate restores what token_for replaced, and leaves all other text alone.
use mathlib.Core.List.{append_assoc}
use privacy_gateway_llm_appl.Prelude.{
  ℕ, zero, suc, ◌-◌, ◌≤◌, Text, codes, str, str-ne-nil, All-str, All, List, [], ◌∷◌, ◌++◌, some,
  true, false, ◌≡◌, ◌≢◌, refl, sym, ap, ap₂, ◌∙◌, Option-cases, inl, inr, nat_eq, length,
  length-append, drop, first_split, arith,
}
use privacy_gateway_llm_appl.Pattern.{
  Item, match, sub_from, Matches, done, take_one, take_more, take_no_more, match_sound,
  match_complete, Matches-append, Matches-Excludes, Excludes, Matches-split,
}
use privacy_gateway_llm_appl.Tokenization.{
  token, token_pattern, opening, body_pattern, closing, is_char, namespace_pattern, entity_pattern,
  counter_pattern, is_digit, contains, starts_with,
}

-- The text holds `p` somewhere.
abbrev pub IsIn : Text → Text → Type 0
IsIn p text = (a : Text) × (b : Text) × (text ≡ a ++ (p ++ b))

pub IsIn-cons : (p : Text) {text : Text} (c : ℕ) → IsIn p text → IsIn p (c ∷ text)
IsIn-cons p c (a, b, split) = (c ∷ a, b, ap (λ (x : Text). c ∷ x) split)

pub IsIn-left : (ns a b : Text) → IsIn ns a → IsIn ns (a ++ b)
IsIn-left ns a b (x, y, e) = (x, y ++ b, rw e (simp append_assoc))

pub IsIn-right : (ns a b : Text) → IsIn ns b → IsIn ns (a ++ b)
IsIn-right ns a b (x, y, e) = (a ++ x, y, rw e (simp append_assoc))

starts_with-append : (p b : Text) → starts_with (p ++ b) p ≡ true
starts_with-append [] [] = refl
starts_with-append [] (c ∷ b) = refl
starts_with-append (c ∷ p) b = ground (arith, starts_with-append p b)

contains-append : (a p b : Text) → contains (a ++ (p ++ b)) p ≡ true
unfolding contains
contains-append [] [] [] = refl
contains-append [] [] (c ∷ b) = refl
contains-append [] (c ∷ p) b = ground (arith, starts_with-append p b)
contains-append (c ∷ a) p b = ground (arith, contains-append a p b)

pub not-IsIn_of_contains : (p text : Text) → contains text p ≡ false → ¬ IsIn p text
not-IsIn_of_contains p text e (a, b, split) =
    let h = contains-append a p b in
    let same : contains text p ≡ contains (a ++ (p ++ b)) p = ap (λ x. contains x p) split in cc

-- The names of a namespace and of an entity type that the pattern admits.
abbrev pub IsNamespace : Text → Type 0
IsNamespace ns = Matches namespace_pattern ns

abbrev pub IsEntityName : Text → Type 0
IsEntityName e = Matches entity_pattern e

digits_match : (s : Text) → All (λ c. is_digit c ≡ true) s → Matches (Item.many is_digit ∷ []) s
digits_match [] h = take_no_more done
digits_match (c ∷ s) (h, hs) = take_more h (digits_match s hs)

counter_match : (s : Text) → s ≢ [] → All (λ c. is_digit c ≡ true) s → Matches counter_pattern s
counter_match [] ne h = absurd (ne refl)
counter_match (c ∷ s) ne (h, hs) = take_one h (digits_match s hs)

str-match : (n : ℕ) → Matches counter_pattern (str n)
str-match n =
    counter_match (str n) (str-ne-nil n)
      (All-str (λ c. is_digit c ≡ true) (λ d lo hi. ground arith) n)

pub token-Matches :
    (ns e : Text) (n : ℕ) → IsNamespace ns → IsEntityName e → Matches token_pattern (token ns e n)
unfolding token
token-Matches ns e n hns he = take_one refl (
    take_one refl (
      take_one refl (
        take_one refl (
          take_one refl (
            take_one refl (
              Matches-append hns (
                take_one refl (
                  Matches-append he (
                    take_one refl
                      (Matches-append (str-match n) (take_one refl (take_one refl done))))))))))))

-- What the pattern matches: "[[P" and no further '[', and no ']' but the last two.
pub record HasShape (m : Text) : Type 0 where
  pub start : (w : Text) × (m ≡ b'[' ∷ b'[' ∷ b'P' ∷ w) × All (λ c. c ≢ b'[') w
  pub end : (h : Text) × (m ≡ h ++ codes "]]") × All (λ c. c ≢ b']') h

no_closing_inside : Excludes b']' (opening ++ body_pattern)
no_closing_inside = (
  refl,
  (
    refl,
    (
      refl,
      (
        refl,
        (
          refl,
          (
            refl,
            (
              refl,
              (
                refl,
                (
                  refl,
                  (
                    refl,
                    (
                      refl,
                      (refl, (refl, (refl, (refl, (refl, (refl, (refl, (refl, (refl, tt))))))))),
                    ),
                  ),
                ),
              ),
            ),
          ),
        ),
      ),
    ),
  ),
)

no_opening_later : Excludes b'[' (body_pattern ++ closing)
no_opening_later = (
  refl,
  (
    refl,
    (
      refl,
      (
        refl,
        (
          refl,
          (
            refl,
            (
              refl,
              (
                refl,
                (
                  refl,
                  (
                    refl,
                    (refl, (refl, (refl, (refl, (refl, (refl, (refl, (refl, (refl, tt))))))))),
                  ),
                ),
              ),
            ),
          ),
        ),
      ),
    ),
  ),
)

abbrev Begins : ℕ → List Item → Text → Type 0
Begins x ps w = (v : Text) × (w ≡ x ∷ v) × Matches ps v

nothing_left : {w : Text} → Matches [] w → w ≡ []
nothing_left done = refl

inv_char :
    (x : ℕ) {ps : List Item} {w : Text} → Matches (Item.once (is_char x) ∷ ps) w → Begins x ps w
inv_char x (take_one {c} {w} fits h) = (w, ap (λ (d : ℕ). d ∷ w) (ground arith), h)

opening_text : {w : Text} → Matches opening w → w ≡ b'[' ∷ b'[' ∷ b'P' ∷ []
opening_text h =
    let (a, ea, ha) = inv_char b'[' h in
    let (b, eb, hb) = inv_char b'[' ha in
    let (c, ec, hc) = inv_char b'P' hb in let n = nothing_left hc in cc

closing_text : {w : Text} → Matches closing w → w ≡ codes "]]"
closing_text h =
    let (a, ea, ha) = inv_char b']' h in
    let (b, eb, hb) = inv_char b']' ha in let n = nothing_left hb in cc

pub Matches-HasShape : {m : Text} → Matches token_pattern m → HasShape m
Matches-HasShape {m} h =
    let (u, v, split, hu, hv) = Matches-split opening (body_pattern ++ closing) m h in
    let (x, y, split', hx, hy) = Matches-split (opening ++ body_pattern) closing m h in
    record {
      start = (
        v,
        split ∙ ap (λ (s : Text). s ++ v) (opening_text hu),
        Matches-Excludes b'[' hv no_opening_later,
      );
      end = (
        x,
        split' ∙ ap (λ (s : Text). x ++ s) (closing_text hy),
        Matches-Excludes b']' hx no_closing_inside,
      );
    }

-- Two texts of that shape at the start of one text are the same.
HasShape-unique :
    (m m' r r' : Text) → HasShape m → HasShape m' → m ++ r ≡ m' ++ r' → (m ≡ m') × (r ≡ r')
HasShape-unique m m' r r' s s' e =
    let (h, eh, nh) = s.end in
    let (h', eh', nh') = s'.end in
    let ends : h ++ b']' ∷ b']' ∷ r ≡ h' ++ b']' ∷ b']' ∷ r' =
      sym (append_assoc h (codes "]]") r)
      ∙ ap (λ (x : Text). x ++ r) (sym eh)
      ∙ e
      ∙ ap (λ (x : Text). x ++ r') eh'
      ∙ append_assoc h' (codes "]]") r' in
    let (same, rests) = first_split b']' h h' _ _ nh nh' ends in
    (eh ∙ ap (λ (x : Text). x ++ codes "]]") same ∙ sym eh', cc)

-- A token in front of any text is found, whole.
pub token_found :
    (t rest : Text) → Matches token_pattern t → match token_pattern (t ++ rest) ≡ some (t, rest)
token_found t rest h =
    let ((m, r), found) = match_complete rest h in
    let (split, hm) = match_sound token_pattern (t ++ rest) found in
    let (same, rests) =
      HasShape-unique t m rest r (Matches-HasShape h) (Matches-HasShape hm) split in
    found ∙ ap₂ (λ (a b : Text). some (a, b)) (sym same) (sym rests)

-- A rest that a match cannot run into: it is empty, or begins with "[[".
pub data Barrier : Text → Type 0 where
  nothing : Barrier []
  brackets : (s : Text) → Barrier (b'[' ∷ b'[' ∷ s)

-- A stretch with no '[' that starts before a barrier ends before it.
stretch_inside :
    (w r p rest : Text)
    → Barrier rest
    → All (λ c. c ≢ b'[') w
    → w ++ r ≡ p ++ rest
    → (q : Text) × (p ≡ w ++ q)
stretch_inside [] r p rest b h e = (p, refl)
stretch_inside (x ∷ w) r [] rest nothing h e = cc
stretch_inside (x ∷ w) r [] rest (brackets s) h e = absurd (h.0 cc)
stretch_inside (x ∷ w) r (c ∷ p) rest b (n, h) e =
    let tails : w ++ r ≡ p ++ rest = cc in
    let (q, split) = stretch_inside w r p rest b h tails in (q, cc)

no_bracket_P : {rest : Text} (s : Text) → Barrier rest → rest ≢ b'[' ∷ b'P' ∷ s
no_bracket_P s nothing e = cc
no_bracket_P s (brackets q) e = let f : ◌≡◌ {A = ℕ} b'[' b'P' = cc in absurd (omega arith)

no_P : {rest : Text} (s : Text) → Barrier rest → rest ≢ b'P' ∷ s
no_P s nothing e = cc
no_P s (brackets q) e = let f : ◌≡◌ {A = ℕ} b'[' b'P' = cc in absurd (omega arith)

-- A match that starts before a barrier ends before it.
match_inside :
    (m r p rest : Text)
    → Barrier rest
    → HasShape m
    → p ≢ []
    → m ++ r ≡ p ++ rest
    → (q : Text) × (p ≡ m ++ q)
match_inside m r [] rest b s ne e = absurd (ne refl)
match_inside m r (c ∷ []) rest b s ne e =
    let (w, em, nw) = s.start in
    let full = ap (λ (x : Text). x ++ r) (sym em) ∙ e in absurd (no_bracket_P (w ++ r) b cc)
match_inside m r (c ∷ d ∷ []) rest b s ne e =
    let (w, em, nw) = s.start in
    let full = ap (λ (x : Text). x ++ r) (sym em) ∙ e in absurd (no_P (w ++ r) b cc)
match_inside m r (c ∷ d ∷ f ∷ p) rest b s ne e =
    let (w, em, nw) = s.start in
    let full = ap (λ (x : Text). x ++ r) (sym em) ∙ e in
    let tails : w ++ r ≡ p ++ rest = cc in
    let (q, split) = stretch_inside w r p rest b nw tails in
    let front : c ∷ d ∷ f ∷ p ≡ b'[' ∷ b'[' ∷ b'P' ∷ (w ++ q) = cc in
    (q, front ∙ ap (λ (x : Text). x ++ q) (sym em))

drop-append : (a b : Text) → drop (length a) (a ++ b) ≡ b
drop-append [] b = refl
drop-append (x ∷ a) b = drop-append a b

pub HasShape-ne-nil : {m : Text} → HasShape m → m ≢ []
HasShape-ne-nil s e = let (w, em, nw) = s.start in cc

rejoin :
    (m q : Text) (c : ℕ) (p : Text)
    → m ≢ []
    → c ∷ p ≡ m ++ q
    → (length m - 1 ≤ length p) × (m ++ drop (length m - 1) p ≡ c ∷ p)
rejoin [] q c p ne e = absurd (ne refl)
rejoin (x ∷ m) q c p ne e =
    let tail : p ≡ m ++ q = cc in
    let size : suc (length m) - 1 ≡ length m = omega arith in
    let len = ap (λ (s : Text). length s) tail in
    (
      omega (arith, len, length-append {0} m q),
      rw size (rw tail (ap (λ (s : Text). x ∷ (m ++ s)) (drop-append m q)) ∙ sym e),
    )

-- Text in front of a barrier, no match in which is replaced by another text, is left alone.
pub plain_kept :
    (f : Text → Text) (k : ℕ) (p rest : Text)
    → Barrier rest
    → ((m : Text) → HasShape m → IsIn m p → f m ≡ m)
    → k ≤ length p
    → sub_from token_pattern f k (p ++ rest) ≡ drop k p ++ sub_from token_pattern f 0 rest
unfolding sub_from
plain_kept f zero [] rest b same le = refl
plain_kept f (suc k) [] rest b same le = absurd (omega arith)
plain_kept f (suc k) (c ∷ p) rest b same le =
    plain_kept f k p rest b (λ m s i. same m s (IsIn-cons m c i)) (omega arith)
plain_kept f zero (c ∷ p) rest b same le =
    elim (Option-cases (match token_pattern (c ∷ p ++ rest))) [
      | inl none_found ↦ rw none_found (
          ap (λ (x : Text). c ∷ x)
            (plain_kept f 0 p rest b (λ m s i. same m s (IsIn-cons m c i)) (omega arith)))
      | inr ((m, r), found) ↦
          let (split, matches) = match_sound token_pattern (c ∷ p ++ rest) found in
          let shape = Matches-HasShape matches in
          let (q, inside) = match_inside m r (c ∷ p) rest b shape (cc) (sym split) in
          let (fits, whole) = rejoin m q c p (HasShape-ne-nil shape) inside in
          let kept = same m shape ([], q, inside) in
          let ih =
            plain_kept f (length m - 1) p rest b (λ m' s i. same m' s (IsIn-cons m' c i)) fits in
          rw (found, kept, ih)
            (sym (append_assoc m (drop (length m - 1) p) (sub_from token_pattern f 0 rest))
              ∙ ap (λ (x : Text). x ++ sub_from token_pattern f 0 rest) whole)
    ]
