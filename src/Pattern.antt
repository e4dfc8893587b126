-- ===== src/Pattern.antt =====
-- The part of Python's `re` that gateway/tokenization.py uses: patterns that are a row of character
-- classes, each taken once or greedily any number of times, matched with backtracking, and `sub`.
use privacy_gateway_llm_appl.Prelude.{
  ℕ, zero, suc, ◌-◌, Text, List, [], ◌∷◌, ◌++◌, Option, none, some, Bool, true, false, ◌≡◌, ◌≢◌,
  refl, sym, ap, ◌∙◌, subst, if◌then◌else◌, Bool-cases, ◌⊎◌, inl, inr, All, length, arith,
}

pub data Item : Type 0 where
  once many : (ℕ → Bool) → Item

-- A match and what follows it, with one more character in front.
abbrev push : ℕ → Option (Text × Text) → Option (Text × Text)
push c none = none
push c (some (m, r)) = some (c ∷ m, r)

abbrev or_else : Option (Text × Text) → Option (Text × Text) → Option (Text × Text)
or_else none b = b
or_else (some x) b = some x

-- The first match at the start of the text in the order of backtracking, and what follows it.
unfoldable pub match : List Item → Text → Option (Text × Text)
match [] t = some ([], t)
match (once p ∷ ps) [] = none
match (once p ∷ ps) (c ∷ t) = let rest = match ps t in if p c then push c rest else none
match (many p ∷ ps) [] = match ps []
match (many p ∷ ps) (c ∷ t) =
    let more = match (many p ∷ ps) t in
    let stop = match ps (c ∷ t) in or_else (if p c then push c more else none) stop

abbrev pub replacement : (Text → Text) → ℕ → Option (Text × Text) → Text
replacement f c none = c ∷ []
replacement f c (some (m, r)) = f m

abbrev pub skipped : Option (Text × Text) → ℕ
skipped none = 0
skipped (some (m, r)) = length m - 1

-- re.sub with a function, from left to right; `skip` characters are still part of the last match.
unfoldable pub sub_from : List Item → (Text → Text) → ℕ → Text → Text
sub_from ps f skip [] = []
sub_from ps f (suc skip) (c ∷ t) = sub_from ps f skip t
sub_from ps f zero (c ∷ t) =
    let found = match ps (c ∷ t) in replacement f c found ++ sub_from ps f (skipped found) t

unfoldable pub sub : List Item → (Text → Text) → Text → Text
sub ps f t = sub_from ps f 0 t

-- The texts that a pattern describes.
pub data Matches : List Item → Text → Type 0 where
  done : Matches [] []
  take_one :
      {p : ℕ → Bool} {ps : List Item} {c : ℕ} {w : Text}
      → p c ≡ true
      → Matches ps w
      → Matches (once p ∷ ps) (c ∷ w)
  take_more :
      {p : ℕ → Bool} {ps : List Item} {c : ℕ} {w : Text}
      → p c ≡ true
      → Matches (many p ∷ ps) w
      → Matches (many p ∷ ps) (c ∷ w)
  take_no_more : {p : ℕ → Bool} {ps : List Item} {w : Text} → Matches ps w → Matches (many p ∷ ps) w

-- What `match` returns is a matching text in front of the rest.
abbrev pub Found : List Item → Text → Text → Text → Type 0
Found ps t m r = (t ≡ m ++ r) × Matches ps m

push-eq_some :
    (c : ℕ) (o : Option (Text × Text)) {m r : Text}
    → push c o ≡ some (m, r)
    → (w : Text) × (o ≡ some (w, r)) × (c ∷ w ≡ m)
push-eq_some c none e = cc
push-eq_some c (some (w, q)) e = (w, ground arith, ground arith)

or_else-eq_some :
    (a b : Option (Text × Text)) {x : Text × Text}
    → or_else a b ≡ some x
    → (a ≡ some x) ⊎ (b ≡ some x)
or_else-eq_some none b e = inr e
or_else-eq_some (some y) b e = inl e

pub match_sound :
    (ps : List Item) (t : Text) {m r : Text} → match ps t ≡ some (m, r) → Found ps t m r
unfolding match
match_sound [] t {m} {r} e =
    let nil : [] ≡ m = ground arith in
    let rest : t ≡ r = ground arith in subst (λ x. Found [] t x r) nil (rest, done)
match_sound (once p ∷ ps) [] e = cc
match_sound (once p ∷ ps) (c ∷ t) {m} {r} e = elim (Bool-cases (p c)) [
  | inl fits ↦
      let (w, f, same) = push-eq_some c (match ps t) (rw fits at e) in
      let (split, matches) = match_sound ps t f in
      subst (λ x. Found (once p ∷ ps) (c ∷ t) x r) same
        (ap (λ (x : Text). c ∷ x) split, take_one fits matches)
  | inr no_fit ↦ absurd (let e' = (rw no_fit at e) in cc)
]
match_sound (many p ∷ ps) [] e =
    let (split, matches) = match_sound ps [] e in (split, take_no_more matches)
match_sound (many p ∷ ps) (c ∷ t) {m} {r} e = elim (Bool-cases (p c)) [
  | inl fits ↦
      elim (or_else-eq_some (push c (match (many p ∷ ps) t)) (match ps (c ∷ t)) {x = (m, r)}
        (rw fits at e)) [
          | inl longer ↦
              let (w, f, same) = push-eq_some c (match (many p ∷ ps) t) longer in
              let (split, matches) = match_sound (many p ∷ ps) t f in
              subst (λ x. Found (many p ∷ ps) (c ∷ t) x r) same
                (ap (λ (x : Text). c ∷ x) split, take_more fits matches)
          | inr shorter ↦
              let (split, matches) = match_sound ps (c ∷ t) shorter in (split, take_no_more matches)
        ]
  | inr no_fit ↦
      let (split, matches) = match_sound ps (c ∷ t) (rw no_fit at e) in
      (split, take_no_more matches)
]

abbrev IsSome : Option (Text × Text) → Type 0
IsSome o = (x : Text × Text) × (o ≡ some x)

or_else-IsSome_right : (a b : Option (Text × Text)) → IsSome b → IsSome (or_else a b)
or_else-IsSome_right none b h = h
or_else-IsSome_right (some x) b h = (x, refl)

or_else-IsSome_left : (a b : Option (Text × Text)) → IsSome a → IsSome (or_else a b)
or_else-IsSome_left none b (x, e) = cc
or_else-IsSome_left (some y) b h = (y, refl)

push-IsSome : (c : ℕ) (o : Option (Text × Text)) → IsSome o → IsSome (push c o)
push-IsSome c none (x, e) = cc
push-IsSome c (some (m, r)) h = ((c ∷ m, r), refl)

many_stops :
    (p : ℕ → Bool) (ps : List Item) (t : Text)
    → IsSome (match ps t)
    → IsSome (match (many p ∷ ps) t)
unfolding match
many_stops p ps [] h = h
many_stops p ps (c ∷ t) h = or_else-IsSome_right _ (match ps (c ∷ t)) h

-- In front of any rest, a text that the pattern describes leads to some match.
pub match_complete :
    {ps : List Item} {w : Text} (rest : Text) → Matches ps w → IsSome (match ps (w ++ rest))
unfolding match
match_complete rest done = (([], rest), refl)
match_complete rest (take_one {p} {ps} {c} {w} fits h) =
    rw fits (push-IsSome c (match ps (w ++ rest)) (match_complete rest h))
match_complete rest (take_more {p} {ps} {c} {w} fits h) = rw fits (
    or_else-IsSome_left (push c (match (many p ∷ ps) (w ++ rest))) _
      (push-IsSome c (match (many p ∷ ps) (w ++ rest)) (match_complete rest h)))
match_complete rest (take_no_more {p} {ps} {w} h) =
    many_stops p ps (w ++ rest) (match_complete rest h)

pub Matches-append :
    {ps qs : List Item} {v w : Text} → Matches ps v → Matches qs w → Matches (ps ++ qs) (v ++ w)
Matches-append done k = k
Matches-append (take_one fits h) k = take_one fits (Matches-append h k)
Matches-append (take_more fits h) k = take_more fits (Matches-append h k)
Matches-append (take_no_more h) k = take_no_more (Matches-append h k)

abbrev class : Item → ℕ → Bool
class (once p) = p
class (many p) = p

-- No class of the pattern has the character.
abbrev pub Excludes : ℕ → List Item → Type 0
Excludes x ps = All (λ i. class i x ≡ false) ps

ne_of_class : (p : ℕ → Bool) (c x : ℕ) → p c ≡ true → p x ≡ false → c ≢ x
ne_of_class p c x fits out e =
    let same : p c ≡ p x = ap p e in let h : true ≡ false = sym fits ∙ same ∙ out in cc h

pub Matches-Excludes :
    {ps : List Item} {w : Text} (x : ℕ) → Matches ps w → Excludes x ps → All (λ c. c ≢ x) w
Matches-Excludes x done h = tt
Matches-Excludes x (take_one {p} {ps} {c} {w} fits k) h =
    (ne_of_class p c x fits h.0, Matches-Excludes x k h.1)
Matches-Excludes x (take_more {p} {ps} {c} {w} fits k) h =
    (ne_of_class p c x fits h.0, Matches-Excludes x k h)
Matches-Excludes x (take_no_more k) h = Matches-Excludes x k h.1

inv_nil : {w : Text} → Matches [] w → w ≡ []
inv_nil done = refl

inv_once :
    {p : ℕ → Bool} {ps : List Item} {w : Text}
    → Matches (once p ∷ ps) w
    → (c : ℕ) × (v : Text) × (w ≡ c ∷ v) × (p c ≡ true) × Matches ps v
inv_once (take_one {c} {w} fits h) = (c, w, refl, fits, h)

abbrev Longer : (ℕ → Bool) → List Item → Text → Type 0
Longer p ps w = (c : ℕ) × (v : Text) × (w ≡ c ∷ v) × (p c ≡ true) × Matches (many p ∷ ps) v

inv_many :
    {p : ℕ → Bool} {ps : List Item} {w : Text}
    → Matches (many p ∷ ps) w
    → Matches ps w ⊎ Longer p ps w
inv_many (take_more {c} {w} fits h) = inr (c, w, refl, fits, h)
inv_many (take_no_more h) = inl h

-- A text that a row of patterns describes falls into parts.
abbrev pub Parts : List Item → List Item → Text → Type 0
Parts ps qs w = (u : Text) × (v : Text) × (w ≡ u ++ v) × Matches ps u × Matches qs v

Parts-once :
    {p : ℕ → Bool} {ps qs : List Item} {w : Text} (c : ℕ)
    → p c ≡ true
    → Parts ps qs w
    → Parts (once p ∷ ps) qs (c ∷ w)
Parts-once c fits (u, v, split, hu, hv) =
    (c ∷ u, v, ap (λ (x : Text). c ∷ x) split, take_one fits hu, hv)

Parts-more :
    {p : ℕ → Bool} {ps qs : List Item} {w : Text} (c : ℕ)
    → p c ≡ true
    → Parts (many p ∷ ps) qs w
    → Parts (many p ∷ ps) qs (c ∷ w)
Parts-more c fits (u, v, split, hu, hv) =
    (c ∷ u, v, ap (λ (x : Text). c ∷ x) split, take_more fits hu, hv)

Parts-stop :
    {p : ℕ → Bool} {ps qs : List Item} {w : Text} → Parts ps qs w → Parts (many p ∷ ps) qs w
Parts-stop (u, v, split, hu, hv) = (u, v, split, take_no_more hu, hv)

pub Matches-split : (ps qs : List Item) (w : Text) → Matches (ps ++ qs) w → Parts ps qs w
Matches-split [] qs w h = ([], w, refl, done, h)
Matches-split (once p ∷ ps) qs [] h = let (c, v, e, fits, k) = inv_once h in cc
Matches-split (once p ∷ ps) qs (c ∷ w) h =
    let (d, v, e, fits, k) = inv_once h in
    let head : d ≡ c = cc in
    let tail : v ≡ w = cc in
    Parts-once c (subst (λ x. p x ≡ true) head fits)
      (Matches-split ps qs w (subst (λ x. Matches (ps ++ qs) x) tail k))
Matches-split (many p ∷ ps) qs [] h = elim (inv_many h) [
  | inl stop ↦ Parts-stop (Matches-split ps qs [] stop)
  | inr longer ↦ let e = longer.2 in cc
]
Matches-split (many p ∷ ps) qs (c ∷ w) h = elim (inv_many h) [
  | inl stop ↦ Parts-stop (Matches-split ps qs (c ∷ w) stop)
  | inr longer ↦
      let e = longer.2 in
      let head : longer.0 ≡ c = cc in
      let tail : longer.1 ≡ w = cc in
      Parts-more c (subst (λ x. p x ≡ true) head longer.3) (
        Matches-split (many p ∷ ps) qs w (subst (λ x. Matches (many p ∷ ps ++ qs) x) tail longer.4))
]
