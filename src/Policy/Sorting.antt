-- ===== src/Policy/Sorting.antt =====
-- The keys that gateway/policy.py sorts and looks up are the keys of the dictionary.
use privacy_gateway_llm_appl.Prelude.{
  Text, List, [], ◌∷◌, none, some, false, ◌≡◌, ◌≢◌, ◌↔◌, inl, inr, refl, Bool-cases, ◌==◌, ==_iff,
  text_eq, lookup,
}
use privacy_gateway_llm_appl.Errors.{ok}
use privacy_gateway_llm_appl.Policy.{text_le, insert_sorted, sorted, keys, get_item}
use privacy_gateway_llm_appl.Policy.Decisions.{Member}

after :
    (e x : Text) (xs ys : List Text)
    → (Member e xs → Member e ys)
    → Member e (x ∷ xs)
    → Member e (x ∷ ys)
after e x xs ys f (inl h) = inl h
after e x xs ys f (inr h) = inr (f h)

swap_in :
    (e x y : Text) (ys zs : List Text)
    → (Member e zs → Member e (x ∷ ys))
    → Member e (y ∷ zs)
    → Member e (x ∷ y ∷ ys)
swap_in e x y ys zs f (inl h) = inr (inl h)
swap_in e x y ys zs f (inr h) = after e x ys (y ∷ ys) (λ k. inr k) (f h)

swap_out :
    (e x y : Text) (ys zs : List Text)
    → (Member e (x ∷ ys) → Member e zs)
    → Member e (x ∷ y ∷ ys)
    → Member e (y ∷ zs)
swap_out e x y ys zs f (inl h) = inr (f (inl h))
swap_out e x y ys zs f (inr (inl h)) = inl h
swap_out e x y ys zs f (inr (inr h)) = inr (f (inr h))

not_first {ℓ} :
    {V : Type ℓ} (k e : Text) (m : List (Text × V))
    → (k == e) ≡ false
    → Member e (k ∷ keys m)
    → Member e (keys m)
not_first k e m other (inl same) = absurd (let h = (==_iff k e).1 same in cc)
not_first k e m other (inr h) = h

Member-insert_sorted :
    (e x : Text) (xs : List Text) → (Member e (insert_sorted x xs)) ↔ Member e (x ∷ xs)
unfolding insert_sorted
Member-insert_sorted e x [] = (λ h. h, λ h. h)
Member-insert_sorted e x (y ∷ ys) =
    let (to, from) = Member-insert_sorted e x ys in
    elim (Bool-cases (text_le x y)) [
      | inl first ↦ rw first (λ h. h, λ h. h)
      | inr later ↦ rw later (
        λ h. swap_in e x y ys (insert_sorted x ys) to h,
        λ h. swap_out e x y ys (insert_sorted x ys) from h,
      )
    ]

pub Member-sorted : (e : Text) (xs : List Text) → (Member e (sorted xs)) ↔ Member e xs
unfolding sorted
Member-sorted e [] = (λ h. h, λ h. h)
Member-sorted e (x ∷ xs) =
    let (to, from) = Member-sorted e xs in
    let (to', from') = Member-insert_sorted e x (sorted xs) in
    (λ h. after e x (sorted xs) xs to (to' h), λ h. from' (after e x xs (sorted xs) from h))

-- A key of a dictionary is found, and what is found has a key.
pub Member-keys {ℓ} :
    {V : Type ℓ} (e : Text) (m : List (Text × V)) → (Member e (keys m)) ↔ (lookup e m ≢ none)
unfolding lookup
Member-keys e [] = (λ h. absurd h, λ h. absurd (h refl))
Member-keys e ((k, v) ∷ m) =
    let (to, from) = Member-keys e m in
    elim (Bool-cases (k == e)) [
      | inl same ↦ rw same (λ h. cc, λ h. inl ((==_iff k e).0 same))
      | inr other ↦ rw other (λ h. to (not_first k e m other h), λ h. inr (from h))
    ]

pub get_item-found {ℓ} :
    {V : Type ℓ} (k : Text) (m : List (Text × V)) {v : V}
    → lookup k m ≡ some v
    → get_item m k ≡ ok v
unfolding get_item
get_item-found k m found = rw (found, get_item)
