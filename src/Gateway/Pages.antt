-- ===== src/Gateway/Pages.antt =====
-- What a page of the audit log holds that gateway/gateway_api.py returns to an administrator.
use privacy_gateway_llm_appl.Prelude.{
  ℕ, ℤ, pos, negsuc, zero, suc, ◌+◌, ◌≤◌, Text, List, [], ◌∷◌, Option, none, some, ◌≡◌, refl, ap,
  ◌∙◌, sym, subst, map, length, take, drop, All, arith, leb, ◌&&◌, true, false, nat_eq, Bool,
  if◌then◌else◌,
}
use privacy_gateway_llm_appl.Errors.{
  Exception, request_validation_error, Result, ok, raise, bind_ok, raise-ne-ok, ok-injective,
}
use privacy_gateway_llm_appl.Audit.{
  AuditLogger, AuditRecord, Row, genesis_hash, entries, decode, decode_all, count,
}
use privacy_gateway_llm_appl.Audit.Chain.{IsIntact}
use privacy_gateway_llm_appl.Gateway.{AuditPayload}
use privacy_gateway_llm_appl.Gateway.Admin.{
  require_admin, limit_parameter, offset_parameter, AdminRequest, AuditPage, ShownRecord, shown,
  unless_raised, page_of, audit_entries,
}

-- Consecutive ids from `id` on.
abbrev pub AreNumbered : ℕ → List ShownRecord → Type 0
AreNumbered id [] = Unit
AreNumbered id (r ∷ rs) = (r.id ≡ id) × AreNumbered (id + 1) rs

-- A page of a table, and the rows that it shows.
pub record IsPage (rows : List Row) (p : AuditPage) : Type 0 where
  pub limit_bounds : (1 ≤ p.limit) × (p.limit ≤ 200)
  pub size : length p.records ≡ length (take p.limit (drop p.offset rows))
  pub fits : length p.records ≤ p.limit
  pub ids : AreNumbered (p.offset + 1) p.records
  pub private : All (λ r. r.payload.redacted_messages ≡ none) p.records

abbrev RowsNumbered : ℕ → List Row → Type 0
RowsNumbered id [] = Unit
RowsNumbered id (r ∷ rs) = (r.id ≡ id) × RowsNumbered (id + 1) rs

module _ (log : AuditLogger AuditPayload) where
  intact-RowsNumbered :
      (id : ℕ) (prev : Text) (rows : List Row) → IsIntact log id prev rows → RowsNumbered id rows
  intact-RowsNumbered id prev [] h = tt
  intact-RowsNumbered id prev (r ∷ rows) (linked, h) =
      (linked.id, intact-RowsNumbered (id + 1) r.record_hash rows h)

  drop-RowsNumbered :
      (n id : ℕ) (rows : List Row) → RowsNumbered id rows → RowsNumbered (n + id) (drop n rows)
  drop-RowsNumbered zero id rows h = subst (λ k. RowsNumbered k rows) (omega arith) h
  drop-RowsNumbered (suc n) id [] h = tt
  drop-RowsNumbered (suc n) id (r ∷ rows) h =
      subst (λ k. RowsNumbered k (drop n rows)) (omega arith)
        (drop-RowsNumbered n (id + 1) rows h.1)

  take-RowsNumbered :
      (n id : ℕ) (rows : List Row) → RowsNumbered id rows → RowsNumbered id (take n rows)
  take-RowsNumbered zero id rows h = tt
  take-RowsNumbered (suc n) id [] h = tt
  take-RowsNumbered (suc n) id (r ∷ rows) h = (h.0, take-RowsNumbered n (id + 1) rows h.1)

  decode_all-AreNumbered :
      (id : ℕ) (rows : List Row) (rs : List (AuditRecord AuditPayload))
      → RowsNumbered id rows
      → decode_all log rows ≡ ok rs
      → AreNumbered id (map shown rs) × (length (map shown rs) ≡ length rows)
  decode_all-AreNumbered id [] rs h e =
      subst (λ ts. AreNumbered id (map shown ts) × (length (map shown ts) ≡ 0)) (ok-injective e)
        (tt, refl)
  decode_all-AreNumbered id (r ∷ rows) rs h e =
      let (a, decoded, e₁) = bind_ok (decode log r) _ e in
      let (p, loaded, same) = bind_ok (log.loads r.payload) _ decoded in
      let (rest, tail, e₂) = bind_ok (decode_all log rows) _ e₁ in
      let (ids, size) = decode_all-AreNumbered (id + 1) rows rest h.1 tail in
      subst (λ ts. AreNumbered id (map shown ts) × (length (map shown ts) ≡ suc (length rows)))
        (ok-injective e₂)
        ((ap (λ t. t.id) (sym (ok-injective same)) ∙ h.0, ids), omega (arith, size))

shown-private :
    (rs : List (AuditRecord AuditPayload))
    → All (λ r. r.payload.redacted_messages ≡ none) (map shown rs)
shown-private [] = tt
shown-private (r ∷ rs) = (refl, shown-private rs)

length-take : (n : ℕ) (rows : List Row) → length (take n rows) ≤ n
length-take zero rows = omega arith
length-take (suc n) [] = omega arith
length-take (suc n) (r ∷ rows) = omega (arith, length-take n rows)

in_range :
    (m n : ℕ) (b : Bool)
    → (leb 1 m && leb m 200) ≡ b
    → (if b then ok m else raise request_validation_error) ≡ ok n
    → (1 ≤ n) × (n ≤ 200)
in_range m n true h e = let same = ok-injective e in ground arith
in_range m n false h e = elim (raise-ne-ok e) [ ]

raised_not {ℓ} :
    {A : Type ℓ} (failure : Option Exception) (r : Result A) (a : A)
    → unless_raised failure r ≡ ok a
    → r ≡ ok a
raised_not none r a e = e
raised_not (some x) r a e = elim (raise-ne-ok e) [ ]

limit-bounds : (given : Option ℤ) (n : ℕ) → limit_parameter given ≡ ok n → (1 ≤ n) × (n ≤ 200)
unfolding limit_parameter
limit-bounds none n e = let same = ok-injective e in ground arith
limit-bounds (some (pos m)) n e = in_range m n _ refl e
limit-bounds (some (negsuc m)) n e = elim (raise-ne-ok e) [ ]

page_of-IsPage :
    (log : AuditLogger AuditPayload) (request : AdminRequest) (limit offset : ℕ)
    (rows counted : List Row) (p : AuditPage)
    → (1 ≤ limit) × (limit ≤ 200)
    → RowsNumbered 1 rows
    → page_of log request limit offset rows counted ≡ ok p
    → IsPage rows p × (p.total ≡ length counted)
unfolding page_of entries count
page_of-IsPage log request limit offset rows counted p bounds numbered e =
    let (rs, read, e₁) =
      bind_ok (unless_raised request.entries_failure (entries log (some limit) offset rows)) _ e in
    let (n, counts, e₂) = bind_ok (unless_raised request.count_failure (ok (count counted))) _ e₁ in
    let wanted =
      take-RowsNumbered log limit _ (drop offset rows)
        (drop-RowsNumbered log offset 1 rows numbered) in
    let numbers : AreNumbered (offset + 1) (map shown rs)
        × (length (map shown rs) ≡ length (take limit (drop offset rows))) =
      decode_all-AreNumbered log (offset + 1) (take limit (drop offset rows)) rs wanted
        (raised_not request.entries_failure _ rs read) in
    subst (λ q. IsPage rows q × (q.total ≡ length counted)) (ok-injective e₂)
      (
        record {
          limit_bounds = bounds;
          size = numbers.1;
          fits = omega (arith, numbers.1, length-take limit (drop offset rows));
          ids = numbers.0;
          private = shown-private rs;
        },
        sym (ok-injective (raised_not _ _ n counts)),
      )

-- A page of the audit endpoint, over an intact table: its limit lies between 1 and 200, it holds as
-- many records as there are rows from the offset on, up to the limit, their ids are consecutive from
-- the offset plus 1, no record shows redacted messages, and the total is the number of rows when
-- they are counted.
pub audit_entries-IsPage :
    (log : AuditLogger AuditPayload) (request : AdminRequest) (limit offset : Option ℤ)
    (rows counted : List Row) (p : AuditPage)
    → IsIntact log 1 genesis_hash rows
    → audit_entries log request limit offset rows counted ≡ ok p
    → IsPage rows p × (p.total ≡ length counted)
unfolding audit_entries
audit_entries-IsPage log request limit offset rows counted p intact e =
    let (u, passed, e₁) =
      bind_ok (require_admin request.encode request.configured request.header) _ e in
    let (n, limited, e₂) = bind_ok (limit_parameter limit) _ e₁ in
    let (k, shifted, e₃) = bind_ok (offset_parameter offset) _ e₂ in
    page_of-IsPage log request n k rows counted p (limit-bounds limit n limited)
      (intact-RowsNumbered log 1 genesis_hash rows intact) e₃
