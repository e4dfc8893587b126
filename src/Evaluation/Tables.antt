-- ===== src/Evaluation/Tables.antt =====
-- What SQL statements of evaluation/run_audit_attack_evaluation.py do with the table of
-- gateway/audit_logger.py. A table is the list of its rows; a query puts them in the order of their ids.
use privacy_gateway_llm_appl.Prelude.{
  ℕ, List, [], ◌∷◌, Option, none, some, Bool, leb, nat_eq, ◌==◌, if◌then◌else◌, map,
}
use privacy_gateway_llm_appl.Audit.{Row}

-- ORDER BY id
unfoldable pub insert_by_id : Row → List Row → List Row
insert_by_id r [] = r ∷ []
insert_by_id r (q ∷ rows) = if leb r.id q.id then r ∷ q ∷ rows else q ∷ insert_by_id r rows

unfoldable pub order_by_id : List Row → List Row
order_by_id [] = []
order_by_id (r ∷ rows) = insert_by_id r (order_by_id rows)

-- UPDATE audit_log SET .. WHERE id = k
unfoldable pub update_where : ℕ → (Row → Row) → List Row → List Row
update_where k change rows = map (λ (r : Row). if r.id == k then change r else r) rows

-- DELETE FROM audit_log WHERE ..
unfoldable pub delete_where : (Row → Bool) → List Row → List Row
delete_where test [] = []
delete_where test (r ∷ rows) =
    let rest = delete_where test rows in if test r then rest else r ∷ rest

-- SELECT .. WHERE id = k, with fetchone()
unfoldable pub select_where : ℕ → List Row → Option Row
select_where k [] = none
select_where k (r ∷ rows) = let rest = select_where k rows in if r.id == k then some r else rest
