-- ===== src/Gateway/Scanning.antt =====
-- The response scan of gateway/gateway_api.py: with the policy that create_app makes for it,
-- PIIMediator.apply redacts, and neither mints a token nor meets a blocked entity.
use privacy_gateway_llm_appl.Prelude.{
  Text, List, [], ◌∷◌, Option, none, some, Bool, true, false, ◌≡◌, refl, lookup, text_eq, ◌==◌,
  Bool-cases, if◌then◌else◌, inl, inr,
}
use privacy_gateway_llm_appl.Errors.{ok}
use privacy_gateway_llm_appl.Policy.{Policy, PolicyAction, allow, tokenize, redact, block}
use privacy_gateway_llm_appl.Mediator.{
  RecognizerResult, Operators, PiiMediator, clone_with_policy, actionable, operators_for,
  redactions, apply_actionable, apply, redact_all,
}
use privacy_gateway_llm_appl.Gateway.Application.{response_action, response_policy}

-- Whether the policy has something other than ALLOW for an entity type.
abbrev pub is_mediated : Option PolicyAction → Bool
is_mediated none = false
is_mediated (some allow) = false
is_mediated _ = true

-- The results that the policy does not allow.
unfoldable pub mediated : Policy → List RecognizerResult → List RecognizerResult
mediated policy [] = []
mediated policy (r ∷ results) =
    let rest = mediated policy results in
    if is_mediated (lookup r.entity_type policy) then r ∷ rest else rest

abbrev respond : Option PolicyAction → Option PolicyAction
respond none = none
respond (some a) = some (response_action a)

lookup-response_policy :
    (e : Text) (p : Policy) → lookup e (response_policy p) ≡ respond (lookup e p)
unfolding lookup response_policy
lookup-response_policy e [] = refl
lookup-response_policy e ((k, a) ∷ p) = elim (Bool-cases (k == e)) [
  | inl same ↦ rw same refl
  | inr other ↦ rw other (lookup-response_policy e p)
]

actionable-step :
    (p : Policy) (r : RecognizerResult) (results : List RecognizerResult) (a : Option PolicyAction)
    → lookup r.entity_type p ≡ a
    → actionable (response_policy p) results ≡ ok (mediated p results)
    → actionable (response_policy p) (r ∷ results) ≡ ok (mediated p (r ∷ results))
unfolding actionable mediated response_action
actionable-step p r results none e h =
    rw (actionable, lookup-response_policy r.entity_type p, e, h) refl
actionable-step p r results (some allow) e h =
    rw (actionable, lookup-response_policy r.entity_type p, e, h) refl
actionable-step p r results (some tokenize) e h =
    rw (actionable, lookup-response_policy r.entity_type p, e, h) refl
actionable-step p r results (some redact) e h =
    rw (actionable, lookup-response_policy r.entity_type p, e, h) refl
actionable-step p r results (some block) e h =
    rw (actionable, lookup-response_policy r.entity_type p, e, h) refl

actionable-mediated :
    (p : Policy) (results : List RecognizerResult)
    → actionable (response_policy p) results ≡ ok (mediated p results)
unfolding actionable mediated
actionable-mediated p [] = refl
actionable-mediated p (r ∷ results) =
    actionable-step p r results (lookup r.entity_type p) refl (actionable-mediated p results)

operators-step :
    (p : Policy) (b : Bool) (r : RecognizerResult) (results : List RecognizerResult)
    (a : Option PolicyAction) (found : Operators)
    → lookup r.entity_type p ≡ a
    → ((more : Operators)
        → operators_for (response_policy p) b results more ≡ ok (redactions results more))
    → operators_for (response_policy p) b (r ∷ results) found ≡ ok (redactions (r ∷ results) found)
unfolding operators_for redactions response_action
operators-step p b r results none found e h =
    rw (operators_for, lookup-response_policy r.entity_type p, e) (h _)
operators-step p b r results (some allow) found e h =
    rw (operators_for, lookup-response_policy r.entity_type p, e) (h _)
operators-step p b r results (some tokenize) found e h =
    rw (operators_for, lookup-response_policy r.entity_type p, e) (h _)
operators-step p b r results (some redact) found e h =
    rw (operators_for, lookup-response_policy r.entity_type p, e) (h _)
operators-step p b r results (some block) found e h =
    rw (operators_for, lookup-response_policy r.entity_type p, e) (h _)

operators-redactions :
    (p : Policy) (b : Bool) (results : List RecognizerResult) (found : Operators)
    → operators_for (response_policy p) b results found ≡ ok (redactions results found)
unfolding operators_for redactions
operators-redactions p b [] found = refl
operators-redactions p b (r ∷ results) found =
    operators-step p b r results (lookup r.entity_type p) found refl
      (operators-redactions p b results)

apply_actionable-redact_all :
    (m : PiiMediator) (text : Text) (rs : List RecognizerResult)
    → apply_actionable (clone_with_policy m (response_policy m.policy)) text none (ok rs)
      ≡ (redact_all m text rs, none)
unfolding redact_all clone_with_policy
apply_actionable-redact_all m text [] = refl
apply_actionable-redact_all m text (r ∷ rs) =
    rw (operators-redactions m.policy false (r ∷ rs) []) refl

-- The call of the response scan, apply with the response policy and no token context, is redact_all
-- on the results that the gateway's own policy does not allow: whatever that policy tokenizes,
-- redacts or blocks is redacted, no token is minted, and the policy makes no scan fail.
pub response_scan-redact_all :
    (m : PiiMediator) (text : Text) (results : List RecognizerResult)
    → apply (clone_with_policy m (response_policy m.policy)) text results none
      ≡ (redact_all m text (mediated m.policy results), none)
unfolding apply clone_with_policy
response_scan-redact_all m text results =
    rw (actionable-mediated m.policy results)
      (apply_actionable-redact_all m text (mediated m.policy results))
