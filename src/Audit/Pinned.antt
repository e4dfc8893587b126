-- ===== src/Audit/Pinned.antt =====
-- What a checkpoint fixes: two tables that verify against the same checkpoint agree on every row up
-- to it, unless two different texts with the same SHA-256 or the same HMAC can be exhibited.
use privacy_gateway_llm_appl.Prelude.{
  ℕ, ◌+◌, ◌<◌, Text, List, [], ◌∷◌, some, ◌≡◌, ◌≢◌, inl, inr, refl, sym, ap, subst, ◌∙◌, ◌==◌,
  Bool-cases, nat_eq, text_eq, All, All-str, str, str-injective, first_split, last_split, leb,
  if◌then◌else◌, arith,
}
use privacy_gateway_llm_appl.Errors.{ok}
use privacy_gateway_llm_appl.Checkpoint.{AuditCheckpoint}
use privacy_gateway_llm_appl.Audit.{
  AuditLogger, Row, genesis_hash, bar, material, compute_record_hash, mac,
}
use privacy_gateway_llm_appl.Audit.Verify.{valid, ChainVerificationResult, verify_chain}
use privacy_gateway_llm_appl.Audit.Chain.{HasHexDigests, not_bar_of_hex, IsLinked, IsIntact}
use privacy_gateway_llm_appl.Audit.Verdicts.{find_row, verify_chain_sound, verify_chain_names}

abbrev pub HasNoBar : Text → Type 0
HasNoBar s = All (λ c. c ≢ bar) s

-- The rows with an id of at most `k`.
abbrev pub history : ℕ → List Row → List Row
history k [] = []
history k (r ∷ rows) = if leb r.id k then r ∷ history k rows else history k rows

str-HasNoBar : (n : ℕ) → HasNoBar (str n)
str-HasNoBar n = All-str (λ c. c ≢ bar) (λ d lo hi. omega arith) n

-- The fields can be read back from the hashed text, if the timestamp and prev_hash hold no '|'.
material_injective :
    (id id' v v' : ℕ) (t t' p p' h h' : Text)
    → HasNoBar t
    → HasNoBar t'
    → HasNoBar h
    → HasNoBar h'
    → material id v t p h ≡ material id' v' t' p' h'
    → (id ≡ id') × (v ≡ v') × (t ≡ t') × (p ≡ p') × (h ≡ h')
unfolding material
material_injective id id' v v' t t' p p' h h' nt nt' nh nh' e =
    let (ids, e1) = first_split bar _ _ _ _ (str-HasNoBar id) (str-HasNoBar id') e in
    let (vs, e2) = first_split bar _ _ _ _ (str-HasNoBar v) (str-HasNoBar v') e1 in
    let (ts, e3) = first_split bar _ _ _ _ nt nt' e2 in
    let (ps, hs) = last_split bar _ _ _ _ nh nh' e3 in
    (str-injective id id' ids, str-injective v v' vs, ts, ps, hs)

abbrev TimesHaveNoBar : List Row → Type 0
TimesHaveNoBar rows = All (λ r. HasNoBar r.timestamp) rows

row_path :
    (r r' : Row)
    → r.id ≡ r'.id
    → r.schema_version ≡ r'.schema_version
    → r.timestamp ≡ r'.timestamp
    → r.payload ≡ r'.payload
    → r.prev_hash ≡ r'.prev_hash
    → r.record_hash ≡ r'.record_hash
    → r.record_mac ≡ r'.record_mac
    → r ≡ r'
row_path r r' a b c d e f g = λ i. record {
  id = a i;
  schema_version = b i;
  timestamp = c i;
  payload = d i;
  prev_hash = e i;
  record_hash = f i;
  record_mac = g i;
}

module _ {P : Type 0} (log : AuditLogger P) where
  abbrev hashed : Row → Text
  hashed r = material r.id r.schema_version r.timestamp r.payload r.prev_hash

  -- Neither SHA-256 nor HMAC maps what these two rows hand it to one digest, unless it is the same.
  pub record NoCollision (r r' : Row) : Type 0 where
    pub sha256 : log.sha256_hex (hashed r) ≡ log.sha256_hex (hashed r') → hashed r ≡ hashed r'
    pub hmac : mac log r.record_hash ≡ mac log r'.record_hash → r.record_hash ≡ r'.record_hash

  abbrev pub NoCollisions : List Row → List Row → Type 0
  NoCollisions rows rows' = All (λ r. All (λ r'. NoCollision r r') rows') rows

  -- Rows with the same hash are the same row, with the same predecessor.
  same_row :
      (r r' : Row) (id : ℕ) (prev prev' : Text)
      → IsLinked log id prev r
      → IsLinked log id prev' r'
      → HasNoBar r.timestamp
      → HasNoBar r'.timestamp
      → HasNoBar prev
      → HasNoBar prev'
      → NoCollision r r'
      → r.record_hash ≡ r'.record_hash
      → (r ≡ r') × (prev ≡ prev')
  unfolding compute_record_hash
  same_row r r' id prev prev' l l' t t' n n' free e =
      let m = free.sha256 (l.record_hash ∙ e ∙ sym l'.record_hash) in
      let (ids, vs, ts, ps, hs) =
        material_injective r.id r'.id r.schema_version r'.schema_version r.timestamp r'.timestamp
          r.payload r'.payload r.prev_hash r'.prev_hash t t' (subst HasNoBar (sym l.prev_hash) n)
          (subst HasNoBar (sym l'.prev_hash) n') m in
      (
        row_path r r' ids vs ts ps hs e (sym l.record_mac ∙ ap (mac log) e ∙ l'.record_mac),
        sym l.prev_hash ∙ hs ∙ l'.prev_hash,
      )

  history_below :
      (rows : List Row) (k id : ℕ) (prev : Text)
      → IsIntact log id prev rows
      → k < id
      → history k rows ≡ []
  history_below [] k id prev h lt = refl
  history_below (r ∷ rows) k id prev (h, hs) lt =
      ground (arith, h.id, history_below rows k (id + 1) r.record_hash hs (omega arith))

  NoCollisions-tail :
      (rows rows' : List Row) (r' : Row) → NoCollisions rows (r' ∷ rows') → NoCollisions rows rows'
  NoCollisions-tail [] rows' r' h = tt
  NoCollisions-tail (r ∷ rows) rows' r' (h, hs) = (h.1, NoCollisions-tail rows rows' r' hs)

  -- The row that the checkpoint names: its MAC gives its hash.
  hash_of_mac :
      (r r' : Row) (id : ℕ) (prev prev' : Text)
      → IsLinked log id prev r
      → IsLinked log id prev' r'
      → NoCollision r r'
      → r.record_mac ≡ r'.record_mac
      → r.record_hash ≡ r'.record_hash
  hash_of_mac r r' id prev prev' l l' free e = free.hmac (l.record_mac ∙ e ∙ sym l'.record_mac)

  history_cons :
      (r r' : Row) (rows rows' : List Row) (k : ℕ)
      → r ≡ r'
      → history k rows ≡ history k rows'
      → history k (r ∷ rows) ≡ history k (r' ∷ rows')
  history_cons r r' rows rows' k e es = ground (arith, ap (λ (x : Row). x.id) e)

module _ {P : Type 0} (log : AuditLogger P) (hex : HasHexDigests log) where
  record_hash-HasNoBar :
      (r : Row) (id : ℕ) (prev : Text) → IsLinked log id prev r → HasNoBar r.record_hash
  unfolding compute_record_hash
  record_hash-HasNoBar r id prev l = rw (← l.record_hash) (not_bar_of_hex _ (hex.sha256_hex _))

  pinned :
      (rows rows' : List Row) (k id : ℕ) (prev prev' : Text) {q q' : Row}
      → IsIntact log id prev rows
      → IsIntact log id prev' rows'
      → TimesHaveNoBar rows
      → TimesHaveNoBar rows'
      → HasNoBar prev
      → HasNoBar prev'
      → NoCollisions log rows rows'
      → find_row k rows ≡ some q
      → find_row k rows' ≡ some q'
      → q.record_mac ≡ q'.record_mac
      → (history k rows ≡ history k rows') × (prev ≡ prev')
  pinned [] rows' k id prev prev' h h' t t' n n' free f f' e = cc
  pinned (r ∷ rows) [] k id prev prev' h h' t t' n n' free f f' e = cc
  pinned (r ∷ rows) (r' ∷ rows') k id prev prev' {q} {q'} (l, h) (l', h') (t, ts) (t', ts') n n'
        (free, frees) f f' e =
      elim (Bool-cases (r.id == k)) [
        | inl here ↦
            let first : r ≡ q = ground arith in
            let first' : r' ≡ q' = ground (arith, l.id, l'.id) in
            let macs : r.record_mac ≡ r'.record_mac = cc in
            let hashes = hash_of_mac log r r' id prev prev' l l' free.0 macs in
            let (same, prevs) = same_row log r r' id prev prev' l l' t t' n n' free.0 hashes in
            let k_id : k < id + 1 = ground (arith, l.id) in
            (
              history_cons log r r' rows rows' k same (
                  history_below log rows k (id + 1) r.record_hash h k_id
                  ∙ sym (history_below log rows' k (id + 1) r'.record_hash h' k_id)),
              prevs,
            )
        | inr later ↦
            let (pasts, hashes) =
              pinned rows rows' k (id + 1) r.record_hash r'.record_hash {q = q} {q' = q'} h h' ts
                ts' (record_hash-HasNoBar r id prev l) (record_hash-HasNoBar r' id prev' l')
                (NoCollisions-tail log rows rows' r' frees) (ground arith)
                (ground (arith, l.id, l'.id)) e in
            let (same, prevs) = same_row log r r' id prev prev' l l' t t' n n' free.0 hashes in
            (history_cons log r r' rows rows' k same pasts, prevs)
      ]

  genesis-HasNoBar : HasNoBar genesis_hash
  genesis-HasNoBar = omega arith

  -- Two tables that verify_chain calls valid against the same checkpoint hold the same rows up to
  -- the id that it names, where digests are hexadecimal, no timestamp holds a '|' and neither SHA-256
  -- nor HMAC collides on these rows.
  pub checkpoint_pins_history :
      (rows rows' : List Row) (cp : AuditCheckpoint) {res res' : ChainVerificationResult}
      → TimesHaveNoBar rows
      → TimesHaveNoBar rows'
      → NoCollisions log rows rows'
      → verify_chain log (some cp) rows ≡ ok res
      → verify_chain log (some cp) rows' ≡ ok res'
      → res.status ≡ valid
      → res'.status ≡ valid
      → history cp.last_record_id rows ≡ history cp.last_record_id rows'
  checkpoint_pins_history [] rows' cp t t' free e e' v v' =
      absurd (unfold verify_chain in ground arith)
  checkpoint_pins_history (r ∷ rows) [] cp t t' free e e' v v' =
      absurd (unfold verify_chain in ground arith)
  checkpoint_pins_history (r ∷ rows) (r' ∷ rows') cp t t' free e e' v v' =
      let (q, f, m) = verify_chain_names log hex r rows cp e v in
      let (q', f', m') = verify_chain_names log hex r' rows' cp e' v' in
      (pinned (r ∷ rows) (r' ∷ rows') cp.last_record_id 1 genesis_hash genesis_hash
        (verify_chain_sound log (some cp) r rows e v)
        (verify_chain_sound log (some cp) r' rows' e' v') t t' genesis-HasNoBar genesis-HasNoBar
        free f f' (m ∙ sym m')).0
