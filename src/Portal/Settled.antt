-- ===== src/Portal/Settled.antt =====
-- What a decision that is accepted leaves behind, and that a quote is decided once.
use repair_flow.Common.{
  ◌==◌, if◌then◌else◌, is_some, Bool-cases, and-split, some-eq-some, any, find, count, find-holds,
  all_distinct, ok, ℕ, ◌+◌, String, str_eq, eq_iff, ◌≡◌, refl, sym, ap, subst, ◌∙◌, ◌≢◌, inl, inr,
  true, false, not, ◌&&◌, ◌||◌, Option, none, some, List, [], ◌∷◌, map, arith, find-map, find-only,
  find-counted,
}
use repair_flow.RepairOrders.Types.{
  approved, ready_for_pickup, declined_quote, awaiting_approval, eq_status, PartRequirement, Order,
  Json, Db,
}
use repair_flow.RepairOrders.Transition.{
  move_row, find_for_transition, transition_after_quote_decision,
}
use repair_flow.RepairOrders.Transition.Effect.{moved-IsTransition}
use repair_flow.Portal.Decision.{DecisionCalculation, calculate_decision}
use repair_flow.Portal.Visit.{
  order_of, TokenRow, Visit, VersionRow, DecisionArtifact, find_version, db_of,
}
use repair_flow.Portal.Deciding.{
  touch_token, scope_keys, is_decline, DecisionRequest, is_sent, find_token, is_undecided,
  decide_version, decide_versions, is_dropped, reconcile_part_requirements, write_decision,
  decision_command, decide,
}
use repair_flow.Portal.Snapshot.{approved_snapshot}
use repair_flow.Portal.Taken.{decide-IsTaken}
use repair_flow.RepairOrders.Transition.{is_row}

reconciled :
    (keys : List String) (rows : List PartRequirement)
    → any (is_dropped keys) (reconcile_part_requirements keys rows) ≡ false
unfolding reconcile_part_requirements
reconciled keys [] = refl
reconciled keys (p ∷ rows) = elim (Bool-cases (is_dropped keys p)) [
  | inl dropped ↦ rw (dropped, reconciled keys rows) refl
  | inr kept ↦ rw (kept, reconciled keys rows) (ground (arith, kept))
]

-- The version that was decided is the one that the link shows, before and after.
decided_version :
    (now : ℕ) (r : DecisionRequest) (c : DecisionCalculation) (shop : String) (id : Option String)
    (versions : List VersionRow) (version : VersionRow)
    → find_version id versions ≡ some version
    → is_undecided shop version.id version ≡ true
    → find_version id (decide_versions now r c shop version.id versions)
      ≡ some (decide_version now r c version)
unfolding decide_versions
decided_version now r c shop none versions version found h = cc
decided_version now r c shop (some id) versions version found h =
    find-map (λ (v : VersionRow). str_eq v.id id)
      (λ v. if is_undecided shop version.id v then decide_version now r c v else v)
      (λ v. elim (Bool-cases (is_undecided shop version.id v)) [
        | inl yes_one ↦ rw yes_one refl
        | inr other ↦ rw other refl
      ])
      versions found
    ∙ rw h refl

-- The columns of the version that is decided, beside those that it had.
abbrev pub decided_row : ℕ → DecisionRequest → DecisionCalculation → VersionRow → VersionRow
decided_row now r c version = record version {
  status = c.status;
  decided_at = some now;
  approval = some (record {
    decision = r.decision;
    approved_item_snapshot = approved_snapshot c.approved_items;
    approved_total = c.approved_total;
    customer_note = r.customer_note;
    decided_at = now;
  });
}

pub record IsDecided (now : ℕ) (r : DecisionRequest) (s s' : Visit) (version : VersionRow)
    (c : DecisionCalculation) : Type 0 where
  pub token : TokenRow
  pub link : find_token r.token_hash s.tokens ≡ some token
  pub before : find_version token.quote_version_id s.versions ≡ some version
  pub undecided : (is_sent version.status && not (is_some version.approval)) ≡ true
  pub waited : eq_status s.row.status awaiting_approval ≡ true
  pub calculated :
      calculate_decision version.items version.discount r.decision r.approved_item_ids ≡ ok c
  pub after : find_version token.quote_version_id s'.versions ≡ some (decided_row now r c version)
  pub link_after : find_token r.token_hash s'.tokens ≡ some (touch_token now token token)
  pub status : s'.row.status ≡ (if is_decline r.decision then ready_for_pickup else approved)
  pub outcome :
      s'.row.completion_outcome
      ≡ (if is_decline r.decision then some declined_quote else s.row.completion_outcome)
  pub lock_version : s'.row.lock_version ≡ s.row.lock_version + 1
  pub reconciled :
      (is_decline r.decision
        || not (any (is_dropped (scope_keys c.approved_items)) s'.row.part_requirements))
      ≡ true

moved_row :
    (optional_email : Option Json → Option String) (now : ℕ) (r : DecisionRequest)
    (c : DecisionCalculation) (version : VersionRow) (s : Visit) (moved : Order × Db)
    → transition_after_quote_decision optional_email now
        (db_of (write_decision now r c version s))
        (decision_command r s.row)
      ≡ ok moved
    → moved.0
      ≡ move_row now
          (decision_command r s.row)
          (order_of (write_decision now r c version s))
          (order_of (write_decision now r c version s))
unfolding transition_after_quote_decision find_for_transition
moved_row optional_email now r c version s (row, db) h =
    let written = write_decision now r c version s in
    let (order, t) =
      moved-IsTransition optional_email now (db_of written) (decision_command r s.row) row db h in
    let same = find-only (is_row s.row.shop_id s.row.id) {x = order_of written} t.found in
    t.result ∙ ap (λ o. move_row now (decision_command r s.row) o o) (sym same)

settled_reconciled :
    (now : ℕ) (r : DecisionRequest) (c : DecisionCalculation) (version : VersionRow) (s : Visit)
    → (is_decline r.decision
        || not (
            any
              (is_dropped (scope_keys c.approved_items))
              (write_decision now r c version s).row.part_requirements))
      ≡ true
unfolding write_decision
settled_reconciled now r c version s = elim (Bool-cases (is_decline r.decision)) [
  | inl yes_one ↦ rw yes_one refl
  | inr other ↦ rw (other, reconciled (scope_keys c.approved_items) s.row.part_requirements) refl
]

settled_outcome :
    (now : ℕ) (r : DecisionRequest) (s : Visit) (o : Order)
    → o.completion_outcome ≡ s.row.completion_outcome
    → (move_row now (decision_command r s.row) o o).completion_outcome
      ≡ (if is_decline r.decision then some declined_quote else s.row.completion_outcome)
unfolding move_row
settled_outcome now r s o h = elim (Bool-cases (is_decline r.decision)) [
  | inl yes_one ↦ rw yes_one refl
  | inr other ↦ rw other h
]

found_token :
    (now : ℕ) (hash : String) (tokens : List TokenRow) (token : TokenRow)
    → find_token hash tokens ≡ some token
    → find_token hash (map (touch_token now token) tokens) ≡ some (touch_token now token token)
found_token now hash tokens token h =
    find-map (λ (t : TokenRow). str_eq t.token_hash hash) (touch_token now token)
      (λ t. elim (Bool-cases (str_eq t.id token.id)) [
        | inl same ↦ rw same refl
        | inr other ↦ rw other refl
      ])
      tokens h

undecided_version :
    (shop : String) (id : Option String) (versions : List VersionRow) (version : VersionRow)
    → all_distinct (map (λ (v : VersionRow). v.id) versions) ≡ true
    → find_version id versions ≡ some version
    → (count (is_undecided shop version.id) versions == 1) ≡ true
    → is_undecided shop version.id version ≡ true
undecided_version shop none versions version distinct found single = cc
undecided_version shop (some id) versions version distinct found single =
    let same =
      (eq_iff version.id id).0
        (find-holds (λ (v : VersionRow). str_eq v.id id) versions version found) in
    find-counted (λ (v : VersionRow). v.id) (is_undecided shop version.id) version.id
      (λ v h. ground arith) versions distinct
      (subst (λ (i : String). find (λ (v : VersionRow). str_eq v.id i) versions ≡ some version)
        (sym same) found)
      single

-- A decision that is accepted decides the quote version of the link, which was sent and undecided,
-- while its order awaited approval, given that the ids of the versions differ. The version then has
-- the calculated status, total and snapshot; the order is approved, or ready for pickup as declined,
-- one lock version later; and unless the quote was declined, no part requirement outside the
-- approved scope stays open.
pub decide_lem :
    (normalize : String → String) (optional_email : Option Json → Option String) (now : ℕ)
    (r : DecisionRequest) (s s' : Visit) (a : DecisionArtifact)
    → all_distinct (map (λ (v : VersionRow). v.id) s.versions) ≡ true
    → decide normalize optional_email now r s ≡ ok (s', a)
    → (version : VersionRow) × (c : DecisionCalculation) × IsDecided now r s s' version c
unfolding write_decision move_row
decide_lem normalize optional_email now r s s' a distinct h =
    let p = decide-IsTaken normalize optional_email now r s s' a h in
    let c = p.checked.calculation in
    let version = p.checked.version in
    let written = write_decision now r c version s in
    let row = moved_row optional_email now r c version s p.moved p.moves in
    let open_before =
      undecided_version s.row.shop_id p.checked.token.quote_version_id s.versions version distinct
        p.cleared.shown p.cleared.single in
    (
      version,
      c,
      subst (λ x. IsDecided now r s x version c) p.visit
          (record {
            token = p.checked.token;
            link = p.cleared.link;
            before = p.cleared.shown;
            undecided = p.cleared.undecided;
            waited = p.cleared.waiting;
            calculated = p.cleared.calculated;
            after =
                decided_version now r c s.row.shop_id p.checked.token.quote_version_id s.versions
                  version p.cleared.shown open_before;
            link_after = found_token now r.token_hash s.tokens p.checked.token p.cleared.link;
            status = ap (λ (o : Order). o.status) row;
            outcome =
                ap (λ (o : Order). o.completion_outcome) row
                ∙ settled_outcome now r s (order_of written) refl;
            lock_version = ap (λ (o : Order). o.lock_version) row;
            reconciled =
                subst
                  (λ (o : Order).
                    (is_decline r.decision
                      || not (any (is_dropped (scope_keys c.approved_items)) o.part_requirements))
                    ≡ true)
                  (sym row) (settled_reconciled now r c version s);
          }),
    )

touched_version :
    (now : ℕ) (token : TokenRow)
    → (touch_token now token token).quote_version_id ≡ token.quote_version_id
touched_version now token = elim (Bool-cases (str_eq token.id token.id)) [
  | inl same ↦ rw same refl
  | inr other ↦ rw other refl
]

true_ne_false : true ≡ false → ⊥
true_ne_false h = cc

-- A quote is decided once: after a decision through a link that succeeded, no other decision
-- through that link succeeds, whatever it asks for and whenever it comes.
pub decide_once :
    (normalize : String → String) (optional_email : Option Json → Option String) (now later : ℕ)
    (r again : DecisionRequest) (s s' : Visit) (a : DecisionArtifact)
    (second : Visit × DecisionArtifact)
    → all_distinct (map (λ (v : VersionRow). v.id) s.versions) ≡ true
    → decide normalize optional_email now r s ≡ ok (s', a)
    → again.token_hash ≡ r.token_hash
    → decide normalize optional_email later again s' ≢ ok second
decide_once normalize optional_email now later r again s s' a second distinct h same k =
    let (version, c, d) = decide_lem normalize optional_email now r s s' a distinct h in
    let p = decide-IsTaken normalize optional_email later again s' second.0 second.1 k in
    let held =
      some-eq-some (sym p.cleared.link ∙ ap (λ x. find_token x s'.tokens) same ∙ d.link_after) in
    let version_id = ap (λ (t : TokenRow). t.quote_version_id) held ∙ touched_version now d.token in
    let decided =
      some-eq-some
        (sym p.cleared.shown ∙ ap (λ i. find_version i s'.versions) version_id ∙ d.after) in
    let open_again =
      subst (λ (v : VersionRow). (is_sent v.status && not (is_some v.approval)) ≡ true) decided
        p.cleared.undecided in
    absurd (true_ne_false (sym (and-split (is_sent c.status) false open_again).1))
