-- ===== src/Idempotency/Replay.antt =====
-- What a second call under the key of a call that succeeded does.
use repair_flow.Common.{
  ltb, Bool-cases, some-eq-some, find, guard, ◌>>=◌, ok_of_bind, ok_of_then, guard-eq-ok, ErrorCode,
  idempotency_key_reused, ok, err, ℕ, ◌<◌, String, str_eq, eq_iff, ◌≡◌, refl, sym, ap, subst, ◌∙◌,
  ◌≢◌, inl, inr, true, false, Option, none, some, List, ◌∷◌, arith,
}
use repair_flow.Idempotency.{
  Record, Store, Call, is_key, expiry, validated_key, run_operation, replay, rerun, with_existing,
  execute_stored,
}

-- The row of a key holds the answer that was given, to this request.
record Answers {ℓ} {R : Type ℓ} (hash : String → String) (shop scope key_hash request : String)
    (response : R) (records : List (Record R)) : Type ℓ where
  row : Record R
  found : find (is_key shop scope key_hash) records ≡ some row
  same_request : row.request_hash ≡ hash request
  answer : row.response_body ≡ response

own_key {ℓ} :
    {R : Type ℓ} (shop scope key_hash : String) (x : Record R)
    → x.shop_id ≡ shop
    → x.scope ≡ scope
    → x.key_hash ≡ key_hash
    → is_key shop scope key_hash x ≡ true
own_key shop scope key_hash x h k l =
    ground (arith, eq_iff x.shop_id shop, eq_iff x.scope scope, eq_iff x.key_hash key_hash)

valid_key :
    (given : Option String) (key : String) {k : String}
    → given ≡ some key
    → validated_key given ≡ ok k
    → validated_key given ≡ ok key
unfolding validated_key
valid_key given key h v = rw h (ground (arith, h, v))

module _ {ℓ κ} {R : Type ℓ} {W : Type κ} (hash : String → String) where
  run_operation-Answers :
      (now : ℕ) (c : Call R W) (key_hash : String) (s s' : Store R W) (response : R)
      → run_operation hash now c key_hash s ≡ ok (response, s')
      → Answers hash c.shop_id c.scope key_hash c.request response s'.records
  unfolding run_operation
  run_operation-Answers now c key_hash s s' response h =
      let (done, ran, h1) = ok_of_bind (c.operation s.world) _ h in
      let row : Record R = record {
        shop_id = c.shop_id;
        scope = c.scope;
        key_hash = key_hash;
        request_hash = hash c.request;
        response_body = done.0;
        expires_at = expiry now c.record_expires_at done.0;
      } in
      let rows : row ∷ s.records ≡ s'.records = cc h1 in
      record {
        row = row;
        found =
            subst (λ rs. find (is_key c.shop_id c.scope key_hash) rs ≡ some row) rows
              (rw (own_key c.shop_id c.scope key_hash row refl refl refl) refl);
        same_request = refl;
        answer = cc h1;
      }

  replay-Answers :
      (now : ℕ) (c : Call R W) (key_hash : String) (x : Record R) (s s' : Store R W) (response : R)
      → find (is_key c.shop_id c.scope key_hash) s.records ≡ some x
      → x.request_hash ≡ hash c.request
      → replay hash now c x s ≡ ok (response, s')
      → Answers hash c.shop_id c.scope key_hash c.request response s'.records
  unfolding replay
  replay-Answers now c key_hash x s s' response found same h =
      let (world, ran, h1) = ok_of_bind (c.on_replay x.response_body s.world) _ h in
      let rows : s.records ≡ s'.records = cc h1 in
      record {
        row = x;
        found = subst (λ rs. find (is_key c.shop_id c.scope key_hash) rs ≡ some x) rows found;
        same_request = same;
        answer = cc h1;
      }

  rerun-Answers :
      (now : ℕ) (c : Call R W) (key_hash : String) (expired : Option ErrorCode) (s s' : Store R W)
      (response : R)
      → rerun hash now c key_hash expired s ≡ ok (response, s')
      → Answers hash c.shop_id c.scope key_hash c.request response s'.records
  unfolding rerun
  rerun-Answers now c key_hash (some code) s s' response h = cc
  rerun-Answers now c key_hash none s s' response h =
      run_operation-Answers now c key_hash _ s' response h

  existing-Answers :
      (now : ℕ) (c : Call R W) (key_hash : String) (existing : Option (Record R)) (s s' : Store R W)
      (response : R)
      → find (is_key c.shop_id c.scope key_hash) s.records ≡ existing
      → with_existing hash now c key_hash existing s ≡ ok (response, s')
      → Answers hash c.shop_id c.scope key_hash c.request response s'.records
  unfolding with_existing
  existing-Answers now c key_hash none s s' response f h =
      run_operation-Answers now c key_hash s s' response h
  existing-Answers now c key_hash (some x) s s' response f h =
      let (same, h1) =
        ok_of_then (guard (str_eq x.request_hash (hash c.request)) idempotency_key_reused) _ h in
      let agree : x.request_hash ≡ hash c.request =
        ground (arith, guard-eq-ok _ _ same, eq_iff x.request_hash (hash c.request)) in
      elim (Bool-cases (ltb now x.expires_at)) [
        | inl valid ↦ replay-Answers now c key_hash x s s' response f agree (rw valid at h1)
        | inr expired ↦
            rerun-Answers now c key_hash c.expired_replay s s' response (rw expired at h1)
      ]

  execute_stored-Answers :
      (now : ℕ) (c : Call R W) (key : String) (s s' : Store R W) (response : R)
      → c.key ≡ some key
      → execute_stored hash now c s ≡ ok (response, s')
      → (validated_key c.key ≡ ok key)
        × Answers hash c.shop_id c.scope (hash key) c.request response s'.records
  unfolding execute_stored
  execute_stored-Answers now c key s s' response given h =
      let (k, valid, h1) = ok_of_bind (validated_key c.key) _ h in
      let known = valid_key c.key key given valid in
      let same : k ≡ key = cc (valid, known) in
      (
        known,
        subst (λ x. Answers hash c.shop_id c.scope (hash x) c.request response s'.records) same
            (existing-Answers now c (hash k) _ s s' response refl h1),
      )

  -- A call that repeats one that succeeded, with its key and request and before the record expires,
  -- answers as that one did. It runs no operation: it changes what its replay changes, and no
  -- record, whatever happened to the rest of the database in between.
  pub repeated_call_replays :
      (now later : ℕ) (c d : Call R W) (key : String) (s s' t : Store R W) (response : R)
      (x : Record R)
      → c.key ≡ some key
      → execute_stored hash now c s ≡ ok (response, s')
      → d.key ≡ c.key
      → d.shop_id ≡ c.shop_id
      → d.scope ≡ c.scope
      → d.request ≡ c.request
      → t.records ≡ s'.records
      → find (is_key c.shop_id c.scope (hash key)) s'.records ≡ some x
      → later < x.expires_at
      → execute_stored hash later d t
        ≡ (d.on_replay response t.world >>= (λ w. ok (response, record t { world = w })))
  unfolding execute_stored with_existing replay
  repeated_call_replays now later c d key s s' t response x given h k shop scope request rows found
        valid =
      let (known, a) = execute_stored-Answers now c key s s' response given h in
      let same : a.row ≡ x = some-eq-some (sym a.found ∙ found) in
      let again : find (is_key d.shop_id d.scope (hash key)) t.records ≡ some x =
        rw (shop, scope, rows) found in
      let agrees : x.request_hash ≡ hash d.request =
        ap (λ (y : Record R). y.request_hash) (sym same) ∙ a.same_request ∙ ap hash (sym request) in
      let tested : str_eq x.request_hash (hash d.request) ≡ true =
        ground (arith, agrees, eq_iff x.request_hash (hash d.request)) in
      let early : ltb later x.expires_at ≡ true = ground (arith, valid) in
      let body : x.response_body ≡ response =
        ap (λ (y : Record R). y.response_body) (sym same) ∙ a.answer in
      rw (k, known) (rw again (rw (tested, early) (rw body refl)))

  -- A call that uses the key of a call that succeeded for a request with another hash is refused.
  reused_key_refused :
      (now later : ℕ) (c d : Call R W) (key : String) (s s' t : Store R W) (response : R)
      → c.key ≡ some key
      → execute_stored hash now c s ≡ ok (response, s')
      → d.key ≡ c.key
      → d.shop_id ≡ c.shop_id
      → d.scope ≡ c.scope
      → hash d.request ≢ hash c.request
      → t.records ≡ s'.records
      → execute_stored hash later d t ≡ err idempotency_key_reused
  unfolding execute_stored with_existing
  reused_key_refused now later c d key s s' t response given h k shop scope differs rows =
      let (known, a) = execute_stored-Answers now c key s s' response given h in
      let again : find (is_key d.shop_id d.scope (hash key)) t.records ≡ some a.row =
        rw (shop, scope, rows) a.found in
      let tested : str_eq a.row.request_hash (hash d.request) ≡ false =
        ground (arith, a.same_request, differs, eq_iff a.row.request_hash (hash d.request)) in
      rw (k, known) (rw again (rw tested refl))
