-- ===== src/Idempotency.antt =====
-- apps/api/src/common/idempotency/idempotency.service.ts: an operation run under an idempotency
-- key. The operation and what replays do are parameters of a call, over any state `W` of the rest
-- of the database and any response `R`. SHA-256 over the canonical JSON of a request, and over a
-- key, is the parameter `hash`. The advisory lock of the key makes the calls for one key take turns,
-- so that the unique constraint behind it is never violated, and its handler is left out.
pub mod Replay
mod Examples
use repair_flow.Common.{
  ltb, leb, if◌then◌else◌, filter, find, sum_by, guard, ◌>>=◌, ◌>>◌, ErrorCode, Result,
  validation_failed, idempotency_key_reused, ok, err, ℕ, ◌+◌, ◌*◌, String, str_eq, Bool, not, ◌&&◌,
  Option, none, some, List, ◌∷◌,
}
use repair_flow.Common.Text.{codes}

abbrev units : ℕ → ℕ
units c = if ltb c 0x10000 then 1 else 2

-- `key.length`, in UTF-16 code units.
abbrev pub text_length : String → ℕ
text_length s = sum_by units (codes s)

abbrev pub ttl_ms : ℕ
ttl_ms = 24 * 60 * 60 * 1000

pub record Record {ℓ} (R : Type ℓ) : Type ℓ where
  pub shop_id : String
  pub scope : String
  pub key_hash : String
  pub request_hash : String
  pub response_body : R
  pub expires_at : ℕ

abbrev pub is_key {ℓ} : {R : Type ℓ} → String → String → String → Record R → Bool
is_key shop scope key_hash x =
    str_eq x.shop_id shop && str_eq x.scope scope && str_eq x.key_hash key_hash

pub record Store {ℓ κ} (R : Type ℓ) (W : Type κ) : Type (ℓ ⊔ κ) where
  pub records : List (Record R)
  pub world : W

-- `ExecuteIdempotentlyOptions`; `expired_replay` is the error that an expired replay throws, if any.
pub record Call {ℓ κ} (R : Type ℓ) (W : Type κ) : Type (ℓ ⊔ κ) where
  pub shop_id : String
  pub scope : String
  pub key : Option String
  pub request : String
  pub record_expires_at : Option (R → ℕ)
  pub on_replay : R → W → Result W
  pub expired_replay : Option ErrorCode
  pub operation : W → Result (R × W)

unfoldable pub validated_key : Option String → Result String
validated_key none = err validation_failed
validated_key (some key) = do
  guard (leb 16 (text_length key) && leb (text_length key) 128) validation_failed
  ok key

abbrev pub expiry {ℓ} : {R : Type ℓ} → ℕ → Option (R → ℕ) → R → ℕ
expiry now none response = now + ttl_ms
expiry now (some at) response = at response

module _ {ℓ κ} {R : Type ℓ} {W : Type κ} (hash : String → String) where
  -- A response is a value of JSON, which comes back as it is from its text.
  unfoldable pub run_operation : ℕ → Call R W → String → Store R W → Result (R × Store R W)
  run_operation now c key_hash s = do
    done ← c.operation s.world
    ok (
      done.0,
      record {
        records =
            record {
              shop_id = c.shop_id;
              scope = c.scope;
              key_hash = key_hash;
              request_hash = hash c.request;
              response_body = done.0;
              expires_at = expiry now c.record_expires_at done.0;
            }
            ∷ s.records;
        world = done.1;
      },
    )

  unfoldable pub replay : ℕ → Call R W → Record R → Store R W → Result (R × Store R W)
  replay now c existing s = do
    world ← c.on_replay existing.response_body s.world
    ok (existing.response_body, record s { world = world })

  -- A record that has expired is an error for some calls, and is deleted for the others.
  unfoldable pub rerun :
      ℕ → Call R W → String → Option ErrorCode → Store R W → Result (R × Store R W)
  unfolding run_operation
  rerun now c key_hash (some code) s = err code
  rerun now c key_hash none s = run_operation now c key_hash (record s {
    records = filter (λ (x : Record R). not (is_key c.shop_id c.scope key_hash x)) s.records;
  })

  unfoldable pub with_existing :
      ℕ → Call R W → String → Option (Record R) → Store R W → Result (R × Store R W)
  unfolding run_operation replay rerun
  with_existing now c key_hash none s = run_operation now c key_hash s
  with_existing now c key_hash (some existing) s = do
    guard (str_eq existing.request_hash (hash c.request)) idempotency_key_reused
    if ltb now existing.expires_at
        then replay now c existing s
        else rerun now c key_hash c.expired_replay s

  unfoldable pub execute_stored : ℕ → Call R W → Store R W → Result (R × Store R W)
  unfolding validated_key with_existing
  execute_stored now c s = do
    key ← validated_key c.key
    with_existing now c (hash key) (find (is_key c.shop_id c.scope (hash key)) s.records) s
