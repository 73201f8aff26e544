-- ===== src/Idempotency/Examples.antt =====
-- A counter that is raised once for a key.
use repair_flow.Common.{◌>>=◌, Result, ok, ℕ, ◌+◌, String, ◌≡◌, refl, none, some, [], ◌∷◌, arith}
use repair_flow.Idempotency.{Record, Store, Call, execute_stored}
use repair_flow.Idempotency.Replay.{repeated_call_replays}

abbrev same_text : String → String
same_text s = s

abbrev keep : ℕ → ℕ → Result ℕ
keep response world = ok world

abbrev raise : ℕ → Result (ℕ × ℕ)
raise world = ok (world + 1, world + 1)

abbrev call : String → Call ℕ ℕ
call request = record {
  shop_id = "s1";
  scope = "payments.create";
  key = some "0123456789abcdef";
  request = request;
  record_expires_at = none;
  on_replay = keep;
  expired_replay = none;
  operation = raise;
}

abbrev before : Store ℕ ℕ
before = record { records = []; world = 4 }

abbrev row : Record ℕ
row = record {
  shop_id = "s1";
  scope = "payments.create";
  key_hash = "0123456789abcdef";
  request_hash = "pay 100";
  response_body = 5;
  expires_at = 86400010;
}

abbrev after : Store ℕ ℕ
after = record { records = row ∷ []; world = 5 }

ran : execute_stored same_text 10 (call "pay 100") before ≡ ok (5, after)
unfolding execute_stored
ran = refl

repeated_call_replays_example :
    execute_stored same_text 20 (call "pay 100") (record after { world = 9 })
    ≡ (keep 5 9 >>= (λ w. ok (5, record { records = row ∷ []; world = w })))
repeated_call_replays_example =
    repeated_call_replays same_text 10 20 (call "pay 100") (call "pay 100") "0123456789abcdef"
      before after (record after { world = 9 }) 5 row refl ran refl refl refl refl refl refl
      (omega arith)
