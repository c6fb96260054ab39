-- ===== src/Tests/Feedback.antt =====
-- `ClassicalFeedbackFabric` at concrete inputs, with natural numbers for times.
use df_fabric.Prelude.{
  ℕ, ◌+◌, ◌≤◌, String, List, [], ◌∷◌, Bool, true, false, none, some, ltb, ◌≡◌, ◌≢◌, refl, arith,
  string_dec, ap, is_yes,
}
use df_fabric.Prelude.Dict.{get}
use df_fabric.Prelude.Result.{ok}
use df_fabric.Payload.{text}
use df_fabric.Protocols.{protocol_error}
use df_fabric.Protocols.Feedback.{
  ClassicalMessage, FeedbackFabric, sent, timed_out, receive, assert_ready, retry,
}
use df_fabric.Protocols.Ebit
use df_fabric.Protocols.Feedback.Delivery.{receive-assert_ready, retry_again, next_id}

abbrev bit : ClassicalMessage ℕ
bit = record {
  msg_id = "MSG-000001";
  src = "n1";
  dst = "n2";
  payload = text "1";
  send_time = 0;
  latency = 1;
  arrival_time = 1;
  state = sent;
  attempts = 1;
  depends_on = [];
  deliver_time = none;
}

abbrev carrying : ClassicalMessage ℕ → FeedbackFabric ℕ
carrying m = record {
  default_latency = 1;
  timeout = 8;
  max_retries = 2;
  prefix = "MSG";
  clock = 0;
  messages = ("MSG-000001", m) ∷ [];
  order = "MSG-000001" ∷ [];
  happens_before = [];
  event_log = [];
  counter = 1;
}

abbrev plus : ℕ → ℕ → ℕ
plus a b = a + b

receive_example :
    ((receive 0 plus ltb "MSG-000001" (carrying bit)).0 ≡ ok (text "1"))
    × ((assert_ready "MSG-000001" (receive 0 plus ltb "MSG-000001" (carrying bit)).1).0
        ≡ ok (text "1"))
unfolding get string_dec
receive_example =
    (receive-assert_ready 0 plus ltb (carrying bit) "MSG-000001" bit refl refl).0 refl refl

abbrev late_bit : ClassicalMessage ℕ
late_bit = record bit { state = timed_out; latency = 9 }

apart : "MSG-000001" ≢ next_id (carrying late_bit)
unfolding string_dec df_fabric.Protocols.Ebit.padded df_fabric.Prelude.Text.str
apart e = let h : false ≡ true = ap (λ s. is_yes (string_dec s "MSG-000002")) e in ground arith

retry_example :
    (t : FeedbackFabric ℕ) × (j : String) × (retry 0 plus ltb "MSG-000001" none (carrying late_bit)
      ≡ (ok (next_id (carrying late_bit)), t))
    × (get string_dec t.messages "MSG-000001" ≡ some late_bit)
    × ((retry 0 plus ltb "MSG-000001" none t).0 ≡ ok j)
unfolding get string_dec
retry_example =
    retry_again 0 plus ltb (carrying late_bit) "MSG-000001" late_bit none none refl refl
      (omega arith) apart
