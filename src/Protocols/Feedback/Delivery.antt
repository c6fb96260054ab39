-- ===== src/Protocols/Feedback/Delivery.antt =====
-- What `ClassicalFeedbackFabric` promises to a correction that waits for a classical bit.
use df_fabric.Prelude.{
  suc, ◌≤◌, String, Bool, true, false, Option, some, ltb, ◌≡◌, ◌≢◌, ◌⊎◌, inl, inr, refl, ap, ◌∙◌,
  arith, Bool-cases, string_dec,
}
use df_fabric.Prelude.Dict.{get, put, get-put, Dict}
use df_fabric.Prelude.Result.{ok, err}
use df_fabric.Protocols.Ebit.{padded}
use Prim.Native.String.{◌++◌ as text_append}
use df_fabric.Protocols.Error.{protocol_error}
use df_fabric.Protocols.Feedback.{
  ClassicalMessage, FeedbackFabric, is_delivered, is_timed_out, is_lost, get_message, log_message,
  assert_ready, later, receive, retry, arrive, deliver, time_out, message, post, new_message_id,
  delivered, timed_out,
}

put-apart :
    {A : Type 0} (d : Dict String A) (k j : String) (v : A)
    → j ≢ k
    → get string_dec (put string_dec d k v) j ≡ get string_dec d j
put-apart d k j v apart = ground (arith, get-put string_dec d k j v)

module _ {T : Type 0} where
  -- the id of the next message
  abbrev pub next_id : FeedbackFabric T → String
  next_id s = text_append s.prefix (text_append "-" (padded (suc s.counter)))

  ready_lem :
      (s : FeedbackFabric T) (i : String) (m : ClassicalMessage T)
      → get string_dec s.messages i ≡ some m
      → (is_delivered m.state ≡ true → (assert_ready i s).0 ≡ ok m.payload)
        × (is_delivered m.state ≡ false → (assert_ready i s).0 ≡ err protocol_error)
  unfolding assert_ready get_message
  ready_lem s i m g = ((λ h. rw (g, h) refl), λ h. rw (g, h) refl)

module _ {T : Type 0} (zero : T) (plus : T → T → T) (before : T → T → Bool) where
  receive_lem :
      (s : FeedbackFabric T) (i : String) (m : ClassicalMessage T)
      → get string_dec s.messages i ≡ some m
      → (is_delivered m.state ≡ true → receive zero plus before i s ≡ (ok m.payload, s))
        × (is_delivered m.state ≡ false
            → is_lost m.state ≡ true
            → receive zero plus before i s ≡ (err protocol_error, s))
        × (is_delivered m.state ≡ false
            → is_lost m.state ≡ false
            → receive zero plus before i s ≡ arrive zero plus before m s)
  unfolding receive get_message
  receive_lem s i m g =
      ((λ h. rw (g, h) refl), (λ h l. rw (g, h, l) refl), λ h l. rw (g, h, l) refl)

  arrived :
      (s : FeedbackFabric T) (i : String) (m : ClassicalMessage T)
      → m.msg_id ≡ i
      → ((r : ClassicalMessage T) × (get string_dec (deliver zero plus before m s).messages i
            ≡ some r)
          × (r.payload ≡ m.payload)
          × (is_delivered r.state ≡ true))
        × ((r : ClassicalMessage T) × (get string_dec (time_out zero plus before m s).messages i
              ≡ some r)
            × (is_delivered r.state ≡ false))
  unfolding deliver time_out log_message
  arrived s i m named =
      let r = record m {
        state = delivered;
        deliver_time = some (later zero plus before s.clock m.arrival_time);
      } in
      let u = record m { state = timed_out } in
      (
        (r, ground (arith, get-put string_dec s.messages i i r), refl, refl),
        (u, ground (arith, get-put string_dec s.messages i i u), refl),
      )

  arrive_lem :
      (s : FeedbackFabric T) (m : ClassicalMessage T)
      → (before s.timeout m.latency ≡ false
          → arrive zero plus before m s ≡ (ok m.payload, deliver zero plus before m s))
        × (before s.timeout m.latency ≡ true
            → arrive zero plus before m s ≡ (err protocol_error, time_out zero plus before m s))
  unfolding arrive
  arrive_lem s m = ((λ h. rw h refl), λ h. rw h refl)

  -- A message under its own id that is not lost and within the timeout is received, and its gate is open then with its
  -- payload. One that is lost or, not yet delivered, exceeds the timeout raises, and its gate stays
  -- shut.
  pub receive-assert_ready :
      (s : FeedbackFabric T) (i : String) (m : ClassicalMessage T)
      → get string_dec s.messages i ≡ some m
      → m.msg_id ≡ i
      → (is_lost m.state ≡ false
          → before s.timeout m.latency ≡ false
          → ((receive zero plus before i s).0 ≡ ok m.payload)
            × ((assert_ready i (receive zero plus before i s).1).0 ≡ ok m.payload))
        × (is_delivered m.state ≡ false
            → (is_lost m.state ≡ true) ⊎ (before s.timeout m.latency ≡ true)
            → ((receive zero plus before i s).0 ≡ err protocol_error)
              × ((assert_ready i (receive zero plus before i s).1).0 ≡ err protocol_error))
  receive-assert_ready s i m g named =
      let (kept, refused, fresh) = receive_lem s i m g in
      let (intime, late) = arrive_lem s m in
      (
        λ found inside. elim (Bool-cases (is_delivered m.state)) [
          | inl d ↦ rw (kept d) (refl, (ready_lem s i m g).0 d)
          | inr d ↦
              let (r, gr, pr, dr) = (arrived s i m named).0 in
              rw (fresh d found ∙ intime inside)
                (refl, (ready_lem (deliver zero plus before m s) i r gr).0 dr ∙ ap ok pr)
        ],
        λ waiting bad. elim (Bool-cases (is_lost m.state)) [
          | inl l ↦ rw (refused waiting l) (refl, (ready_lem s i m g).1 waiting)
          | inr l ↦
              let exceeds : before s.timeout m.latency ≡ true = ground arith in
              let (r, gr, dr) = (arrived s i m named).1 in
              rw (fresh waiting l ∙ late exceeds)
                (refl, (ready_lem (time_out zero plus before m s) i r gr).1 dr)
        ],
      )

  retry_lem :
      (s : FeedbackFabric T) (i : String) (m : ClassicalMessage T) (latency : Option T)
      → get string_dec s.messages i ≡ some m
      → is_timed_out m.state ≡ true
      → ltb s.max_retries m.attempts ≡ false
      → (t : FeedbackFabric T) × (retry zero plus before i latency s ≡ (ok (next_id s), t))
        × (t.max_retries ≡ s.max_retries)
        × ((j : String) → j ≢ next_id s → get string_dec t.messages j ≡ get string_dec s.messages j)
  unfolding retry get_message new_message_id post log_message message
  retry_lem s i m latency g lost few = (
    (retry zero plus before i latency s).1,
    rw (g, lost, few) refl,
    rw (g, lost, few) refl,
    λ j apart. rw (g, lost, few) (put-apart s.messages (next_id s) j _ apart),
  )

  -- A message that timed out on an attempt within the budget is sent again under the next id, and it
  -- stays as it is: to retry it once more succeeds too, with the same budget, as long as the next id
  -- is not its own.
  pub retry_again :
      (s : FeedbackFabric T) (i : String) (m : ClassicalMessage T) (latency again : Option T)
      → get string_dec s.messages i ≡ some m
      → is_timed_out m.state ≡ true
      → m.attempts ≤ s.max_retries
      → i ≢ next_id s
      → (t : FeedbackFabric T) × (j : String) × (retry zero plus before i latency s
          ≡ (ok (next_id s), t))
        × (get string_dec t.messages i ≡ some m)
        × ((retry zero plus before i again t).0 ≡ ok j)
  retry_again s i m latency again g lost few apart =
      let (t, e, budget, others) = retry_lem s i m latency g lost (ground arith) in
      let still : get string_dec t.messages i ≡ some m = others i apart ∙ g in
      let (u, e', _, _) = retry_lem t i m again still lost (ground arith) in
      (t, next_id t, e, still, ap (λ p. p.0) e')
