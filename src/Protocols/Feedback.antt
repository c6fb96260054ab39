-- ===== src/Protocols/Feedback.antt =====
-- `ClassicalFeedbackFabric` of protocols.py. Times are floats: their type, zero, sum and order are
-- parameters. Of an event's extra fields nothing is modelled, and the counts are natural numbers.
pub mod Delivery
use df_fabric.Prelude.{
  ℕ, suc, ◌+◌, String, List, [], ◌∷◌, ◌++◌, map, Bool, true, false, not, Option, none, some, ltb,
  is_yes, string_dec, if◌then◌else◌,
}
use df_fabric.Prelude.Dict.{Dict, get, put}
use df_fabric.Prelude.Result.{ok, err}
use df_fabric.Prelude.Exec.{Exec, pure, raise, raise_when, modify, gets, ◌>>=◌, ◌>>◌}
use df_fabric.Payload.{Value}
use df_fabric.Protocols.Error.{ProtocolError, protocol_error, Raises}
use df_fabric.Protocols.Ebit.{padded}
use Prim.Native.String.{◌++◌ as text_append}

-- MESSAGE_STATES
pub data MessageState : Type 0 where
  sent in_flight delivered timed_out dropped : MessageState

pub data MessageEvent : Type 0 where
  send_event timeout_event deliver_event retry_event drop_event : MessageEvent

pub record ClassicalMessage (T : Type 0) : Type 0 where
  pub msg_id : String
  pub src : String
  pub dst : String
  pub payload : Value
  pub send_time : T
  pub latency : T
  pub arrival_time : T
  pub state : MessageState
  pub attempts : ℕ
  pub depends_on : List String
  pub deliver_time : Option T

pub record LogEntry (T : Type 0) : Type 0 where
  pub event : MessageEvent
  pub msg_id : String
  pub src : String
  pub dst : String
  pub clock : T
  pub state : MessageState

pub record FeedbackFabric (T : Type 0) : Type 0 where
  pub default_latency : T
  pub timeout : T
  pub max_retries : ℕ
  pub prefix : String
  pub clock : T
  pub messages : Dict String (ClassicalMessage T)
  pub order : List String
  pub happens_before : List (String × String)
  pub event_log : List (LogEntry T)
  pub counter : ℕ

abbrev pub Action : Type 0 → Type 0 → Type 0
Action T = Exec ProtocolError (FeedbackFabric T)

abbrev pub is_delivered : MessageState → Bool
is_delivered delivered = true
is_delivered _ = false

abbrev pub is_timed_out : MessageState → Bool
is_timed_out timed_out = true
is_timed_out _ = false

-- `state in ("TIMED_OUT", "DROPPED")`
abbrev pub is_lost : MessageState → Bool
is_lost timed_out = true
is_lost dropped = true
is_lost _ = false

abbrev or_default : {A : Type 0} → A → Option A → A
or_default d none = d
or_default d (some a) = a

abbrev or_unknown : {A : Type 0} → Option A → Raises A
or_unknown none = err protocol_error
or_unknown (some a) = ok a

module _ {T : Type 0} where
  -- `_new_id`
  unfoldable pub new_message_id : Action T String
  unfolding padded
  new_message_id s = (
    ok (text_append s.prefix (text_append "-" (padded (suc s.counter)))),
    record s { counter = suc s.counter },
  )

  -- `get`
  unfoldable pub get_message : String → Action T (ClassicalMessage T)
  get_message i s = (or_unknown (get string_dec s.messages i), s)

  -- `_log`, and the message as it is then
  unfoldable pub log_message :
      MessageEvent → ClassicalMessage T → FeedbackFabric T → FeedbackFabric T
  log_message e m s = record s {
    messages = put string_dec s.messages m.msg_id m;
    event_log =
        s.event_log
        ++ (record {
          event = e;
          msg_id = m.msg_id;
          src = m.src;
          dst = m.dst;
          clock = s.clock;
          state = m.state;
        }
            ∷ []);
  }

  -- a new message, with its edges of the happens-before relation
  unfoldable pub post :
      MessageEvent → ClassicalMessage T → List String → FeedbackFabric T → FeedbackFabric T
  unfolding log_message
  post e m causes s = log_message e m (record s {
    order = s.order ++ (m.msg_id ∷ []);
    happens_before = s.happens_before ++ map (λ c. (c, m.msg_id)) causes;
  })

  -- the loop of `send` over `depends_on`
  unfoldable pub check_dependencies : List String → Action T (Unit {0})
  unfolding get_message
  check_dependencies [] = pure tt
  check_dependencies (d ∷ ds) = do
    m ← get_message d
    raise_when (not (is_delivered m.state)) protocol_error
    check_dependencies ds

  unfoldable pub drop : String → Action T (Unit {0})
  unfolding get_message log_message
  drop i = do m ← get_message i; modify (log_message drop_event (record m { state = dropped }))

  unfoldable pub assert_ready : String → Action T Value
  unfolding get_message
  assert_ready i = do
    m ← get_message i
    raise_when (not (is_delivered m.state)) protocol_error
    pure m.payload

  unfoldable pub add_happens_before : String → String → Action T (Unit {0})
  unfolding get_message
  add_happens_before a b = do
    get_message a
    get_message b
    raise_when (is_yes (string_dec a b)) protocol_error
    modify (λ s. record s { happens_before = s.happens_before ++ ((a, b) ∷ []) })

module _ {T : Type 0} (zero : T) (plus : T → T → T) (before : T → T → Bool) where
  -- `max(a, b)`
  unfoldable pub later : T → T → T
  later a b = if before a b then b else a

  -- `ClassicalFeedbackFabric(default_latency, timeout, max_retries, prefix)`
  unfoldable pub new_fabric : T → T → ℕ → String → Raises (FeedbackFabric T)
  new_fabric lat timeout retries prefix =
      if before lat zero
      then err protocol_error
      else if not (before zero timeout)
      then err protocol_error
      else ok (record {
        default_latency = lat;
        timeout = timeout;
        max_retries = retries;
        prefix = prefix;
        clock = zero;
        messages = [];
        order = [];
        happens_before = [];
        event_log = [];
        counter = 0;
      })

  unfoldable pub message :
      String → String → String → Value → T → T → ℕ → List String → ClassicalMessage T
  message i src dst payload at lat attempts causes = record {
    msg_id = i;
    src = src;
    dst = dst;
    payload = payload;
    send_time = at;
    latency = lat;
    arrival_time = plus at lat;
    state = sent;
    attempts = attempts;
    depends_on = causes;
    deliver_time = none;
  }

  unfoldable pub send :
      String → String → Value → List String → Option T → Option T → Action T String
  unfolding check_dependencies new_message_id post message
  send src dst payload causes latency at_time = do
    raise_when (is_yes (string_dec src dst)) protocol_error
    check_dependencies causes
    lat ← gets (λ s. or_default s.default_latency latency)
    raise_when (before lat zero) protocol_error
    clock ← gets (λ s. s.clock)
    let at = or_default clock at_time
    raise_when (before at clock) protocol_error
    i ← new_message_id
    modify (post send_event (message i src dst payload at lat 1 causes) causes)
    pure i

  -- the message that timed out, and the clock at its timeout
  unfoldable pub time_out : ClassicalMessage T → FeedbackFabric T → FeedbackFabric T
  unfolding log_message later
  time_out m s =
      log_message timeout_event (record m { state = timed_out })
        (record s { clock = later s.clock (plus m.send_time s.timeout) })

  -- the message that is delivered, and the clock at its arrival
  unfoldable pub deliver : ClassicalMessage T → FeedbackFabric T → FeedbackFabric T
  unfolding log_message later
  deliver m s =
      let clock = later s.clock m.arrival_time in
      log_message deliver_event (record m { state = delivered; deliver_time = some clock })
        (record s { clock = clock })

  -- `receive` of a message that is neither delivered nor lost
  unfoldable pub arrive : ClassicalMessage T → Action T Value
  unfolding time_out deliver
  arrive m s =
      if before s.timeout m.latency
      then (err protocol_error, time_out m s)
      else (ok m.payload, deliver m s)

  unfoldable pub receive : String → Action T Value
  unfolding get_message arrive
  receive i = do
    m ← get_message i
    let late : Action T Value = do raise_when (is_lost m.state) protocol_error; arrive m
    if is_delivered m.state then pure m.payload else late

  unfoldable pub retry : String → Option T → Action T String
  unfolding get_message log_message new_message_id post message
  retry i latency = do
    m ← get_message i
    raise_when (not (is_timed_out m.state)) protocol_error
    retries ← gets (λ s. s.max_retries)
    let dropping : Action T String = do
      modify (log_message drop_event (record m { state = dropped }))
      raise protocol_error
    let again : Action T String = do
      j ← new_message_id
      modify (λ s.
          post retry_event
            (message j m.src m.dst m.payload s.clock (or_default s.default_latency latency)
              (m.attempts + 1) m.depends_on)
            (i ∷ []) s)
      pure j
    if ltb retries m.attempts then dropping else again
