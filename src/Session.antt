-- ===== src/Session.antt =====
-- `WebSocketSession` of src/mexc_futures_ws_session.cpp: the handlers of its asynchronous operations. The
-- operations that have been started and whose handlers have not been called are a part of the state.
pub mod Steps
pub mod Frame
pub mod Messages
pub mod Handlers
pub mod Bounds
pub mod Order
pub mod Silence
pub mod Progress
pub mod Establishing
pub mod Lifetime
pub mod Ends
pub mod Exceptions
pub mod Delivering
mod Tests
mod ReadingTests
use mexc_cpp_api.Base.{
  Bool, true, false, ◌||◌, List, [], ◌∷◌, ◌++◌, map, Option, none, some, ℕ, Outcome, ok, throw,
  fault, Step, done, threw, faulted, Exception, Mutate, next, ◌>>◌, within, finish, is_empty,
  if◌then◌else◌,
}
use mexc_cpp_api.Base.Effects.{bad_function_call, json_exception, is_std}
use mexc_cpp_api.Base.Text.{Text, codes, to_string}
use mexc_cpp_api.Base.Int.{ℤ, pos, ◌-ℤ◌, ltb_ℤ}
use mexc_cpp_api.External.{Library}
use mexc_cpp_api.Models.Events.{Event, fresh_event, event_from_json}
use mexc_cpp_api.Subscriptions.{
  Subscriptions, write_subscription, read_subscription, is_api_control_msg, handle_api_control_msg,
  is_subscribed,
}

-- An operation that has been started. `timing true` is a wait for the timer that has been cancelled.
pub data Work : Type 0 where
  resolving : Work
  connecting : Work
  ssl_handshaking : Work
  handshaking : Work
  writing : Work
  reading : Work
  closing : Work
  pinging : Work
  timing : Bool → Work

-- What a handler is called with: an error, the result of `SSL_set_tlsext_host_name`, the port of the
-- endpoint, the bytes that were read, the time, and whether the stream is open.
pub record Completion : Type 0 where
  pub failed : Bool
  pub is_named : Bool
  pub port : ℕ
  pub received : Text
  pub now : ℤ
  pub is_open : Bool

-- The handlers that hold the session by a `shared_ptr`; the others hold only `this`.
abbrev pub holds : Work → Bool
holds closing = false
holds pinging = false
holds _ = true

abbrev pub holds_any : List Work → Bool
holds_any [] = false
holds_any (w ∷ ws) = holds w || holds_any ws

abbrev aborted : Work → Work
aborted (timing cancelled) = timing true
aborted w = w

abbrev is_json_exception : Exception → Bool
is_json_exception json_exception = true
is_json_exception _ = false

-- PING_INTERVAL_IN_S, in nanoseconds.
abbrev ping_interval : ℤ
ping_interval = pos 20_000_000_000

module _ (library : Library) (Owner : Type 0) where
  open library use {Json, null_json, parse, is_object}

  -- `sent` is what has been handed to `async_write`, and `owner` the state that the callback changes.
  pub record Session : Type 0 where
    pub host : Text
    pub subscriptions : Subscriptions library
    pub has_logger : Bool
    pub callback : Option (Event library → Mutate Owner)
    pub owner : Owner
    pub last_ping : ℤ
    pub last_pong : ℤ
    pub pending : List Work
    pub sent : List Text

  -- `logMessageCB` of a text that can be made.
  unfoldable pub log_message : Mutate Session
  log_message s = if s.has_logger then done s else threw bad_function_call s

  unfoldable pub start : Work → Mutate Session
  start w s = done (record s { pending = s.pending ++ (w ∷ []) })

  unfoldable pub async_write : Text → Mutate Session
  async_write text s =
      done (record s { pending = s.pending ++ (writing ∷ []); sent = s.sent ++ (text ∷ []) })

  -- `pingTimer.cancel()`.
  unfoldable pub cancel_timer : Mutate Session
  cancel_timer s = done (record s { pending = map aborted s.pending })

  unfoldable pub on_resolve : Bool → Mutate Session
  on_resolve failed = if failed then log_message else start connecting

  unfoldable pub on_connect : Completion → Mutate Session
  on_connect c =
      if c.failed
      then log_message
      else if c.is_named
      then (λ s.
          start ssl_handshaking
            (record s { host = s.host ++ (codes ":" ++ to_string (pos c.port)) }))
      else log_message

  unfoldable pub on_ssl_handshake : Bool → Mutate Session
  on_ssl_handshake failed = if failed then log_message else start handshaking

  -- `readSubscription`, and what is done with the text.
  unfoldable pub use_subscription : (Text → Mutate Session) → Mutate Session
  use_subscription act s =
      let read = read_subscription library s.has_logger s.subscriptions in
      let t : Session = record s { subscriptions = read.1 } in
      elim read.0 [ ok text ↦ act text t | throw e ↦ threw e t | fault ↦ faulted ]

  unfoldable pub on_handshake : Bool → Mutate Session
  on_handshake failed =
      if failed then log_message else start (timing false) >> use_subscription async_write

  unfoldable pub on_write : Bool → Mutate Session
  on_write failed = if failed then log_message else start reading

  unfoldable pub close_ws : Mutate Session
  close_ws = start closing

  -- The inner `catch` of `onRead`: only what is derived from `std::exception` is logged.
  unfoldable pub catch_std : Exception → Mutate Session
  catch_std e = if is_std e then log_message else threw e

  -- A message that is no control message: the inner `try` block of `onRead`.
  unfoldable pub deliver : Json → Mutate Session
  deliver json s = elim (finish (event_from_json library json (fresh_event library))) [
    | ok event ↦ (elim s.callback [
      | none ↦ done s
      | some tell ↦ (elim (tell event s.owner) [
        | done o ↦ done (record s { owner = o })
        | threw e o ↦ catch_std e (record s { owner = o })
        | faulted ↦ faulted
      ])
    ])
    | throw e ↦ catch_std e s
    | fault ↦ faulted
  ]

  -- An object that was received.
  unfoldable pub dispatch : Json → Mutate Session
  dispatch json s = elim (is_api_control_msg library json) [
    | ok is_control ↦
        if is_control
        then within (λ (t : Session). t.subscriptions) (λ v t. record t { subscriptions = v })
            (handle_api_control_msg library s.has_logger json) s
        else deliver json s
    | throw e ↦ threw e s
    | fault ↦ faulted
  ]

  unfoldable pub accept : Text → Mutate Session
  accept received s = elim (parse received) [
    | ok json ↦ if is_object json then dispatch json s else done s
    | throw e ↦ threw e s
    | fault ↦ faulted
  ]

  -- Nothing waits to be sent: the session closes itself if nothing is confirmed, and reads on.
  unfoldable pub read_on : Mutate Session
  read_on s =
      (if is_empty s.subscriptions.confirmed
          then (log_message >> close_ws) >> start reading
          else start reading)
        s

  unfoldable pub go_on : Text → Mutate Session
  go_on text = if is_empty text then read_on else async_write text

  -- The `catch` of `onRead`, which catches the exceptions of the JSON library only.
  unfoldable pub rescue : Step Session → Step Session
  rescue (done s) = done s
  rescue (threw e s) = (if is_json_exception e then log_message >> close_ws else threw e) s
  rescue faulted = faulted

  unfoldable pub on_read : Bool → Text → Mutate Session
  on_read failed received =
      if failed
      then cancel_timer >> log_message
      else (λ s. rescue ((accept received >> use_subscription go_on) s))

  unfoldable pub ping : Bool → Mutate Session
  ping is_open s =
      ((if ltb_ℤ ping_interval (s.last_ping -ℤ s.last_pong) then log_message else done)
          >> (if is_open then start pinging else done))
        s

  unfoldable pub on_ping : Bool → ℤ → Mutate Session
  on_ping failed now = if failed then log_message else (λ s. done (record s { last_ping = now }))

  unfoldable pub on_close : Bool → Mutate Session
  on_close failed = cancel_timer >> (if failed then log_message else done)

  -- `expires_after` cancels the waits that there are.
  unfoldable pub on_ping_timer : Bool → Bool → Mutate Session
  on_ping_timer failed is_open =
      if failed then log_message else (ping is_open >> cancel_timer) >> start (timing false)

  -- The control callback of the stream, for a pong.
  unfoldable pub pong : ℤ → Mutate Session
  pong now s = done (record s { last_pong = now })

  -- The handler of an operation.
  unfoldable pub complete : Work → Completion → Mutate Session
  complete resolving c = on_resolve c.failed
  complete connecting c = on_connect c
  complete ssl_handshaking c = on_ssl_handshake c.failed
  complete handshaking c = on_handshake c.failed
  complete writing c = on_write c.failed
  complete reading c = on_read c.failed c.received
  complete closing c = on_close c.failed
  complete pinging c = on_ping c.failed c.now
  complete (timing cancelled) c = on_ping_timer c.failed c.is_open

  -- The handler is called. If no handler holds the session any more, it has been destroyed.
  unfoldable pub invoke : Work → Completion → Mutate Session
  invoke w c s = (if holds w || holds_any s.pending then complete w c else (λ t. faulted)) s

  -- The constructor.
  unfoldable pub create : Bool → Owner → Outcome Session
  create has_logger owner = finish (
      log_message (record {
        host = [];
        subscriptions = record { confirmed = []; requests = []; subscribing = null_json };
        has_logger = has_logger;
        callback = none;
        owner = owner;
        last_ping = pos 0;
        last_pong = pos 0;
        pending = [];
        sent = [];
      }))

  unfoldable pub subscribe : Json → Mutate Session
  subscribe request =
      within (λ (s : Session). s.subscriptions) (λ v s. record s { subscriptions = v })
        (write_subscription library request)

  unfoldable pub run : Text → Json → Option (Event library → Mutate Owner) → Mutate Session
  run host request callback s =
      next (subscribe request (record s { host = host }))
        (λ t. start resolving (record t { callback = callback })) (λ t. t)

  -- The destructor. An exception that leaves it ends the program.
  unfoldable pub destroy : Mutate Session
  destroy s = elim ((cancel_timer >> log_message) s) [
    | done t ↦ done t
    | threw e t ↦ faulted
    | faulted ↦ faulted
  ]

  unfoldable pub is_confirmed : Json → Session → Bool
  is_confirmed request s = is_subscribed library request s.subscriptions.confirmed

  pub close : Mutate Session
  close = close_ws
