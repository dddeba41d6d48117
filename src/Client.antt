-- ===== src/Client.antt =====
-- `WSClient` of src/mexc_futures_ws_client.cpp: one session at a time, and the thread that runs the
-- `io_context`. The calls come from one other thread.
pub mod Runs
mod Tests
use mexc_cpp_api.Base.Effects.{is_std}
use mexc_cpp_api.Base.{
  Bool, true, false, Option, none, some, ok, throw, fault, Step, done, threw, faulted, Mutate, next,
  within, is_empty, if◌then◌else◌,
}
use mexc_cpp_api.Base.Text.{Text, codes}
use mexc_cpp_api.External.{Library}
use mexc_cpp_api.Models.Events.{Event}
use mexc_cpp_api.Session
use mexc_cpp_api.Session.{Session, create, holds_any, is_confirmed, Work, Completion, invoke}

-- Where the thread of the `io_context` stands: not created; before `m_isRunning = true`; in
-- `io_context::run`; behind it; behind the first `m_isRunning = false`; at its end.
pub data Thread : Type 0 where
  absent : Thread
  entering : Thread
  running : Thread
  returned : Thread
  cleared : Thread
  ended : Thread

-- MEXC_FUTURES_WS_HOST.
abbrev pub futures_ws_host : Text
futures_ws_host = codes "contract.mexc.com"

module _ (library : Library) (Owner : Type 0) where
  open library use {Json}

  -- `session` is the last session, which is alive while an outstanding handler holds it; `is_joining` says
  -- that `run` waits for the thread to end; `owner` is what the callback changes, before there is a session.
  pub record Client : Type 0 where
    pub session : Option (Session library Owner)
    pub has_logger : Bool
    pub callback : Option (Event library → Mutate Owner)
    pub owner : Owner
    pub is_running : Bool
    pub is_joining : Bool
    pub thread : Thread

  -- The constructor: the logger is `defaultLogFunction`.
  abbrev pub new_client : Owner → Client
  new_client owner = record {
    session = none;
    has_logger = true;
    callback = none;
    owner = owner;
    is_running = false;
    is_joining = false;
    thread = absent;
  }

  unfoldable pub current_owner : Client → Owner
  current_owner c = elim c.session [ none ↦ c.owner | some s ↦ s.owner ]

  -- The destructor: the thread ends, and no handler is called any more. An exception that leaves it ends
  -- the program.
  unfoldable pub destroy_client : Client → Step Client
  destroy_client c =
      if c.has_logger
      then done
          (record c { thread = ended; is_running = false; session = none; owner = current_owner c })
      else faulted

  -- `m_session.lock()`.
  unfoldable pub lock : Client → Option (Session library Owner)
  lock c = elim c.session [ none ↦ none | some s ↦ if holds_any s.pending then some s else none ]

  -- `run` up to `join`.
  unfoldable pub run_client : Client → Client
  run_client c = if c.is_running then c else record c { is_running = true; is_joining = true }

  -- `join` has returned: the new thread is created. `none` while `join` waits, or where nothing does.
  unfoldable pub join : Client → Option Client
  join c = if c.is_joining then created c.thread else none
    where
      created : Thread → Option Client
      created absent = some (record c { thread = entering; is_joining = false })
      created ended = some (record c { thread = entering; is_joining = false })
      created _ = none

  -- Whether `io_context::run` has nothing left to do.
  unfoldable pub is_idle : Client → Bool
  is_idle c = elim c.session [ none ↦ true | some s ↦ is_empty s.pending ]

  -- The next change that the thread makes by itself, between the handlers.
  unfoldable pub thread_step : Client → Option Client
  thread_step c = moved c.thread
    where
      moved : Thread → Option Client
      moved absent = none
      moved entering = some (record c { is_running = true; thread = running })
      moved running = if is_idle c then some (record c { thread = returned }) else none
      moved returned = some (record c { is_running = false; thread = cleared })
      moved cleared = some (record c { is_running = false; thread = ended })
      moved ended = none

  -- The thread calls a handler of the session `s`, whose operation has been taken from the outstanding
  -- ones. An exception goes to the `catch` of the loop, which logs it if it can, and runs again; one that
  -- is not derived from `std::exception` leaves the thread and ends the program.
  unfoldable pub handle : Work → Completion → Session library Owner → Client → Step Client
  handle w f s c = elim (invoke library Owner w f s) [
    | done t ↦ done (record c { session = some t })
    | threw e t ↦
        if is_std e then done (record c { session = some t; thread = entering }) else faulted
    | faulted ↦ faulted
  ]

  unfoldable pub set_logger_callback : Bool → Client → Client
  set_logger_callback has_logger c = record c { has_logger = has_logger }

  unfoldable pub set_data_event_callback : Option (Event library → Mutate Owner) → Client → Client
  set_data_event_callback callback c = record c { callback = callback }

  -- A new session, which is run.
  unfoldable pub open_session : Json → Mutate Client
  open_session request c = elim (create library Owner c.has_logger (current_owner c)) [
    | ok s ↦
        next (Session.run library Owner futures_ws_host request c.callback s)
          (λ t. done (run_client (record c { session = some t })))
          (λ t. record c { session = some t })
    | throw e ↦ threw e c
    | fault ↦ faulted
  ]

  unfoldable pub subscribe_client : Json → Mutate Client
  subscribe_client request c = elim (lock c) [
    | none ↦ open_session request c
    | some s ↦
        within (λ (d : Client). s) (λ t d. record d { session = some t })
          (Session.subscribe library Owner request) c
  ]

  unfoldable pub is_subscribed_client : Json → Client → Bool
  is_subscribed_client request c = elim (lock c) [
    | none ↦ false
    | some s ↦ is_confirmed library Owner request s
  ]
