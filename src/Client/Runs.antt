-- ===== src/Client/Runs.antt =====
-- What `subscribe` and `run` of src/mexc_futures_ws_client.cpp do while the thread of the `io_context` is at
-- work, is about to end, or has ended.
use mexc_cpp_api.Base.{
  if◌then◌else◌, ◌≡◌, refl, ap, Bool, true, false, [], ◌∷◌, none, some, ok, done,
}
use mexc_cpp_api.Base.Int.{pos}
use mexc_cpp_api.External.{Library}
use mexc_cpp_api.Subscriptions.Control.{write_subscription-first}
use mexc_cpp_api.Session
use mexc_cpp_api.Session.{Session, resolving, create, holds_any, start, log_message}
use mexc_cpp_api.Client.{
  Client, Thread, absent, running, returned, cleared, ended, lock, run_client, join, is_idle,
  thread_step, open_session, subscribe_client, current_owner, futures_ws_host,
}

module _ (library : Library) (Owner : Type 0) where
  open library use {Json, null_json}

  -- A session that has just been run for a request.
  abbrev pub opened : Json → Client library Owner → Session library Owner
  opened request c = record {
    host = futures_ws_host;
    subscriptions = record { confirmed = []; requests = request ∷ []; subscribing = null_json };
    has_logger = true;
    callback = c.callback;
    owner = current_owner library Owner c;
    last_ping = pos 0;
    last_pong = pos 0;
    pending = resolving ∷ [];
    sent = [];
  }

  -- The session before `run`.
  abbrev fresh : Owner → Session library Owner
  fresh owner = record {
    host = [];
    subscriptions = record { confirmed = []; requests = []; subscribing = null_json };
    has_logger = true;
    callback = none;
    owner = owner;
    last_ping = pos 0;
    last_pong = pos 0;
    pending = [];
    sent = [];
  }

  runs :
      (request : Json) (c : Client library Owner)
      → Session.run library Owner futures_ws_host request c.callback
          (fresh (current_owner library Owner c))
        ≡ done (opened request c)
  unfolding Session.run Session.subscribe start
  runs request c = rw (write_subscription-first library request [] null_json) refl

  creates :
      (c : Client library Owner)
      → c.has_logger ≡ true
      → create library Owner c.has_logger (current_owner library Owner c)
        ≡ ok (fresh (current_owner library Owner c))
  unfolding create log_message
  creates c logger = ap (λ b. create library Owner b (current_owner library Owner c)) logger

  -- No session is alive and the client has a logger: `subscribe` opens a session in which exactly the
  -- request waits and the host is resolved, keeps it, and calls `run`.
  pub subscribe_opens :
      (request : Json) (c : Client library Owner)
      → lock library Owner c ≡ none
      → c.has_logger ≡ true
      → subscribe_client library Owner request c
        ≡ done (run_client library Owner (record c { session = some (opened request c) }))
  unfolding subscribe_client open_session
  subscribe_opens request c dead logger =
      rw (dead, subscribe_client) (rw (creates c logger, open_session) (rw (runs request c) refl))

  -- A client with a logger, with its flag and its thread.
  abbrev pub at : Client library Owner → Bool → Thread → Client library Owner
  at c flag thread = record c {
    has_logger = true;
    is_running = flag;
    is_joining = false;
    thread = thread;
  }

  -- No thread is at work: either it has ended or it was never created.
  abbrev settled : Bool → Thread
  settled has_ended = if has_ended then ended else absent

  -- No session is alive and the client has a logger. If the thread was never created or has ended, and the
  -- flag is clear, then `subscribe` opens a session for the request, `run` waits for nothing, and the new
  -- thread reaches `io_context::run`, with the flag set, to resolve the host.
  pub run_starts :
      (request : Json) (c : Client library Owner) (has_ended : Bool)
      → lock library Owner (at c false (settled has_ended)) ≡ none
      → (d e f : Client library Owner) × (subscribe_client library Owner request
            (at c false (settled has_ended))
          ≡ done d)
        × (join library Owner d ≡ some e)
        × (thread_step library Owner e ≡ some f)
        × (f ≡ record c {
          session = some (opened request (at c false (settled has_ended)));
          has_logger = true;
          is_running = true;
          is_joining = false;
          thread = running;
        })
  unfolding run_client thread_step join
  run_starts request c true dead =
      (_, _, _, subscribe_opens request (at c false ended) dead refl, refl, refl, refl)
  run_starts request c false dead =
      (_, _, _, subscribe_opens request (at c false absent) dead refl, refl, refl, refl)

  -- No session is alive and the client has a logger, and the thread has left `io_context::run` but not yet
  -- cleared the flag. Then `subscribe` opens a session, and neither its call of `run` nor a second one, made
  -- before the flag is cleared, does anything. The thread ends, with the flag clear, and no thread is left
  -- that resolves the host.
  pub run_is_lost :
      (request : Json) (c : Client library Owner)
      → lock library Owner (at c true returned) ≡ none
      → (d e f : Client library Owner) × (subscribe_client library Owner request
            (at c true returned)
          ≡ done d)
        × (run_client library Owner d ≡ d)
        × (thread_step library Owner d ≡ some e)
        × (thread_step library Owner e ≡ some f)
        × (thread_step library Owner f ≡ none)
        × (join library Owner f ≡ none)
        × (f ≡ record c {
          session = some (opened request (at c true returned));
          has_logger = true;
          is_running = false;
          is_joining = false;
          thread = ended;
        })
  unfolding run_client thread_step join
  run_is_lost request c dead = (
    _,
    _,
    _,
    subscribe_opens request (at c true returned) dead refl,
    refl,
    refl,
    refl,
    refl,
    refl,
    refl,
  )

  -- No session is alive and the client has a logger, and the thread has cleared the flag once, but not twice.
  -- Then `subscribe` opens a session and waits for the thread, which clears the flag again, before the new
  -- thread is created. If `run` is called again before the new thread sets the flag, then it waits for that
  -- thread: `join` does not return while the thread runs and has something to do.
  pub second_run_waits :
      (request : Json) (c : Client library Owner)
      → lock library Owner (at c false cleared) ≡ none
      → (d e f g : Client library Owner) × (subscribe_client library Owner request
            (at c false cleared)
          ≡ done d)
        × (thread_step library Owner d ≡ some e)
        × (join library Owner e ≡ some f)
        × (thread_step library Owner (run_client library Owner f) ≡ some g)
        × (join library Owner g ≡ none)
        × (thread_step library Owner g ≡ none)
        × (g ≡ record c {
          session = some (opened request (at c false cleared));
          has_logger = true;
          is_running = true;
          is_joining = true;
          thread = running;
        })
  unfolding run_client thread_step join is_idle
  second_run_waits request c dead = (
    _,
    _,
    _,
    _,
    subscribe_opens request (at c false cleared) dead refl,
    refl,
    refl,
    refl,
    refl,
    refl,
    refl,
  )
