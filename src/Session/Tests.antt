-- ===== src/Session/Tests.antt =====
-- The WebSocket session at concrete inputs, with a library that can read one more text: a confirmation.
use mexc_cpp_api.Base.{
  ◌≡◌, refl, ◌≤◌, arith, Bool, true, false, List, [], ◌∷◌, ◌++◌, none, ok, faulted,
}
use mexc_cpp_api.Base.Text.{codes, text_eq, contains_text, has_prefix}
use mexc_cpp_api.Base.Int.{pos}
use mexc_cpp_api.External.{Library}
use mexc_cpp_api.External.Sample.{sample, Json, null, member, has_key, value_at}
use mexc_cpp_api.Subscriptions.{is_known, is_api_control_msg, write_subscription}
use mexc_cpp_api.Session
use mexc_cpp_api.Session.{
  Session, Work, resolving, reading, writing, pinging, timing, start, invoke, complete, on_write,
  log_message, Completion, on_read, rescue, accept, dispatch, deliver, catch_std, use_subscription,
  go_on, read_on, async_write,
}
use mexc_cpp_api.Session.Steps.{Reach, stays, then_, subscribes}
use mexc_cpp_api.Session.Bounds.{weigh, in_chain, in_timer, outstanding_bound}
use mexc_cpp_api.Session.Order.{Follows, session_refines_queue}
use mexc_cpp_api.Session.Silence.{IsSilent, left_by, error-IsSilent}
use mexc_cpp_api.Session.Progress.{IsConfirmation, at}
use mexc_cpp_api.Session.Establishing.{with_port, run_confirms}
use mexc_cpp_api.Session.Lifetime.{error, runs_destroyed}

abbrev confirmation : Json
confirmation =
    member "channel" (Json.text (codes "rs.sub")) (member "data" (Json.text (codes "success")) null)

abbrev chatty : Library
chatty = record sample { parse = λ t. ok confirmation }

-- The owner counts nothing.
abbrev quiet : List Work → Session chatty Bool
quiet pending = record {
  host = [];
  subscriptions = record { confirmed = []; requests = []; subscribing = null };
  has_logger = true;
  callback = none;
  owner = true;
  last_ping = pos 0;
  last_pong = pos 0;
  pending = pending;
  sent = [];
}

abbrev request : Json
request = member "method" (Json.text (codes "sub.ticker")) null

-- The session for a request, run.
abbrev started : Session chatty Bool
started = record (quiet (resolving ∷ [])) {
  host = codes "h";
  subscriptions = record { confirmed = []; requests = request ∷ []; subscribing = null };
}

-- The same after a call of `subscribe`.
abbrev asked : Session chatty Bool
asked = record started {
  subscriptions = record { confirmed = []; requests = request ∷ request ∷ []; subscribing = null };
}

asks : Reach chatty Bool started asked
unfolding Session.subscribe write_subscription is_known
asks = then_ stays (subscribes request refl)

outstanding_bound_example : (weigh in_chain asked.pending ≤ 1) × (weigh in_timer asked.pending ≤ 1)
unfolding Session.run Session.subscribe write_subscription start is_known
outstanding_bound_example =
    outstanding_bound chatty Bool (codes "h") request none (quiet []) started asked refl refl asks

session_refines_queue_example : Follows chatty Bool (request ∷ []) started asked
unfolding is_known asks
session_refines_queue_example = session_refines_queue chatty Bool started asked asks

-- A write fails while the timer runs.
abbrev broken : Session chatty Bool
broken = quiet (timing false ∷ [])

error-IsSilent_example :
    (broken.pending ≡ left_by writing ((timing false ∷ []) ++ []))
    × IsSilent chatty Bool (quiet (timing false ∷ writing ∷ [])) broken
unfolding invoke complete on_write log_message
error-IsSilent_example =
    error-IsSilent chatty Bool (timing false ∷ []) [] writing error
      (quiet (timing false ∷ writing ∷ [])) broken broken refl (omega arith) refl refl stays

confirms : IsConfirmation chatty (codes "m")
unfolding has_key value_at is_api_control_msg contains_text has_prefix text_eq
confirms = record {
  json = confirmation;
  shown = codes "json";
  parses = refl;
  object = refl;
  control = refl;
  has_data = refl;
  success = refl;
  shows = refl;
}

runs_destroyed_example :
    (t : Session chatty Bool) × Reach chatty Bool (quiet (reading ∷ timing false ∷ pinging ∷ [])) t
    × (t.pending ≡ pinging ∷ [])
    × (invoke chatty Bool pinging error (record t { pending = [] }) ≡ faulted)
runs_destroyed_example =
    runs_destroyed chatty Bool (quiet (reading ∷ timing false ∷ pinging ∷ [])) pinging error refl
      refl

run_confirms_example :
    Reach chatty Bool
      (at chatty Bool (quiet []) (resolving ∷ []) [] (request ∷ request ∷ []) null [])
      (at chatty Bool
        (with_port chatty Bool 443 (quiet []))
        (timing false ∷ reading ∷ [])
        (request ∷ request ∷ [])
        []
        null
        (codes "json" ∷ codes "json" ∷ []))
run_confirms_example =
    run_confirms chatty Bool (codes "m") confirms (quiet []) 443 request (request ∷ []) null
      (b'j', codes "son", refl) ((b'j', codes "son", refl), tt)
