-- ===== src/Session/ReadingTests.antt =====
-- The handler of a read at concrete inputs, with a library that can read one more text: an event.
use mexc_cpp_api.Base.{
  done, Mutate, some, threw, String, if◌then◌else◌, ◌≡◌, refl, Bool, true, false, [], ◌∷◌, ok,
}
use mexc_cpp_api.Base.Effects.{bad_function_call, foreign_exception, is_std}
use mexc_cpp_api.Base.Text.{codes, text_eq, contains_text, has_prefix}
use mexc_cpp_api.Base.Int.{pos}
use mexc_cpp_api.External.{Library}
use mexc_cpp_api.External.Sample.{sample, Json, null, member, has_key, value_at}
use mexc_cpp_api.Subscriptions.{is_api_control_msg}
use mexc_cpp_api.Subscriptions.Throwing.{ThrowsJson, JsonExceptions}
use mexc_cpp_api.Session.{
  Session, reading, pinging, invoke, complete, Completion, on_read, rescue, accept, dispatch,
  deliver, catch_std,
}
use mexc_cpp_api.Models.Events.{event_from_json}
use mexc_cpp_api.Session.Steps.{Reach}
use mexc_cpp_api.Session.Exceptions.{invoke-throws}
use mexc_cpp_api.Models.Events.{Event}
use mexc_cpp_api.Session.Delivering.{Holds, IsIdle, between, events_delivered}
use mexc_cpp_api.Session.Lifetime.{error}

abbrev request : Json
request = member "method" (Json.text (codes "sub.ticker")) null

value_at-ThrowsJson : (json : Json) (key : String) → ThrowsJson (value_at json key)
unfolding value_at
value_at-ThrowsJson (member k v rest) key =
    either (text_eq (codes k) (codes key)) (value_at-ThrowsJson rest key)
  where
    either :
        (b : Bool)
        → ThrowsJson (value_at rest key)
        → ThrowsJson (if b then ok v else value_at rest key)
    either true e = tt
    either false e = e
value_at-ThrowsJson null key = tt
value_at-ThrowsJson (Json.text t) key = tt
value_at-ThrowsJson (Json.number n) key = tt
value_at-ThrowsJson (Json.flag b) key = tt
value_at-ThrowsJson Json.nothing key = tt
value_at-ThrowsJson (Json.item v rest) key = tt

get_string-ThrowsJson : (json : Json) → ThrowsJson (sample.get_string json)
get_string-ThrowsJson (Json.text t) = tt
get_string-ThrowsJson (member k v rest) = refl
get_string-ThrowsJson null = refl
get_string-ThrowsJson (Json.number n) = refl
get_string-ThrowsJson (Json.flag b) = refl
get_string-ThrowsJson Json.nothing = refl
get_string-ThrowsJson (Json.item v rest) = refl

-- A message for the callback, which throws what the handler does not catch.
abbrev pushing : Library
pushing = record sample {
  parse = λ t. ok (member "channel" (Json.text (codes "push.kline")) (member "data" null null));
}

abbrev touchy : Session pushing Bool
touchy = record {
  host = [];
  subscriptions = record { confirmed = []; requests = []; subscribing = null };
  has_logger = true;
  callback = some (λ event o. threw foreign_exception false);
  owner = true;
  last_ping = pos 0;
  last_pong = pos 0;
  pending = [];
  sent = [];
}

pushing_exceptions : JsonExceptions pushing
pushing_exceptions = record {
  of_parse = λ t. tt;
  of_at_key = value_at-ThrowsJson;
  of_get_string = get_string-ThrowsJson;
  of_dump = λ json. tt;
}

abbrev success : Completion
success = record error { failed = false }

touchy_throws :
    invoke pushing Bool reading success touchy
    ≡ threw foreign_exception (record touchy { owner = false })
unfolding invoke complete on_read rescue accept dispatch deliver catch_std has_key value_at
    is_api_control_msg contains_text has_prefix text_eq event_from_json
touchy_throws = refl

invoke-throws_example : is_std foreign_exception ≡ false
invoke-throws_example =
    invoke-throws pushing Bool pushing_exceptions reading success touchy
      (record touchy { owner = false }) foreign_exception refl touchy_throws

-- A callback that throws at every second event.
abbrev picky : Event pushing → Mutate Bool
picky event calm = if calm then threw bad_function_call false else done true

abbrev listening : Session pushing Bool
listening = record touchy {
  subscriptions = record { confirmed = request ∷ []; requests = []; subscribing = null };
  callback = some picky;
}

abbrev pushed : Event pushing
pushed = record { channel = codes "push.kline"; symbol = []; ts = pos 0; payload = null }

pushed-Holds : Holds pushing [] pushed
unfolding has_key value_at is_api_control_msg contains_text has_prefix text_eq event_from_json
pushed-Holds = record {
  json = member "channel" (Json.text (codes "push.kline")) (member "data" null null);
  parses = refl;
  object = refl;
  control = refl;
  reads = refl;
}

listening-IsIdle : IsIdle pushing Bool picky listening
listening-IsIdle = record { logger = refl; callback = refl; requests = refl; confirmed = refl }

events_delivered_example :
    Reach pushing Bool
      (between pushing Bool picky listening (pinging ∷ []) true)
      (between pushing Bool picky listening (pinging ∷ []) false)
events_delivered_example =
    events_delivered pushing Bool picky listening (pinging ∷ []) (success ∷ success ∷ success ∷ [])
      (pushed ∷ pushed ∷ pushed ∷ []) true false listening-IsIdle
      (refl, pushed-Holds, (refl, pushed-Holds, (refl, pushed-Holds, tt)))
      (false, (refl, refl), (true, refl, (false, (refl, refl), refl)))
