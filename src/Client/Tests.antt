-- ===== src/Client/Tests.antt =====
-- The WebSocket client at concrete inputs.
use mexc_cpp_api.Base.{◌≡◌, refl, Bool, true, false, some, none, done}
use mexc_cpp_api.Base.Text.{codes}
use mexc_cpp_api.External.Sample.{sample, Json, null, member}
use mexc_cpp_api.Client.{
  Client, new_client, lock, subscribe_client, run_client, join, thread_step, running, returned,
  cleared, absent, ended,
}
use mexc_cpp_api.Client.Runs.{at, opened, run_starts, run_is_lost, second_run_waits}

abbrev request : Json
request = member "method" (Json.text (codes "sub.ticker")) null

abbrev client : Client sample Bool
client = new_client sample Bool true

run_starts_example :
    (d e f : Client sample Bool) × (subscribe_client sample Bool request
        (at sample Bool client false absent)
      ≡ done d)
    × (join sample Bool d ≡ some e)
    × (thread_step sample Bool e ≡ some f)
    × (f ≡ record client {
      session = some (opened sample Bool request (at sample Bool client false absent));
      has_logger = true;
      is_running = true;
      is_joining = false;
      thread = running;
    })
unfolding lock
run_starts_example = run_starts sample Bool request client false refl

run_is_lost_example :
    (d e f : Client sample Bool) × (subscribe_client sample Bool request
        (at sample Bool client true returned)
      ≡ done d)
    × (run_client sample Bool d ≡ d)
    × (thread_step sample Bool d ≡ some e)
    × (thread_step sample Bool e ≡ some f)
    × (thread_step sample Bool f ≡ none)
    × (join sample Bool f ≡ none)
    × (f ≡ record client {
      session = some (opened sample Bool request (at sample Bool client true returned));
      has_logger = true;
      is_running = false;
      is_joining = false;
      thread = ended;
    })
unfolding lock
run_is_lost_example = run_is_lost sample Bool request client refl

second_run_waits_example :
    (d e f g : Client sample Bool) × (subscribe_client sample Bool request
        (at sample Bool client false cleared)
      ≡ done d)
    × (thread_step sample Bool d ≡ some e)
    × (join sample Bool e ≡ some f)
    × (thread_step sample Bool (run_client sample Bool f) ≡ some g)
    × (join sample Bool g ≡ none)
    × (thread_step sample Bool g ≡ none)
    × (g ≡ record client {
      session = some (opened sample Bool request (at sample Bool client false cleared));
      has_logger = true;
      is_running = true;
      is_joining = true;
      thread = running;
    })
unfolding lock
second_run_waits_example = second_run_waits sample Bool request client refl
