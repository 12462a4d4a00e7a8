-- ===== src/Examples/States.antt =====
-- Runs of the commands on the relay's state.
use activity_relay.Base.{
  ok, arith, true, false, ◌≡◌, refl, List, [], ◌∷◌, trim_space, trim_suffix, trim_prefix,
  has_prefix,
}
use activity_relay.Redis.{answered, refused}
use activity_relay.State.{Follower, RelayState, normalize_state_domain}
use activity_relay.State.Loading.{
  load_state, validate_follower, validate_follower_url, scan_keys, read_follower, read_subscriber,
}
use activity_relay.Redis.Fields.{hset_all, text_of}
use activity_relay.State.Commands.{
  set_domain, set_blocked_domain, set_limited_domain, update_follower_status_checked,
  update_follower_script, add_follower_checked,
}
use activity_relay.State.Replay.{Command, follow, update, block, limit, replay}
use activity_relay.State.Views.{view}
use activity_relay.State.Refinement.{Shows, load_state-run}
use activity_relay.Health.{read_health}
use activity_relay.Health.Tally.{Attempted}
use activity_relay.Health.Counts.{record_all, read_health-record_all}
use activity_relay.Examples.Memory.{memory, empty}
use activity_relay.Examples.Storing.{unary_numbers}
use activity_relay.Examples.Tables.{tables, table_keys, nothing}
use activity_relay.Examples.Fixtures.{go}

abbrev follower_b : Follower
follower_b = record {
  domain = "b.example";
  inbox_url = "https://b.example/inbox";
  activity_id = "https://b.example/1";
  actor_id = "https://b.example/actor";
  mutually_follow = false;
}

abbrev commands : List Command
commands =
    follow answered follower_b
    ∷ update answered "b.example" true
    ∷ block answered "c.example" true
    ∷ limit refused "d.example" true
    ∷ []

abbrev loaded_state : RelayState
loaded_state = record {
  person_only = false;
  manually_accept = false;
  limited_domains = [];
  blocked_domains = "c.example" ∷ [];
  subscribers = [];
  followers = record follower_b { mutually_follow = true } ∷ [];
}

load_state-run_example : Shows go loaded_state (replay go commands (view tables table_keys nothing))
unfolding load_state text_of set_domain set_blocked_domain set_limited_domain
    update_follower_status_checked normalize_state_domain update_follower_script
    add_follower_checked validate_follower validate_follower_url hset_all scan_keys has_prefix
    read_follower trim_prefix trim_space trim_suffix read_subscriber
load_state-run_example = load_state-run tables table_keys go commands nothing loaded_state refl

abbrev attempts : List Attempted
attempts = ("10:00", false) ∷ ("10:05", true) ∷ ("10:10", false) ∷ ("10:20", false) ∷ []

read_health-record_all_example :
    read_health memory unary_numbers
      (record_all memory unary_numbers go "b.example." attempts empty)
      "b.example"
    ≡ ok (record {
      domain = "b.example";
      last_success_at = "10:05";
      last_failure_at = "10:20";
      consecutive_failures = 2;
      total_successes = 1;
      total_failures = 3;
    })
unfolding normalize_state_domain trim_space trim_suffix
read_health-record_all_example =
    read_health-record_all memory unary_numbers go "b.example." attempts empty refl (omega arith)
      (λ field. refl)
