-- ===== src/Examples/Fixtures.antt =====
-- Servers, actors and surroundings for the runs.
use activity_relay.Base.{
  String, str_append, true, false, Option, none, some, [], ◌∷◌, Result, ok, str_eq, if◌then◌else◌,
}
use activity_relay.Go.{Url, Runtime}
use activity_relay.Negotiation.{Profile, legacy}
use activity_relay.State.{Subscriber, Follower, RelayState}
use activity_relay.Relay.{Actor, text, Activity, Surroundings}

abbrev url : String → String → Url
url host path = record {
  scheme = "https";
  host = host;
  hostname = host;
  port = "";
  path = path;
  has_user = false;
}

abbrev pub parse : String → Option Url
parse s =
    if str_eq s "https://a.example/actor"
    then some (url "a.example" "/actor")
    else if str_eq s "https://b.example/actor"
    then some (url "b.example" "/actor")
    else if str_eq s "https://a.example/inbox"
    then some (url "a.example" "/inbox")
    else if str_eq s "https://b.example/inbox"
    then some (url "b.example" "/inbox")
    else if str_eq s "https://c.example/inbox"
    then some (url "c.example" "/inbox")
    else if str_eq s "https://a.example"
    then some (url "a.example" "")
    else if str_eq s "https://b.example"
    then some (url "b.example" "")
    else none

abbrev pub go : Runtime
go = record { to_lower = λ s. s; parse_url = parse }

abbrev server : String → Subscriber
server domain = record {
  domain = domain;
  inbox_url = str_append "https://" (str_append domain "/inbox");
  activity_id = "";
  actor_id = "";
}

abbrev pub server_a : Subscriber
server_a = server "a.example"

abbrev pub server_b : Subscriber
server_b = server "b.example"

abbrev pub server_c : Subscriber
server_c = server "c.example"

abbrev follower_c : Follower
follower_c = record {
  domain = "c.example";
  inbox_url = "https://c.example/inbox";
  activity_id = "";
  actor_id = "https://c.example/actor";
  mutually_follow = true;
}

abbrev pub state : RelayState
state = record {
  person_only = false;
  manually_accept = false;
  limited_domains = [];
  blocked_domains = "b.example" ∷ [];
  subscribers = server_a ∷ server_b ∷ [];
  followers = follower_c ∷ [];
}

abbrev pub surroundings : Surroundings
surroundings = record {
  state = state;
  relay_id = "https://relay.example/actor";
  publisher_stored = λ p. true;
  follower_stored = λ f. true;
  marshals = true;
  ld_signature = λ body.
      some
        (record { type = "RsaSignature2017"; creator = "k"; created = "t"; signature_value = "s" });
  reserve = λ id. some true;
}

abbrev pub actor_at : String → Option String → Actor
actor_at domain shared = record {
  id = str_append "https://" (str_append domain "/actor");
  type = "Person";
  inbox = str_append "https://" (str_append domain "/inbox");
  endpoints = shared;
}

abbrev pub public_address : String
public_address = "https://www.w3.org/ns/activitystreams#Public"

abbrev pub activity_of : String → String → Activity
activity_of type object = record {
  id = "https://a.example/activity";
  actor = "https://a.example/actor";
  type = type;
  object = text object;
  to = public_address ∷ [];
  cc = [];
}

abbrev pub planned_legacy : String → Result (Unit {0}) Profile
planned_legacy inbox = ok legacy
