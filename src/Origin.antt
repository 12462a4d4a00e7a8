-- ===== src/Origin.antt =====
-- `NormalizeDestinationOrigin` of internal/httpsignature/destination_negotiation.go: the origin
-- under which a destination's capability is stored.
use activity_relay.Base.{
  String, str_append, none, some, ◌&&◌, ◌||◌, Result, ok, err, str_eq, if◌then◌else◌, trim_space,
  trim_suffix, contains_char, join_host_port,
}
use activity_relay.Go.{Url, Runtime}

pub data OriginError : Type 0 where
  parse_failed bad_scheme has_user no_host : OriginError

-- The authority without the port that the scheme implies.
unfoldable pub authority_of : String → String → String → String
unfolding contains_char join_host_port
authority_of scheme host port =
    let kept =
      if str_eq scheme "http" && str_eq port "80" || str_eq scheme "https" && str_eq port "443"
      then ""
      else port in
    if str_eq kept ""
    then (if contains_char ":" host then str_append "[" (str_append host "]") else host)
    else join_host_port host kept

unfoldable pub normalize_origin_url : Runtime → Url → Result OriginError String
unfolding authority_of trim_suffix
normalize_origin_url go u =
    let scheme = go.to_lower u.scheme in
    let host = go.to_lower (trim_suffix "." u.hostname) in
    if str_eq scheme "http" || str_eq scheme "https"
    then (if u.has_user
        then err has_user
        else if str_eq host ""
        then err no_host
        else ok (str_append scheme (str_append "://" (authority_of scheme host u.port))))
    else err bad_scheme

unfoldable pub normalize_destination_origin : Runtime → String → Result OriginError String
unfolding normalize_origin_url trim_space
normalize_destination_origin go address = elim (go.parse_url (trim_space address)) [
  | none ↦ err parse_failed
  | some u ↦ normalize_origin_url go u
]
