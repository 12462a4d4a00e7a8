-- ===== src/Negotiation/Names.antt =====
-- The names of profiles, scopes and evidence: internal/httpsignature/profile.go, and the parsing of
-- configured_signer.go.
use activity_relay.Base.{String, Option, none, some, str_eq, if◌then◌else◌, trim_space}
use activity_relay.Go.{Runtime}
use activity_relay.Negotiation.{
  Profile, unset, legacy, dual, rfc9421, Scope, fetch, delivery, Evidence, successful_rfc9421,
  accept_signature, explicit_rfc9421_rejection, successful_legacy_fallback,
}

-- ParseProfile with Validate; `none` is an error.
unfoldable pub parse_profile : Runtime → String → Option Profile
parse_profile go value =
    let word = go.to_lower (trim_space value) in
    if str_eq word ""
    then some legacy
    else if str_eq word "legacy"
    then some legacy
    else if str_eq word "dual"
    then some dual
    else if str_eq word "rfc9421"
    then some rfc9421
    else none

-- ParseWireProfile
unfoldable pub parse_wire_profile : Runtime → String → Option Profile
unfolding parse_profile
parse_wire_profile go value = elim (parse_profile go value) [ some dual ↦ none | parsed ↦ parsed ]

-- Profile.String
abbrev pub profile_name : Profile → String
profile_name unset = ""
profile_name legacy = "legacy"
profile_name dual = "dual"
profile_name rfc9421 = "rfc9421"
profile_name (Profile.unsupported name) = name

-- ParseOutboundProfile
unfoldable pub parse_outbound_profile : Runtime → String → Option Profile
unfolding parse_profile
parse_outbound_profile go value =
    if str_eq (trim_space value) "" then some dual else parse_profile go value

-- Profile(value) for a text
unfoldable pub profile_of : String → Profile
profile_of name =
    if str_eq name ""
    then unset
    else if str_eq name "legacy"
    then legacy
    else if str_eq name "dual"
    then dual
    else if str_eq name "rfc9421"
    then rfc9421
    else Profile.unsupported name

abbrev pub scope_name : Scope → String
scope_name fetch = "fetch"
scope_name delivery = "delivery"
scope_name (Scope.unsupported name) = name

unfoldable pub scope_of : String → Scope
scope_of name =
    if str_eq name "fetch"
    then fetch
    else if str_eq name "delivery"
    then delivery
    else Scope.unsupported name

abbrev pub evidence_name : Evidence → String
evidence_name successful_rfc9421 = "successful_rfc9421"
evidence_name accept_signature = "accept_signature"
evidence_name explicit_rfc9421_rejection = "explicit_rfc9421_rejection"
evidence_name successful_legacy_fallback = "successful_legacy_fallback"
evidence_name (Evidence.unsupported name) = name

unfoldable pub evidence_of : String → Evidence
evidence_of name =
    if str_eq name "successful_rfc9421"
    then successful_rfc9421
    else if str_eq name "accept_signature"
    then accept_signature
    else if str_eq name "explicit_rfc9421_rejection"
    then explicit_rfc9421_rejection
    else if str_eq name "successful_legacy_fallback"
    then successful_legacy_fallback
    else Evidence.unsupported name
