-- ===== src/Policy.antt =====
-- models/public_address_policy.go: which audiences enter the public fan-out.
use activity_relay.Base.{
  String, Bool, ◌&&◌, ◌||◌, not, false, true, Option, none, some, List, ◌≡◌, member, arith, str_eq,
  if◌then◌else◌, trim_space,
}
use activity_relay.Go.{Runtime}

abbrev pub activity_streams_public_address : String
activity_streams_public_address = "https://www.w3.org/ns/activitystreams#Public"

-- `unknown` is any other value of the string type.
pub data Policy : Type 0 where
  explicit_public_only public_and_unlisted unknown : Policy

-- ParsePublicAddressDistributionPolicy; `none` is an error.
unfoldable pub parse_policy : Runtime → String → Option Policy
parse_policy go value =
    let word = go.to_lower (trim_space value) in
    if str_eq word ""
    then some public_and_unlisted
    else if str_eq word "explicit_public_only"
    then some explicit_public_only
    else if str_eq word "public_and_unlisted"
    then some public_and_unlisted
    else none

-- containsPublicAddress
unfoldable pub contains_public_address : List String → Bool
contains_public_address addresses = member activity_streams_public_address addresses

-- PublicAddressDistributionPolicy.Allows
unfoldable pub allows : Policy → List String → List String → Bool
allows policy to cc =
    contains_public_address to
    || (elim policy [ public_and_unlisted ↦ true | _ ↦ false ]) && contains_public_address cc

-- PublicAddressDistributionPolicy.ExcludesPublicOnlyInCC
unfoldable pub excludes_public_only_in_cc : Policy → List String → List String → Bool
excludes_public_only_in_cc policy to cc =
    (elim policy [ explicit_public_only ↦ true | _ ↦ false ])
    && not (contains_public_address to)
    && contains_public_address cc

-- Under a configured policy an activity that names Public anywhere is either distributed or
-- excluded as unlisted, never both; one that does not name it is neither.
pub policy_partition :
    (go : Runtime) (value : String) (policy : Policy) (to cc : List String)
    → parse_policy go value ≡ some policy
    → ((allows policy to cc || excludes_public_only_in_cc policy to cc)
        ≡ (contains_public_address to || contains_public_address cc))
      × ((allows policy to cc && excludes_public_only_in_cc policy to cc) ≡ false)
unfolding parse_policy allows excludes_public_only_in_cc
policy_partition go value policy to cc parsed = ground arith
