-- ===== src/Negotiation/Challenges.antt =====
-- What a response says of the signatures that a destination takes
-- (internal/httpsignature/accept_signature.go). `strings.Fields` and `strings.EqualFold` are
-- parameters, and so is what httpsfv makes of the lines of a dictionary.
pub mod Splitting
use Prim.Native.String.{String, [] as no_text, ◌∷◌ as char_cons, ◌++◌ as str_append}
use Prim.Native.String.append
use activity_relay.Base.{
  ℕ, Char, Bool, true, false, Bool-cases, inl, inr, sym, eq_iff, ◌&&◌, ◌||◌, not, ◌≡◌, refl, ◌∙◌,
  ap, Option, none, some, List, [], ◌∷◌, ◌==◌, str_eq, if◌then◌else◌, trim_space,
}
use activity_relay.Negotiation.{Scope, fetch, delivery}

-- httpsfv's values, as far as the code tells them apart
pub data Bare : Type 0 where
  boolean : Bool → Bare
  word : String → Bare
  octets : String → Bare
  something_else : Bare

pub record Item : Type 0 where
  pub value : Bare
  pub parameters : List (String × Bare)

pub data Member : Type 0 where
  inner_list : List Item → List (String × Bare) → Member
  item : Bare → Member
  other_member : Member

pub record Http : Type 0 where
  pub fields : String → List String
  pub equal_fold : String → String → Bool
  pub unmarshal_dictionary : List String → Option (List (String × Member))

abbrev pub get_components : List String
get_components = "@method" ∷ "@authority" ∷ "@target-uri" ∷ "date" ∷ []

abbrev pub post_components : List String
post_components =
    "@method" ∷ "@authority" ∷ "@target-uri" ∷ "content-digest" ∷ "content-type" ∷ "date" ∷ []

abbrev pub signature_label : String
signature_label = "activitypub"

abbrev pub signature_tag : String
signature_tag = "activitypub"

abbrev pub rsa_algorithm : String
rsa_algorithm = "rsa-v1_5-sha256"

-- expectedAcceptSignatureComponents
unfoldable pub expected_components : Scope → Option (List String)
expected_components fetch = some get_components
expected_components delivery = some post_components
expected_components (Scope.unsupported s) = none

-- The loop over the items, with the test of their number
unfoldable pub items_match : List Item → List String → Bool
items_match [] [] = true
items_match (i ∷ items) (name ∷ names) =
    let here : Bool = elim i.value [ word w ↦ str_eq w name | _ ↦ false ] in
    let bare : Bool = elim i.parameters [ [] ↦ true | _ ↦ false ] in
    here && bare && items_match items names
items_match _ _ = false

-- One parameter of the inner list
unfoldable pub parameter_fits : String → String × Bare → Bool
parameter_fits key_id (name, boolean b) = str_eq name "created" && b
parameter_fits key_id (name, word w) =
    (str_eq name "alg" && str_eq w rsa_algorithm)
    || (str_eq name "keyid" && str_eq w key_id)
    || (str_eq name "tag" && str_eq w signature_tag)
parameter_fits key_id (name, _) = false

unfoldable pub parameters_fit : String → List (String × Bare) → Bool
parameters_fit key_id [] = true
parameters_fit key_id (p ∷ rest) = parameter_fits key_id p && parameters_fit key_id rest

abbrev pub member_fits : String → List String → List (String × Member) → Bool
member_fits key_id expected ((name, inner_list items parameters) ∷ []) =
    str_eq name signature_label && items_match items expected && parameters_fit key_id parameters
member_fits key_id expected _ = false

-- CompatibleAcceptSignature
unfoldable pub compatible_accept_signature : Http → List String → Scope → String → Bool
compatible_accept_signature http values scope key_id =
    let none_given : Bool = elim values [ [] ↦ true | _ ↦ false ] in
    if none_given || str_eq (trim_space key_id) ""
    then false
    else elim (expected_components scope) [
      | none ↦ false
      | some expected ↦ elim (http.unmarshal_dictionary values) [
        | none ↦ false
        | some dictionary ↦ member_fits key_id expected dictionary
      ]
    ]

-- The text is the one character.
abbrev pub is_char : String → Char → Bool
is_char wanted c = str_eq (char_cons c "") wanted

abbrev pub onto : Char → List String → List String
onto c [] = char_cons c "" ∷ []
onto c (segment ∷ rest) = char_cons c segment ∷ rest

-- The loop of splitAuthenticationChallenges: what follows, inside a quoted string or not and after a
-- backslash or not. The head of the result is the challenge that is open.
unfoldable pub split_from : Bool → Bool → String → List String
split_from quoted escaped no_text = "" ∷ []
split_from quoted true (char_cons c s) = onto c (split_from quoted false s)
split_from true false (char_cons c s) =
    let rest = split_from (not (is_char "\"" c)) (is_char "\\" c) s in onto c rest
split_from false false (char_cons c s) =
    let rest = split_from (is_char "\"" c) false s in
    if is_char "," c then "" ∷ rest else onto c rest

-- splitAuthenticationChallenges
unfoldable pub split_authentication_challenges : String → List String
split_authentication_challenges value = split_from false false value

abbrev pub join_commas : List String → String
join_commas [] = ""
join_commas (s ∷ []) = s
join_commas (s ∷ t ∷ rest) = str_append s (char_cons "," (join_commas (t ∷ rest)))

abbrev any_of : {A : Type 0} → (A → Bool) → List A → Bool
any_of p [] = false
any_of p (x ∷ xs) = p x || any_of p xs

unfoldable pub names_signature_scheme : Http → String → Bool
names_signature_scheme http challenge = elim (http.fields (trim_space challenge)) [
  | [] ↦ false
  | scheme ∷ rest ↦ http.equal_fold scheme "Signature"
]

-- ExplicitLegacySignatureRejection, at the lines of WWW-Authenticate
unfoldable pub explicit_legacy_signature_rejection : Http → ℕ → List String → Bool
explicit_legacy_signature_rejection http status values =
    let challenged =
      any_of (λ value. any_of (names_signature_scheme http) (split_authentication_challenges value))
        values in
    if not (status == 401) && not (status == 403) then false else challenged
