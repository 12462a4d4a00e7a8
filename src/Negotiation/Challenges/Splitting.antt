-- ===== src/Negotiation/Challenges/Splitting.antt =====
-- What the challenges of a header line are (splitAuthenticationChallenges).
use Prim.Native.String.{String, [] as no_text, ◌∷◌ as char_cons}
use Prim.Native.String.append
use activity_relay.Base.{
  ℕ, suc, Char, Bool, true, false, Bool-cases, inl, inr, sym, eq_iff, not, ◌≡◌, refl, ◌∙◌, ap, List,
  [], ◌∷◌, All, length, if◌then◌else◌,
}
use activity_relay.Negotiation.Challenges.{
  is_char, onto, split_from, split_authentication_challenges, join_commas,
}

-- The commas of a text that are outside of quoted strings, from a state inside of one or not and
-- after a backslash of one or not.
abbrev pub unquoted_commas : Bool → Bool → String → ℕ
unquoted_commas quoted escaped no_text = 0
unquoted_commas quoted true (char_cons c s) = unquoted_commas quoted false s
unquoted_commas true false (char_cons c s) =
    unquoted_commas (not (is_char "\"" c)) (is_char "\\" c) s
unquoted_commas false false (char_cons c s) =
    let rest = unquoted_commas (is_char "\"" c) false s in if is_char "," c then suc rest else rest

abbrev HasNoComma : String → Type 0
HasNoComma s = unquoted_commas false false s ≡ 0

-- Texts of which the first is scanned from a state, and the others from outside of quoted strings
abbrev IsScanned : Bool → Bool → List String → Type 0
IsScanned quoted escaped [] = ⊥
IsScanned quoted escaped (s ∷ rest) = (unquoted_commas quoted escaped s ≡ 0) × All HasNoComma rest

-- The challenges are the parts of the line between its commas outside of quoted strings.
abbrev pub IsSplit : String → List String → Type 0
IsSplit value challenges =
    (join_commas challenges ≡ value)
    × All HasNoComma challenges
    × (length challenges ≡ suc (unquoted_commas false false value))

abbrev Opened : List String → Type 0
Opened [] = ⊥
Opened (s ∷ rest) = Unit {0}

onto-join : (c : Char) (xs : List String) → join_commas (onto c xs) ≡ char_cons c (join_commas xs)
onto-join c [] = refl
onto-join c (s ∷ []) = refl
onto-join c (s ∷ t ∷ rest) = append.cons c s (char_cons "," (join_commas (t ∷ rest)))

join-cons : (xs : List String) → Opened xs → join_commas ("" ∷ xs) ≡ char_cons "," (join_commas xs)
join-cons [] o = absurd o
join-cons (s ∷ rest) o = append.nil (char_cons "," (join_commas (s ∷ rest)))

first_or : Char → String → Char
first_or d no_text = d
first_or d (char_cons c s) = c

comma_of : (c : Char) → is_char "," c ≡ true → "," ≡ c
unfolding first_or
comma_of c h = sym (ap (first_or c) ((eq_iff (char_cons c "") ",").0 h))

onto-Opened : (c : Char) (xs : List String) → Opened (onto c xs)
onto-Opened c [] = tt
onto-Opened c (s ∷ rest) = tt

split_from-Opened : (quoted escaped : Bool) (s : String) → Opened (split_from quoted escaped s)
unfolding split_from
split_from-Opened quoted escaped no_text = tt
split_from-Opened quoted true (char_cons c s) = onto-Opened c (split_from quoted false s)
split_from-Opened true false (char_cons c s) =
    onto-Opened c (split_from (not (is_char "\"" c)) (is_char "\\" c) s)
split_from-Opened false false (char_cons c s) =
    let rest = split_from (is_char "\"" c) false s in
    elim (is_char "," c) as (λ b. Opened (if b then "" ∷ rest else onto c rest)) [
      | true ↦ tt
      | false ↦ onto-Opened c rest
    ]

join-split_from :
    (quoted escaped : Bool) (s : String) → join_commas (split_from quoted escaped s) ≡ s
unfolding split_from
join-split_from quoted escaped no_text = refl
join-split_from quoted true (char_cons c s) =
    onto-join c (split_from quoted false s) ∙ ap (char_cons c) (join-split_from quoted false s)
join-split_from true false (char_cons c s) =
    onto-join c (split_from (not (is_char "\"" c)) (is_char "\\" c) s)
    ∙ ap (char_cons c) (join-split_from (not (is_char "\"" c)) (is_char "\\" c) s)
join-split_from false false (char_cons c s) =
    let rest = split_from (is_char "\"" c) false s in
    let back = join-split_from (is_char "\"" c) false s in
    elim (Bool-cases (is_char "," c)) [
      | inl comma ↦ rw (comma) (
          join-cons rest (split_from-Opened (is_char "\"" c) false s)
          ∙ ap (λ t. char_cons "," t) back
          ∙ ap (λ d. char_cons d s) (comma_of c comma))
      | inr other ↦ rw (other) (onto-join c rest ∙ ap (char_cons c) back)
    ]

length-onto : (c : Char) (xs : List String) → Opened xs → length (onto c xs) ≡ length xs
length-onto c [] o = absurd o
length-onto c (s ∷ rest) o = refl

onto_escaped :
    (quoted : Bool) (c : Char) (xs : List String)
    → IsScanned quoted false xs
    → IsScanned quoted true (onto c xs)
onto_escaped quoted c [] h = absurd h
onto_escaped quoted c (s ∷ rest) h = h

onto_quoted :
    (c : Char) (xs : List String)
    → IsScanned (not (is_char "\"" c)) (is_char "\\" c) xs
    → IsScanned true false (onto c xs)
onto_quoted c [] h = absurd h
onto_quoted c (s ∷ rest) h = h

onto_outside :
    (c : Char) (xs : List String)
    → is_char "," c ≡ false
    → IsScanned (is_char "\"" c) false xs
    → IsScanned false false (onto c xs)
onto_outside c [] other h = absurd h
onto_outside c (s ∷ rest) other h = (rw (other) h.0, h.1)

-- A comma is no quote.
comma_unquoted :
    (c : Char) (xs : List String)
    → is_char "," c ≡ true
    → IsScanned (is_char "\"" c) false xs
    → All HasNoComma xs
comma_unquoted c [] comma h = absurd h
comma_unquoted c (s ∷ rest) comma h =
    let plain : is_char "\"" c ≡ false = rw (sym (comma_of c comma)) refl in (rw plain at h.0, h.1)

split_from-IsScanned :
    (quoted escaped : Bool) (s : String) → IsScanned quoted escaped (split_from quoted escaped s)
unfolding split_from
split_from-IsScanned true true no_text = (refl, tt)
split_from-IsScanned true false no_text = (refl, tt)
split_from-IsScanned false true no_text = (refl, tt)
split_from-IsScanned false false no_text = (refl, tt)
split_from-IsScanned quoted true (char_cons c s) =
    onto_escaped quoted c (split_from quoted false s) (split_from-IsScanned quoted false s)
split_from-IsScanned true false (char_cons c s) =
    onto_quoted c (split_from (not (is_char "\"" c)) (is_char "\\" c) s)
      (split_from-IsScanned (not (is_char "\"" c)) (is_char "\\" c) s)
split_from-IsScanned false false (char_cons c s) =
    let rest = split_from (is_char "\"" c) false s in
    let scanned = split_from-IsScanned (is_char "\"" c) false s in
    elim (Bool-cases (is_char "," c)) [
      | inl comma ↦ rw (comma) (refl, comma_unquoted c rest comma scanned)
      | inr other ↦ rw (other) (onto_outside c rest other scanned)
    ]

length-split_from :
    (quoted escaped : Bool) (s : String)
    → length (split_from quoted escaped s) ≡ suc (unquoted_commas quoted escaped s)
unfolding split_from
length-split_from true true no_text = refl
length-split_from true false no_text = refl
length-split_from false true no_text = refl
length-split_from false false no_text = refl
length-split_from quoted true (char_cons c s) =
    length-onto c (split_from quoted false s) (split_from-Opened quoted false s)
    ∙ length-split_from quoted false s
length-split_from true false (char_cons c s) =
    length-onto c (split_from (not (is_char "\"" c)) (is_char "\\" c) s)
      (split_from-Opened (not (is_char "\"" c)) (is_char "\\" c) s)
    ∙ length-split_from (not (is_char "\"" c)) (is_char "\\" c) s
length-split_from false false (char_cons c s) =
    let rest = split_from (is_char "\"" c) false s in
    let counted = length-split_from (is_char "\"" c) false s in
    elim (Bool-cases (is_char "," c)) [
      | inl comma ↦ rw (comma) (ap (λ n. suc n) counted)
      | inr other ↦
          rw (other) (length-onto c rest (split_from-Opened (is_char "\"" c) false s) ∙ counted)
    ]

IsScanned-All : (xs : List String) → IsScanned false false xs → All HasNoComma xs
IsScanned-All [] h = tt
IsScanned-All (s ∷ rest) h = h

-- The challenges of a header line are the line again when commas join them, none of them has a comma
-- outside of a quoted string, and there is one more of them than such commas in the line. A quoted
-- string ends at the first quote that no backslash escapes.
pub split_authentication_challenges-IsSplit :
    (value : String) → IsSplit value (split_authentication_challenges value)
unfolding split_authentication_challenges
split_authentication_challenges-IsSplit value = (
  join-split_from false false value,
  IsScanned-All (split_from false false value) (split_from-IsScanned false false value),
  length-split_from false false value,
)
