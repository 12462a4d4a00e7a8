-- ===== src/Base/Text.antt =====
-- Go's `strings` functions that the relay uses, over native text.
use Prim.Native.Char.{Char, code}
use Prim.Native.String.{String, [], ◌∷◌, ◌++◌}
use Prim.Native.String.append
use mathlib.Core.Path.{◌≡◌, sym, ◌∙◌}
use mathlib.Core.Logic.{inl, inr}
use mathlib.Core.Bool.{Bool, false, ◌&&◌, ◌||◌}
use text.Mathlib.Text.{◌==◌ as str_eq}
use text.Mathlib.TextEquality.{eq_iff}
use activity_relay.Base.Tests.{◌==◌, leb, if◌then◌else◌, Bool-cases}

-- unicode.IsSpace
is_space : Char → Bool
is_space c =
    let n = code c in
    leb 9 n && leb n 13
    || n == 0x20
    || n == 0x85
    || n == 0xA0
    || n == 0x1680
    || leb 0x2000 n && leb n 0x200A
    || n == 0x2028
    || n == 0x2029
    || n == 0x202F
    || n == 0x205F
    || n == 0x3000

trim_left : String → String
trim_left [] = []
trim_left (c ∷ s) = let rest = trim_left s in if is_space c then rest else c ∷ s

trim_right : String → String
trim_right [] = []
trim_right (c ∷ s) =
    let rest = trim_right s in if str_eq rest "" && is_space c then "" else c ∷ rest

-- strings.TrimSpace
unfoldable pub trim_space : String → String
unfolding is_space trim_left trim_right
trim_space s = trim_right (trim_left s)

-- strings.TrimSuffix with a suffix of one character
unfoldable pub trim_suffix : Char → String → String
trim_suffix last [] = []
trim_suffix last (c ∷ s) =
    let rest = trim_suffix last s in if str_eq s "" && code c == code last then "" else c ∷ rest

-- strings.Contains with a text of one character
unfoldable pub contains_char : Char → String → Bool
contains_char wanted [] = false
contains_char wanted (c ∷ s) = code c == code wanted || contains_char wanted s

-- net.JoinHostPort: an address with a colon is put in brackets.
unfoldable pub join_host_port : String → String → String
unfolding contains_char
join_host_port host port =
    if contains_char ":" host then "[" ++ host ++ "]:" ++ port else host ++ ":" ++ port

-- A text with a prefix that is not empty is not empty.
pub append-ne_empty : (c : Char) (s t : String) → str_eq ((c ∷ s) ++ t) "" ≡ false
append-ne_empty c s t = elim (Bool-cases (str_eq ((c ∷ s) ++ t) "")) [
  | inr differ ↦ differ
  | inl same ↦
      let e : c ∷ (s ++ t) ≡ [] = sym (append.cons c s t) ∙ (eq_iff ((c ∷ s) ++ t) "").0 same in cc
]

-- strings.HasSuffix
unfoldable pub has_suffix : String → String → Bool
has_suffix suffix [] = str_eq "" suffix
has_suffix suffix (c ∷ s) = str_eq (c ∷ s) suffix || has_suffix suffix s
