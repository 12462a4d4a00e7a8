-- ===== src/Base/Prefix.antt =====
-- Prefixes of texts: strings.TrimPrefix, and texts that begin with literals.
use Prim.Native.Char.{Char}
use Prim.Native.String.{String, [], ◌∷◌, ◌++◌}
use Prim.Native.String.append
use mathlib.Core.Path.{◌≡◌, refl, sym, ap, ◌∙◌}
use mathlib.Core.Bool.{Bool, true, false, not, ◌&&◌, ◌||◌}
use native.Mathlib.Omega.{arith}
use text.Mathlib.Text.{◌==◌ as str_eq}
use text.Mathlib.TextEquality.{eq_iff}
use text.Mathlib.TextPositions.{eq_refl}
use activity_relay.Base.Tests.{if◌then◌else◌}

unfoldable pub has_prefix : String → String → Bool
has_prefix [] s = true
has_prefix (c ∷ p) [] = false
has_prefix (c ∷ p) (d ∷ s) = str_eq (c ∷ []) (d ∷ []) && has_prefix p s

cut : String → String → String
cut [] s = s
cut (c ∷ p) [] = []
cut (c ∷ p) (d ∷ s) = cut p s

-- strings.TrimPrefix
unfoldable pub trim_prefix : String → String → String
unfolding has_prefix cut
trim_prefix p s = if has_prefix p s then cut p s else s

-- Two texts that differ at a place that both have
abbrev pub clash : String → String → Bool
clash [] t = false
clash (c ∷ s) [] = false
clash (c ∷ s) (d ∷ t) = not (str_eq (c ∷ []) (d ∷ [])) || clash s t

head_or : Char → String → Char
head_or d [] = d
head_or d (c ∷ s) = c

tail_of : String → String
tail_of [] = []
tail_of (c ∷ s) = s

char_of : (c d : Char) → str_eq (c ∷ []) (d ∷ []) ≡ true → c ≡ d
unfolding head_or
char_of c d h = ap (head_or c) ((eq_iff (c ∷ []) (d ∷ [])).0 h)

pub has_prefix-append : (p s : String) → has_prefix p (p ++ s) ≡ true
unfolding has_prefix
has_prefix-append [] s = refl
has_prefix-append (c ∷ p) s = rw (append.cons c p s, eq_refl (c ∷ [])) (has_prefix-append p s)

cut-append : (p s : String) → cut p (p ++ s) ≡ s
unfolding cut
cut-append [] s = append.nil s
cut-append (c ∷ p) s = rw (append.cons c p s) (cut-append p s)

pub trim_prefix-append : (p s : String) → trim_prefix p (p ++ s) ≡ s
unfolding trim_prefix
trim_prefix-append p s = rw (has_prefix-append p s) (cut-append p s)

append-cut : (p s : String) → has_prefix p s ≡ true → p ++ cut p s ≡ s
unfolding has_prefix cut
append-cut [] s h = append.nil s
append-cut (c ∷ p) [] h = cc
append-cut (c ∷ p) (d ∷ s) h =
    let same : str_eq (c ∷ []) (d ∷ []) ≡ true = ground arith in
    append.cons c p (cut p s)
    ∙ ap (λ t. c ∷ t) (append-cut p s (ground arith))
    ∙ ap (λ e. e ∷ s) (char_of c d same)

pub append-trim_prefix : (p s : String) → has_prefix p s ≡ true → p ++ trim_prefix p s ≡ s
unfolding trim_prefix
append-trim_prefix p s h = rw (h) (append-cut p s h)

append_cancel : (p s t : String) → p ++ s ≡ p ++ t → s ≡ t
append_cancel p s t h = sym (trim_prefix-append p s) ∙ ap (trim_prefix p) h ∙ trim_prefix-append p t

eq_of_iff : (s t u v : String) → (s ≡ t → u ≡ v) → (u ≡ v → s ≡ t) → str_eq s t ≡ str_eq u v
eq_of_iff s t u v f g = ground (arith, eq_iff s t, eq_iff u v)

pub str_eq-append : (p s t : String) → str_eq (p ++ s) (p ++ t) ≡ str_eq s t
str_eq-append p s t =
    eq_of_iff (p ++ s) (p ++ t) s t (append_cancel p s t) (λ e. ap (λ u. p ++ u) e)

clash-ne : (p q s t : String) → clash p q ≡ true → p ++ s ≡ q ++ t → ⊥
unfolding head_or tail_of
clash-ne [] q s t h e = cc
clash-ne (c ∷ p) [] s t h e = cc
clash-ne (c ∷ p) (d ∷ q) s t h e =
    let e' : c ∷ (p ++ s) ≡ d ∷ (q ++ t) = sym (append.cons c p s) ∙ e ∙ append.cons d q t in
    let heads : c ≡ d = ap (head_or c) e' in
    let tails : p ++ s ≡ q ++ t = ap tail_of e' in
    let same : str_eq (c ∷ []) (d ∷ []) ≡ true = rw (heads) (eq_refl (d ∷ [])) in
    clash-ne p q s t (ground (arith, same)) tails

pub str_eq-clash : (p q s t : String) → clash p q ≡ true → str_eq (p ++ s) (q ++ t) ≡ false
str_eq-clash p q s t h = ground (arith, eq_iff (p ++ s) (q ++ t), clash-ne p q s t h)
