-- ===== src/Sources/Text.antt =====
-- The functions of Go's strings, unicode and utf8 that the sources use, on texts as sequences of runes.
pub mod Laws
use Prim.Native.Char.{code}
use Prim.Native.String.{String}
use mcpyeahyouknowme.Prelude.{
  Eq, ◌≡◌, refl, sym, arith, ℕ, zero, suc, ◌+◌, Bool, true, false, not, ◌&&◌, ◌||◌, Option, none,
  some, List, [], ◌∷◌, ◌++◌, if◌then◌else◌, ◌==◌, contains, nat_eq, leb, ltb, length, take,
}

abbrev pub Text : Type 0
Text = List ℕ

-- The runes of a literal.
abbrev pub codes : String → Text
codes String.[] = []
codes (String.◌∷◌ c s) = code c ∷ codes s

pub cons-ne-nil : (x : ℕ) (a : Text) → x ∷ a ≡ [] → ⊥
cons-ne-nil x a e = ground (arith, e)

pub cons-head : (x y : ℕ) (a b : Text) → x ∷ a ≡ y ∷ b → x ≡ y
cons-head x y a b e = ground (arith, e)

pub cons-tail : (x y : ℕ) (a b : Text) → x ∷ a ≡ y ∷ b → a ≡ b
cons-tail x y a b e = ground (arith, e)

pub cons-same : (x y : ℕ) (a b : Text) → x ≡ y → a ≡ b → x ∷ a ≡ y ∷ b
cons-same x y a b p q = ground (arith, p, q)

-- Written out, so that it computes on literals.
unfoldable pub text_discrete : Discrete Text
unfolding nat_eq
text_discrete [] [] = yes refl
text_discrete [] (y ∷ b) = no (λ e. cons-ne-nil y b (sym e))
text_discrete (x ∷ a) [] = no (cons-ne-nil x a)
text_discrete (x ∷ a) (y ∷ b) = elim (nat_eq.dec x y) [
  | no n ↦ no (λ e. n (cons-head x y a b e))
  | yes p ↦ elim (text_discrete a b) [
    | yes q ↦ yes (cons-same x y a b p q)
    | no n ↦ no (λ e. n (cons-tail x y a b e))
  ]
]

instance unfoldable pub text_eq : Eq Text
unfolding text_discrete
text_eq = record { dec = text_discrete }

-- strings.HasPrefix
abbrev pub has_prefix : Text → Text → Bool
has_prefix t [] = true
has_prefix [] (p ∷ prefix) = false
has_prefix (r ∷ t) (p ∷ prefix) = r == p && has_prefix t prefix

-- strings.Join
abbrev pub join : Text → List Text → Text
join sep [] = []
join sep (t ∷ []) = t
join sep (t ∷ u ∷ ts) = t ++ (sep ++ join sep (u ∷ ts))

-- unicode.IsSpace
unfoldable pub is_space : ℕ → Bool
is_space r =
    (leb 9 r && leb r 13)
    || (leb 8192 r && leb r 8202)
    || contains (32 ∷ 133 ∷ 160 ∷ 5760 ∷ 8232 ∷ 8233 ∷ 8239 ∷ 8287 ∷ 12288 ∷ []) r

abbrev pub is_empty : Text → Bool
is_empty [] = true
is_empty (r ∷ t) = false

unfoldable pub trim_left : Text → Text
trim_left [] = []
trim_left (r ∷ t) = let rest = trim_left t in if is_space r then rest else r ∷ t

unfoldable pub trim_right : Text → Text
trim_right [] = []
trim_right (r ∷ t) = let rest = trim_right t in if is_empty rest && is_space r then [] else r ∷ rest

-- strings.TrimSpace
unfoldable pub trim_space : Text → Text
unfolding trim_left trim_right
trim_space t = trim_right (trim_left t)

-- utf8.RuneLen, and the length of a text in bytes
abbrev pub rune_len : ℕ → ℕ
rune_len r = if ltb r 128 then 1 else (if ltb r 2048 then 2 else (if ltb r 65536 then 3 else 4))

unfoldable pub byte_len : Text → ℕ
byte_len [] = 0
byte_len (r ∷ t) = rune_len r + byte_len t

-- strings.LastIndex of one rune, as a number of runes; `none` for -1
unfoldable pub last_index : ℕ → Text → Option ℕ
last_index c [] = none
last_index c (r ∷ t) = elim (last_index c t) [
  | some i ↦ some (suc i)
  | none ↦ if r == c then some 0 else none
]
