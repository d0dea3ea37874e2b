-- ===== src/Text.antt =====
-- The operations of Python's `str` that the program calls, over native texts.
use Prim.Native.Char.{code}
use Prim.Native.String
use text.Mathlib.TextEquality.{Char-path}
use text.Mathlib.TextLemmas.{nil-append, cons-append}
use nexus_gate.Prelude.{
  List, [], ◌∷◌, sym, ap, ◌∙◌, inl, inr, eqb_iff, Bool-cases, ℕ, zero, suc, ◌+◌, ◌≡◌, refl, arith,
  String, Bool, true, false, ◌&&◌, ◌||◌, Option, none, some, ◌==◌, eqb, leb, if◌then◌else◌,
}

-- `s.split(sep, 1)` at a one-character separator: what stands before it, and what follows it.
unfoldable pub split_once : ℕ → String → String × Option String
split_once sep String.[] = ("", none)
split_once sep (String.◌∷◌ c s) =
    let (before, after) = split_once sep s in
    if eqb (code c) sep then ("", some s) else (String.◌∷◌ c before, after)

-- `sep in s` at one character.
unfoldable pub has_char : ℕ → String → Bool
has_char sep String.[] = false
has_char sep (String.◌∷◌ c s) = eqb (code c) sep || has_char sep s

-- `str.isspace` of one character.
unfoldable pub is_space : ℕ → Bool
is_space c =
    (leb 0x09 c && leb c 0x0d)
    || (leb 0x1c c && leb c 0x20)
    || eqb c 0x85
    || eqb c 0xa0
    || eqb c 0x1680
    || (leb 0x2000 c && leb c 0x200a)
    || eqb c 0x2028
    || eqb c 0x2029
    || eqb c 0x202f
    || eqb c 0x205f
    || eqb c 0x3000

unfoldable pub lstrip : String → String
unfolding is_space
lstrip String.[] = ""
lstrip (String.◌∷◌ c s) = let rest = lstrip s in if is_space (code c) then rest else String.◌∷◌ c s

unfoldable pub rstrip : String → String
unfolding is_space
rstrip String.[] = ""
rstrip (String.◌∷◌ c s) =
    let rest = rstrip s in if is_space (code c) && rest == "" then "" else String.◌∷◌ c rest

unfoldable pub strip : String → String
unfolding lstrip rstrip
strip s = lstrip (rstrip s)

-- A text is true in a test if it is not empty.
abbrev pub truthy : Option String → Bool
truthy none = false
truthy (some s) = if s == "" then false else true

infixr 65 ◌<>◌
abbrev pub ◌<>◌ : String → String → String
a <> b = String.◌++◌ a b

-- What follows a prefix: `s[len(p):]` if `s.startswith(p)`.
unfoldable pub cut_prefix : String → String → Option String
cut_prefix String.[] s = some s
cut_prefix (String.◌∷◌ c p) String.[] = none
cut_prefix (String.◌∷◌ c p) (String.◌∷◌ d s) =
    let rest = cut_prefix p s in if eqb (code c) (code d) then rest else none

-- `s.startswith(p)`.
abbrev pub starts_with : String → String → Bool
starts_with p s = elim (cut_prefix p s) [ none ↦ false | some rest ↦ true ]

-- `len(s)`.
unfoldable pub size : String → ℕ
size String.[] = 0
size (String.◌∷◌ c s) = size s + 1

-- `s[n:]`.
unfoldable pub drop : ℕ → String → String
drop zero s = s
drop (suc n) String.[] = ""
drop (suc n) (String.◌∷◌ c s) = drop n s

-- `s.lstrip(c)` and `s.rstrip(c)` at one character.
unfoldable pub lstrip_char : ℕ → String → String
lstrip_char sep String.[] = ""
lstrip_char sep (String.◌∷◌ c s) =
    let rest = lstrip_char sep s in if eqb (code c) sep then rest else String.◌∷◌ c s

unfoldable pub rstrip_char : ℕ → String → String
rstrip_char sep String.[] = ""
rstrip_char sep (String.◌∷◌ c s) =
    let rest = rstrip_char sep s in if eqb (code c) sep && rest == "" then "" else String.◌∷◌ c rest

-- `s.split(sep)` at a one-character separator.
unfoldable pub split : ℕ → String → List String
split sep String.[] = "" ∷ []
split sep (String.◌∷◌ c s) = elim (split sep s) [
  | [] ↦ []
  | part ∷ parts ↦ if eqb (code c) sep then "" ∷ part ∷ parts else String.◌∷◌ c part ∷ parts
]

-- `s.split(sep)[-1]` and `s.split(sep)[0]`.
unfoldable pub last_part : List String → String
last_part [] = ""
last_part (part ∷ []) = part
last_part (part ∷ next ∷ parts) = last_part (next ∷ parts)

abbrev pub first_part : List String → String
first_part [] = ""
first_part (part ∷ parts) = part

-- Whether a character is one of a text's, and `s.strip(chars)`.
unfoldable pub lstrip_chars : String → String → String
lstrip_chars chars String.[] = ""
lstrip_chars chars (String.◌∷◌ c s) =
    let rest = lstrip_chars chars s in if has_char (code c) chars then rest else String.◌∷◌ c s

unfoldable pub rstrip_chars : String → String → String
rstrip_chars chars String.[] = ""
rstrip_chars chars (String.◌∷◌ c s) =
    let rest = rstrip_chars chars s in
    if has_char (code c) chars && rest == "" then "" else String.◌∷◌ c rest

unfoldable pub strip_chars : String → String → String
unfolding lstrip_chars rstrip_chars
strip_chars chars s = lstrip_chars chars (rstrip_chars chars s)

-- What a cut is: the prefix stands before the rest, and the rest is what is left after its length.
pub cut_prefix-append : (p s rest : String) → cut_prefix p s ≡ some rest → s ≡ p <> rest
unfolding cut_prefix
cut_prefix-append String.[] s rest h = cc (h, nil-append rest)
cut_prefix-append (String.◌∷◌ c p) String.[] rest h = cc
cut_prefix-append (String.◌∷◌ c p) (String.◌∷◌ d s) rest h =
    elim (Bool-cases (eqb (code c) (code d))) [
      | inl same ↦
          let tail = cut_prefix-append p s rest (ground (arith, same, h)) in
          let head = Char-path c d ((eqb_iff (code c) (code d)).0 same) in
          ap (λ t. String.◌∷◌ d t) tail
          ∙ ap (λ a. String.◌∷◌ a (p <> rest)) (sym head)
          ∙ sym (cons-append c p rest)
      | inr other ↦ ground (arith, other, h)
    ]

pub drop-cut_prefix : (p s rest : String) → cut_prefix p s ≡ some rest → drop (size p) s ≡ rest
unfolding cut_prefix drop size
drop-cut_prefix String.[] s rest h = ground arith
drop-cut_prefix (String.◌∷◌ c p) String.[] rest h = cc
drop-cut_prefix (String.◌∷◌ c p) (String.◌∷◌ d s) rest h =
    elim (Bool-cases (eqb (code c) (code d))) [
      | inl same ↦
          let step : size p + 1 ≡ suc (size p) = omega arith in
          ap (λ n. drop n (String.◌∷◌ d s)) step
          ∙ drop-cut_prefix p s rest (ground (arith, same, h))
      | inr other ↦ ground (arith, other, h)
    ]

pub size-append : (s t : String) → size (s <> t) ≡ size s + size t
unfolding size
size-append String.[] t = ap size (nil-append t) ∙ omega arith
size-append (String.◌∷◌ c s) t = ap size (cons-append c s t) ∙ omega (arith, size-append s t)

pub cut-append : (p rest : String) → cut_prefix p (p <> rest) ≡ some rest
unfolding cut_prefix
cut-append String.[] rest = ap (λ s. some s) (nil-append rest)
cut-append (String.◌∷◌ c p) rest =
    let same : eqb (code c) (code c) ≡ true = (eqb_iff (code c) (code c)).1 refl in
    ap (cut_prefix (String.◌∷◌ c p)) (cons-append c p rest) ∙ rw same (cut-append p rest)

pub starts_with-append : (p rest : String) → starts_with p (p <> rest) ≡ true
starts_with-append p rest = ap (λ o. elim o [ none ↦ false | some r ↦ true ]) (cut-append p rest)
