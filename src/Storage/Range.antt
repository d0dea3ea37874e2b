-- ===== src/Storage/Range.antt =====
-- The header `Range` as src/api/storage/streaming.py reads it. Digits are those of
-- ASCII, in any number.
use Prim.Native.Char.{code}
use nexus_gate.Prelude.{
  ℕ, zero, suc, ◌+◌, ◌-◌, ◌*◌, ◌≤◌, ◌<◌, String, Bool, true, false, ◌&&◌, Option, none, some, ◌≡◌,
  ◌==◌, arith, ltb, leb, eqb, if◌then◌else◌, Bool-cases, if-both, subst, inl, inr,
}
use nexus_gate.Text.{split_once, has_char, strip, cut_prefix}
use nexus_gate.Errors.{Result, raise, ok, ◌>>=◌, value_error, index_error}

pub data ℤ : Type 0 where
  pos negsuc : ℕ → ℤ

abbrev pub neg : ℕ → ℤ
neg zero = pos 0
neg (suc n) = negsuc n

-- Digits, with single underscores between them; the flag says that a digit came last.
unfoldable pub read_digits : ℕ → Bool → String → Option ℕ
read_digits acc last String.[] = if last then some acc else none
read_digits acc last (String.◌∷◌ c s) =
    let more = read_digits (acc * 10 + (code c - 0x30)) true s in
    let after = read_digits acc false s in
    if leb 0x30 (code c) && leb (code c) 0x39
    then more
    else if eqb (code c) 0x5f && last
    then after
    else none

abbrev pub signed : (ℕ → ℤ) → Option ℕ → Option ℤ
signed sign none = none
signed sign (some n) = some (sign n)

-- `int(s)`, with `none` for a `ValueError`.
abbrev pub signed_digits : String → Option ℤ
signed_digits String.[] = none
signed_digits (String.◌∷◌ c s) =
    if eqb (code c) 0x2b
    then signed pos (read_digits 0 false s)
    else if eqb (code c) 0x2d
    then signed neg (read_digits 0 false s)
    else signed pos (read_digits 0 false (String.◌∷◌ c s))

unfoldable pub int : String → Option ℤ
unfolding strip read_digits
int s = signed_digits (strip s)

abbrev pub to_int : String → Result ℤ
to_int s = elim (int s) [ none ↦ raise value_error | some n ↦ ok n ]

-- `parts[1]`.
abbrev pub second : Option String → Result String
second none = raise index_error
second (some s) = ok s

-- `file_size - 1`.
abbrev pub last_byte : ℕ → ℤ
last_byte zero = negsuc 0
last_byte (suc n) = pos n

abbrev pub suffix_range : ℕ → ℤ → Option (ℕ × ℕ)
suffix_range file_size (negsuc n) = none
suffix_range file_size (pos n) =
    if ltb 0 n && leb n file_size then some (file_size - n, file_size - 1) else none

abbrev pub bounded_range : ℕ → ℤ → ℤ → Option (ℕ × ℕ)
bounded_range file_size (pos a) (pos b) =
    if ltb a file_size && (leb a b && ltb b file_size) then some (a, b) else none
bounded_range file_size (pos a) (negsuc b) = none
bounded_range file_size (negsuc a) end = none

unfoldable pub evaluate_range_bounds : String → Option String → ℕ → Result (Option (ℕ × ℕ))
unfolding int
evaluate_range_bounds before after file_size =
    if before == ""
    then (second after >>= λ part.
        to_int part >>= λ suffix_len. ok (suffix_range file_size suffix_len))
    else (to_int before >>= λ start. second after >>= λ part.
        (if part == "" then ok (last_byte file_size) else to_int part) >>= λ end.
        ok (bounded_range file_size start end))

-- Both exceptions that can arise are caught.
abbrev pub caught : Result (Option (ℕ × ℕ)) → Option (ℕ × ℕ)
caught (raise x) = none
caught (ok r) = r

-- With what follows `bytes=`, if the header begins with it.
unfoldable pub range_after : String → ℕ → Option String → Option (ℕ × ℕ)
unfolding has_char split_once strip evaluate_range_bounds
range_after range_header file_size none = none
range_after range_header file_size (some rest) =
    let (before, after) = split_once 0x2d (strip rest) in
    if has_char 0x2c range_header
    then none
    else caught (evaluate_range_bounds before after file_size)

unfoldable pub parse_range_header : String → ℕ → Option (ℕ × ℕ)
unfolding cut_prefix range_after
parse_range_header range_header file_size =
    range_after range_header file_size (cut_prefix "bytes=" range_header)

-- What bounds give a range at all.
abbrev pub InFile : ℕ → Option (ℕ × ℕ) → Type 0
InFile file_size none = Unit
InFile file_size (some (a, b)) = (a ≤ b) × (b < file_size)

suffix-InFile : (file_size : ℕ) (n : ℤ) → InFile file_size (suffix_range file_size n)
suffix-InFile file_size (negsuc n) = tt
suffix-InFile file_size (pos n) = elim (Bool-cases (ltb 0 n && leb n file_size)) [
  | inl fits ↦ rw fits (ground arith, ground arith)
  | inr not_so ↦ rw not_so tt
]

bounded-InFile : (file_size : ℕ) (a b : ℤ) → InFile file_size (bounded_range file_size a b)
bounded-InFile file_size (negsuc a) b = tt
bounded-InFile file_size (pos a) (negsuc b) = tt
bounded-InFile file_size (pos a) (pos b) =
    elim (Bool-cases (ltb a file_size && (leb a b && ltb b file_size))) [
      | inl fits ↦ rw fits (ground arith, ground arith)
      | inr not_so ↦ rw not_so tt
    ]

caught-bind {κ} :
    {A : Type κ} (file_size : ℕ) (r : Result A) (next : A → Result (Option (ℕ × ℕ)))
    → ((x : A) → InFile file_size (caught (next x)))
    → InFile file_size (caught (r >>= next))
caught-bind file_size (raise x) next each = tt
caught-bind file_size (ok x) next each = each x

evaluate-InFile :
    (before : String) (after : Option String) (file_size : ℕ)
    → InFile file_size (caught (evaluate_range_bounds before after file_size))
unfolding evaluate_range_bounds
evaluate-InFile before after file_size =
    if-both (λ r. InFile file_size (caught r)) (before == "")
      (caught-bind file_size (second after) _
        (λ part. caught-bind file_size (to_int part) _ (λ n. suffix-InFile file_size n)))
      (caught-bind file_size (to_int before) _ (λ start.
        caught-bind file_size (second after) _ (λ part.
          caught-bind file_size (if part == "" then ok (last_byte file_size) else to_int part)
            (λ end. ok (bounded_range file_size start end))
            (λ end. bounded-InFile file_size start end))))

after-InFile :
    (range_header : String) (file_size : ℕ) (cut : Option String)
    → InFile file_size (range_after range_header file_size cut)
unfolding range_after
after-InFile range_header file_size none = tt
after-InFile range_header file_size (some rest) =
    if-both (InFile file_size) (has_char 0x2c range_header) tt
      (evaluate-InFile (split_once 0x2d (strip rest)).0 (split_once 0x2d (strip rest)).1 file_size)

pub parse-InFile :
    (range_header : String) (file_size : ℕ)
    → InFile file_size (parse_range_header range_header file_size)
unfolding parse_range_header
parse-InFile range_header file_size =
    after-InFile range_header file_size (cut_prefix "bytes=" range_header)

-- A range that is read from a header, whatever the header says, is not empty and lies in the file.
pub parse_range_header-in_file :
    (range_header : String) (file_size a b : ℕ)
    → parse_range_header range_header file_size ≡ some (a, b)
    → (a ≤ b) × (b < file_size)
parse_range_header-in_file range_header file_size a b found =
    subst (InFile file_size) found (parse-InFile range_header file_size)
