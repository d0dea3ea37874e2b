-- ===== src/Storage/Streaming.antt =====
-- src/api/storage/streaming.py: what is answered to a request for a file, and what is sent.
use nexus_gate.Prelude.{
  ℕ, zero, suc, ◌+◌, ◌-◌, ◌≤◌, ◌<◌, String, Bool, true, false, Option, none, some, List, [], ◌∷◌,
  ◌++◌, ◌≡◌, ◌==◌, refl, arith, eqb, if◌then◌else◌, take, length, min, ap, sym, ◌≢◌, Bool-cases,
  inl, inr, eqb_iff, ◌||◌, ◌∙◌,
}
use nexus_gate.Errors.{Result, raise, ok, nexus, server_unavailable, fs_path_not_found}
use nexus_gate.Storage.Bytes.{drop, concat, take-all, take-split, length-take, length-drop}
use nexus_gate.Storage.Range.{parse_range_header, parse-InFile, InFile}

abbrev pub chunk_size : ℕ
chunk_size = 65536

-- What `_file_range_streamer` yields from where it has sought, in reads of at most `size` bytes;
-- each round sends a byte or ends, so the number of bytes left is fuel enough.
unfoldable pub range_chunks : ℕ → ℕ → ℕ → List ℕ → List (List ℕ)
range_chunks size zero remaining rest = []
range_chunks size (suc fuel) remaining rest =
    let chunk = take (min size remaining) rest in
    let later = range_chunks size fuel (remaining - length chunk) (drop (length chunk) rest) in
    if eqb remaining 0 || eqb (length chunk) 0 then [] else chunk ∷ later

unfoldable pub file_range_streamer : List ℕ → ℕ → ℕ → List (List ℕ)
unfolding range_chunks
file_range_streamer content start end =
    let remaining = end - start + 1 in
    range_chunks chunk_size remaining remaining (drop start content)

unfoldable pub whole_chunks : ℕ → ℕ → List ℕ → List (List ℕ)
whole_chunks size zero rest = []
whole_chunks size (suc fuel) rest =
    let chunk = take size rest in
    let later = whole_chunks size fuel (drop (length chunk) rest) in
    if eqb (length chunk) 0 then [] else chunk ∷ later

unfoldable pub file_streamer : List ℕ → List (List ℕ)
unfolding whole_chunks
file_streamer content = whole_chunks chunk_size (length content) content

pub record File : Type 0 where
  pub etag : String
  pub bytes : List ℕ

-- 304, 416, 206 and 200, with what stands in `Content-Range` and `Content-Length`.
pub data Response : Type 0 where
  not_modified : Response
  unsatisfiable : (size : ℕ) → Response
  partial : (start end size content_length : ℕ) → Response
  whole : (content_length : ℕ) → Response

abbrev pub matches : Option String → String → Bool
matches none etag = false
matches (some sent) etag = sent == etag

abbrev pub ranged : String → ℕ → Option (ℕ × ℕ) → Response
ranged range size none = if range == "" then whole size else unsatisfiable size
ranged range size (some (a, b)) = partial a b size (b - a + 1)

abbrev pub answer : File → Option String → String → Response
answer f if_none_match range =
    if matches if_none_match f.etag
    then not_modified
    else ranged range (length f.bytes) (parse_range_header range (length f.bytes))

-- `circuit` is what `CircuitBreaker.is_open` says, and the file is `none` if the path is none.
unfoldable pub serve_file : Bool → Option File → Option String → String → Result Response
serve_file true f if_none_match range = raise (nexus server_unavailable 503)
serve_file false none if_none_match range = raise (nexus fs_path_not_found 404)
serve_file false (some f) if_none_match range = ok (answer f if_none_match range)

unfoldable pub body : File → Response → List (List ℕ)
unfolding file_range_streamer file_streamer
body f not_modified = []
body f (unsatisfiable size) = []
body f (partial a b size n) = file_range_streamer f.bytes a b
body f (whole n) = file_streamer f.bytes

take-drop : (k : ℕ) (xs : List ℕ) → take k xs ++ drop (length (take k xs)) xs ≡ xs
take-drop zero xs = refl
take-drop (suc k) [] = refl
take-drop (suc k) (x ∷ xs) = ap (λ ys. x ∷ ys) (take-drop k xs)

empty-take : (n : ℕ) (xs : List ℕ) → length (take n xs) ≡ 0 → take n xs ≡ []
empty-take zero xs h = refl
empty-take (suc n) [] h = refl
empty-take (suc n) (x ∷ xs) h = ground (arith, h)

empty-take_more : (k n : ℕ) (xs : List ℕ) → 0 < k → length (take k xs) ≡ 0 → take n xs ≡ []
empty-take_more zero n xs pos h = ground (arith, pos)
empty-take_more (suc k) zero xs pos h = refl
empty-take_more (suc k) (suc n) [] pos h = refl
empty-take_more (suc k) (suc n) (x ∷ xs) pos h = ground (arith, h)

-- Enough rounds send what was asked for, or all there is.
range_chunks-take :
    (size fuel remaining : ℕ) (rest : List ℕ)
    → 0 < size
    → remaining ≤ fuel
    → concat (range_chunks size fuel remaining rest) ≡ take remaining rest
unfolding range_chunks
range_chunks-take size zero zero rest some_size h = refl
range_chunks-take size zero (suc less) rest some_size h = ground arith
range_chunks-take size (suc fuel) zero rest some_size h = refl
range_chunks-take size (suc fuel) (suc less) rest some_size h =
    let chunk = take (min size (suc less)) rest in
    let asked : eqb (suc less) 0 ≡ false = ground arith in
    elim (Bool-cases (eqb (length chunk) 0)) [
      | inl ended ↦
          let none_left = (eqb_iff (length chunk) 0).0 ended in
          rw (asked, ended)
            (sym (empty-take_more (min size (suc less)) (suc less) rest (omega arith) none_left))
      | inr more ↦
          let some_read : length chunk ≢ 0 = λ e. ground (arith, (eqb_iff (length chunk) 0).1 e) in
          rw (asked, more)
            (ap (λ later. chunk ++ later)
                (range_chunks-take size fuel (suc less - length chunk) (drop (length chunk) rest)
                  some_size (omega arith))
              ∙ take-split (min size (suc less)) (suc less) rest (omega arith))
    ]

whole_chunks-all :
    (size fuel : ℕ) (rest : List ℕ)
    → 0 < size
    → length rest ≤ fuel
    → concat (whole_chunks size fuel rest) ≡ rest
unfolding whole_chunks
whole_chunks-all size zero [] some_size h = refl
whole_chunks-all size zero (x ∷ rest) some_size h = ground arith
whole_chunks-all size (suc fuel) rest some_size h =
    let chunk = take size rest in
    elim (Bool-cases (eqb (length chunk) 0)) [
      | inl ended ↦
          let none_left = (eqb_iff (length chunk) 0).0 ended in
          let nothing = empty-take_more size (length rest) rest some_size none_left in
          rw ended (sym nothing ∙ take-all (length rest) rest (omega arith))
      | inr more ↦
          let some_read : length chunk ≢ 0 = λ e. ground (arith, (eqb_iff (length chunk) 0).1 e) in
          let left = length-drop (length chunk) rest in
          rw more (
            ap (λ later. chunk ++ later)
              (whole_chunks-all size fuel (drop (length chunk) rest) some_size
                (omega (arith, left)))
            ∙ take-drop size rest)
    ]

ranged-partial :
    (range : String) (size : ℕ) (found : Option (ℕ × ℕ)) (a b s n : ℕ)
    → InFile size found
    → ranged range size found ≡ partial a b s n
    → (a ≤ b) × (b < size) × (s ≡ size) × (n ≡ b - a + 1)
ranged-partial range size none a b s n inside same = ground (arith, same)
ranged-partial range size (some (c, d)) a b s n inside same = ground (arith, same)

-- What is sent with 206 is the part of the file from the first to the last byte of the range,
-- which lies in the file, and it is as long as `Content-Length` says.
pub partial-slice :
    (f : File) (if_none_match : Option String) (range : String) (a b size n : ℕ)
    → serve_file false (some f) if_none_match range ≡ ok (partial a b size n)
    → (a ≤ b)
      × (b < length f.bytes)
      × (size ≡ length f.bytes)
      × (concat (body f (partial a b size n)) ≡ take (b - a + 1) (drop a f.bytes))
      × (length (concat (body f (partial a b size n))) ≡ n)
unfolding serve_file body file_range_streamer
partial-slice f if_none_match range a b size n served =
    let size' = length f.bytes in
    let found = parse_range_header range size' in
    let same : ranged range size' found ≡ partial a b size n = ground (arith, served) in
    let (order, inside, total, count) =
      ranged-partial range size' found a b size n (parse-InFile range size') same in
    let sent =
      range_chunks-take chunk_size (b - a + 1) (b - a + 1) (drop a f.bytes) (omega arith)
        (omega arith) in
    (
      order,
      inside,
      total,
      sent,
      ap length sent
          ∙ omega (arith, length-take (b - a + 1) (drop a f.bytes), length-drop a f.bytes),
    )

-- What is sent with 200 is the file, and it is as long as `Content-Length` says.
pub whole-file :
    (f : File) (if_none_match : Option String) (range : String) (n : ℕ)
    → serve_file false (some f) if_none_match range ≡ ok (whole n)
    → (concat (body f (whole n)) ≡ f.bytes) × (length f.bytes ≡ n)
unfolding serve_file body file_streamer
whole-file f if_none_match range n served =
    let same : length f.bytes ≡ n = ground (arith, served) in
    (whole_chunks-all chunk_size (length f.bytes) f.bytes (omega arith) (omega arith), same)
