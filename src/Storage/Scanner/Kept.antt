-- ===== src/Storage/Scanner/Kept.antt =====
-- Which files a direct upload of src/api/storage/handlers.py leaves on the disk.
use nexus_gate.Prelude.{
  ℕ, ◌≤◌, String, Bool, true, false, none, some, List, [], ◌∷◌, ◌++◌, ◌≡◌, ◌↔◌, refl, ap, sym, ◌∙◌,
  subst, arith, length, take, Bool-cases, inl, inr, length-append,
}
use mathlib.Core.List.{append_assoc, append-nil}
use nexus_gate.Errors.{Result, raise, ok}
use nexus_gate.Storage.Bytes.{concat}
use nexus_gate.Storage.Scanner.{
  Names, Scanner, scan_magic_bytes, is_over, process_streamed_chunk, stream_chunks,
}

over_mono : (s : Scanner) (m n : ℕ) → m ≤ n → is_over s n ≡ false → is_over s m ≡ false
over_mono s m n h e = ground (arith, e)

module _ (names : Names) (head : ℕ) (s : Scanner) (filename : String) where
  prefix_fits :
      (xs ys : List ℕ) → is_over s (length (xs ++ ys)) ≡ false → is_over s (length xs) ≡ false
  prefix_fits xs ys e =
      over_mono s (length xs) (length (xs ++ ys)) (omega (arith, length-append xs ys)) e

  next :
      (written chunk : List ℕ) (chunks : List (List ℕ))
      → is_over s (length (written ++ chunk)) ≡ false
      → (stream_chunks names head s filename true written (chunk ∷ chunks)).1
        ≡ (stream_chunks names head s filename true (written ++ chunk) chunks).1
  unfolding stream_chunks
  next written chunk chunks fits = rw fits refl

  stopped :
      (written chunk : List ℕ) (chunks : List (List ℕ))
      → is_over s (length (written ++ chunk)) ≡ true
      → (stream_chunks names head s filename true written (chunk ∷ chunks)).1 ≡ none
  unfolding stream_chunks
  stopped written chunk chunks over = rw over refl

  nil_iff :
      (written content : List ℕ)
      → is_over s (length written) ≡ false
      → ((stream_chunks names head s filename true written []).1 ≡ some content)
        ↔ ((content ≡ written ++ []) × (is_over s (length content) ≡ false))
  unfolding stream_chunks
  nil_iff written content fits = (
    λ h.
        let same : written ≡ content = ground (arith, h) in
        (sym same ∙ sym (append-nil written), subst (λ c. is_over s (length c) ≡ false) same fits),
    λ (e, f). ap (λ c. some c) (sym (e ∙ append-nil written)),
  )

  -- Once the first chunk has been looked at.
  later_iff :
      (chunks : List (List ℕ)) (written content : List ℕ)
      → is_over s (length written) ≡ false
      → ((stream_chunks names head s filename true written chunks).1 ≡ some content)
        ↔ ((content ≡ written ++ concat chunks) × (is_over s (length content) ≡ false))
  later_iff [] written content fits = nil_iff written content fits
  later_iff (chunk ∷ chunks) written content fits =
      let assoc = append_assoc written chunk (concat chunks) in
      elim (Bool-cases (is_over s (length (written ++ chunk)))) [
        | inl over ↦ (
          (λ h. cc (h, stopped written chunk chunks over)),
          λ (e, f).
              let fits' =
                prefix_fits (written ++ chunk) (concat chunks)
                  (subst (λ c. is_over s (length c) ≡ false) (e ∙ sym assoc) f) in
              cc (over, fits'),
        )
        | inr within ↦
            let rest = later_iff chunks (written ++ chunk) content within in
            let step = next written chunk chunks within in
            (
              λ h. let (e, f) = rest.0 (sym step ∙ h) in (e ∙ assoc, f),
              λ (e, f). step ∙ rest.1 (e ∙ sym assoc, f),
            )
      ]

  -- Whether the first chunk, if there is one, shows no signature.
  abbrev pub IsClean : List (List ℕ) → Type 0
  IsClean [] = Unit {0}
  IsClean (chunk ∷ chunks) = scan_magic_bytes names (take head chunk) filename ≡ ok tt

  first_scan :
      (chunk : List ℕ) (chunks : List (List ℕ)) (r : Result (Unit {0}))
      → scan_magic_bytes names (take head chunk) filename ≡ r
      → (stream_chunks names head s filename false [] (chunk ∷ chunks)).1
        ≡ (process_streamed_chunk r
            (is_over s (length chunk))
            (stream_chunks names head s filename true chunk chunks)).1
  unfolding stream_chunks
  first_scan chunk chunks r h =
      ap
        (λ q.
          (process_streamed_chunk q (is_over s (length chunk))
            (stream_chunks names head s filename true chunk chunks)).1)
        h

  once_scanned :
      (chunk : List ℕ) (chunks : List (List ℕ))
      → (stream_chunks names head s filename true [] (chunk ∷ chunks)).1
        ≡ (process_streamed_chunk
            (ok tt)
            (is_over s (length chunk))
            (stream_chunks names head s filename true chunk chunks)).1
  unfolding stream_chunks
  once_scanned chunk chunks = refl

  nothing_sent : (scanned : Bool) → (stream_chunks names head s filename scanned [] []).1 ≡ some []
  unfolding stream_chunks
  nothing_sent scanned = refl

  none_written : is_over s 0 ≡ false
  none_written = ground arith

  by_scan :
      (r : Result (Unit {0})) (chunk : List ℕ) (chunks : List (List ℕ)) (content : List ℕ)
      → scan_magic_bytes names (take head chunk) filename ≡ r
      → ((stream_chunks names head s filename false [] (chunk ∷ chunks)).1 ≡ some content) ↔ (
          (content ≡ concat (chunk ∷ chunks))
          × (is_over s (length content) ≡ false)
          × (scan_magic_bytes names (take head chunk) filename ≡ ok tt))
  by_scan (raise e) chunk chunks content scan = (
    (λ h. cc (h, first_scan chunk chunks (raise e) scan)),
    λ (same, fits, clean). cc (scan, clean),
  )
  by_scan (ok u) chunk chunks content scan =
      let start = first_scan chunk chunks (ok u) scan ∙ sym (once_scanned chunk chunks) in
      let rest = later_iff (chunk ∷ chunks) [] content none_written in
      (
        λ h. let (e, fits) = rest.0 (sym start ∙ h) in (e, fits, scan),
        λ (e, fits, clean). start ∙ rest.1 (e, fits),
      )

  -- The file that a direct upload leaves is all that was sent, in order; it is left exactly if it is
  -- not larger than the limit, where there is one, and the first bytes of its first chunk show no
  -- signature of a program that the name does not excuse. In all other cases no file is left, of what
  -- stood there before neither.
  pub stream_chunks_iff :
      (chunks : List (List ℕ)) (content : List ℕ)
      → ((stream_chunks names head s filename false [] chunks).1 ≡ some content)
        ↔ ((content ≡ concat chunks) × (is_over s (length content) ≡ false) × IsClean chunks)
  stream_chunks_iff [] content = (
    λ h.
        let same : [] ≡ content = ground (arith, nothing_sent false, h) in
        (sym same, subst (λ c. is_over s (length c) ≡ false) same none_written, tt),
    λ (e, fits, clean). nothing_sent false ∙ ap (λ c. some c) (sym e),
  )
  stream_chunks_iff (chunk ∷ chunks) content =
      by_scan (scan_magic_bytes names (take head chunk) filename) chunk chunks content refl
