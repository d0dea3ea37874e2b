-- ===== src/Storage/Scanner.antt =====
-- src/api/storage/upload_scanner.py, and the direct upload of src/api/storage/handlers.py.
pub mod Kept
use nexus_gate.Prelude.{
  ℕ, zero, suc, ◌+◌, ◌≤◌, String, Bool, true, false, not, ◌&&◌, ◌||◌, Option, none, some, List, [],
  ◌∷◌, ◌++◌, map, ◌==◌, ◌≡◌, ◌↔◌, refl, ap, sym, ◌∙◌, subst, arith, eqb, ltb, leb, if◌then◌else◌,
  contains, length, take, Bool-cases, inl, inr, length-append,
}
use nexus_gate.Errors.{
  Result, raise, ok, ◌>>◌, raise_if, nexus, fs_extension_blocked, fs_file_too_large,
}
use nexus_gate.Storage.Bytes.{drop, concat}

-- `os.path.splitext(…)[1]` and `str.lower`.
pub record Names : Type 0 where
  pub extension : String → String
  pub lower : String → String

-- An `UploadScanner`, with the extensions that are always blocked among the blocked ones.
pub record Scanner : Type 0 where
  pub allowed_extensions : List String
  pub blocked_extensions : List String
  pub max_file_size : ℕ

abbrev hardcoded_blocked_extensions : List String
hardcoded_blocked_extensions =
    ".exe" ∷ ".bat" ∷ ".cmd" ∷ ".com" ∷ ".scr" ∷ ".pif" ∷ ".msi" ∷ ".msp" ∷ ".mst" ∷ ".cpl" ∷ ".hta"
    ∷ ".inf" ∷ ".ins" ∷ ".isp" ∷ ".jse" ∷ ".lnk" ∷ ".reg" ∷ ".rgs" ∷ ".sct" ∷ ".shb" ∷ ".shs"
    ∷ ".vbe" ∷ ".vbs" ∷ ".wsc" ∷ ".wsf" ∷ ".wsh" ∷ ".ws" ∷ ".ps1" ∷ ".ps1xml" ∷ ".ps2" ∷ ".ps2xml"
    ∷ ".psc1" ∷ ".psc2" ∷ ".sh" ∷ ".bash" ∷ ".csh" ∷ ".ksh" ∷ ".elf" ∷ ".bin" ∷ ".run" ∷ ".app"
    ∷ ".action" ∷ ".command" ∷ ".dll" ∷ ".sys" ∷ ".drv" ∷ []

-- `UploadScanner(…)`, and `_build_scanner` with the size that was read.
unfoldable pub make_scanner : Names → List String → List String → ℕ → Scanner
make_scanner names allowed blocked max_file_size = record {
  allowed_extensions = map names.lower allowed;
  blocked_extensions = hardcoded_blocked_extensions ++ map names.lower blocked;
  max_file_size = max_file_size;
}

abbrev pub is_given : List String → Bool
is_given [] = false
is_given (e ∷ es) = true

unfoldable pub validate_filename : Names → Scanner → String → Result (Unit {0})
validate_filename names s filename =
    let ext = names.extension (names.lower filename) in
    if ext == ""
    then ok tt
    else (raise_if (is_given s.allowed_extensions && not (contains s.allowed_extensions ext))
          fs_extension_blocked 400
        >> raise_if (contains s.blocked_extensions ext) fs_extension_blocked 400)

unfoldable pub validate_size : Scanner → ℕ → Result (Unit {0})
validate_size s content_length =
    raise_if (ltb 0 s.max_file_size && ltb s.max_file_size content_length) fs_file_too_large 413

abbrev pub begins : List ℕ → List ℕ → Bool
begins [] bytes = true
begins (x ∷ xs) [] = false
begins (x ∷ xs) (y ∷ ys) = eqb x y && begins xs ys

abbrev pk : List ℕ
pk = 0x50 ∷ 0x4b ∷ 3 ∷ 4 ∷ []

-- `DANGEROUS_SIGNATURES`, all at the start of a file, and whether it is that of an archive.
abbrev pub dangerous_signatures : List (List ℕ × Bool)
dangerous_signatures =
    (0x4d ∷ 0x5a ∷ [], false)
    ∷ (0x7f ∷ 0x45 ∷ 0x4c ∷ 0x46 ∷ [], false)
    ∷ (0xfe ∷ 0xed ∷ 0xfa ∷ 0xce ∷ [], false)
    ∷ (0xfe ∷ 0xed ∷ 0xfa ∷ 0xcf ∷ [], false)
    ∷ (0xca ∷ 0xfe ∷ 0xba ∷ 0xbe ∷ [], false)
    ∷ (pk, true)
    ∷ (0x23 ∷ 0x21 ∷ 0x2f ∷ [], false)
    ∷ (0x23 ∷ 0x21 ∷ 0x5c ∷ [], false)
    ∷ (0x4c ∷ 0 ∷ 0 ∷ 0 ∷ [], false)
    ∷ (0xd0 ∷ 0xcf ∷ 0x11 ∷ 0xe0 ∷ [], false)
    ∷ (0 ∷ 0x61 ∷ 0x73 ∷ 0x6d ∷ [], false)
    ∷ []

abbrev safe_archives : List String
safe_archives = ".zip" ∷ ".docx" ∷ ".xlsx" ∷ ".pptx" ∷ ".odt" ∷ ".ods" ∷ ".epub" ∷ ".cbz" ∷ []

abbrev pub is_safe_archive : Names → Bool → String → Bool
is_safe_archive names is_pk filename =
    is_pk && contains safe_archives (names.extension (names.lower filename))

unfoldable pub scan_signatures : Names → List (List ℕ × Bool) → List ℕ → String → Result (Unit {0})
scan_signatures names [] header filename = ok tt
scan_signatures names ((signature, is_pk) ∷ signatures) header filename =
    raise_if (begins signature header && not (is_safe_archive names is_pk filename))
      fs_extension_blocked 400
    >> scan_signatures names signatures header filename

unfoldable pub scan_magic_bytes : Names → List ℕ → String → Result (Unit {0})
unfolding scan_signatures
scan_magic_bytes names header filename = scan_signatures names dangerous_signatures header filename

-- The first 1024 bytes of the first chunk are looked at, and no other.
abbrev pub check_chunk : Names → ℕ → List ℕ → String → Bool → Result (Unit {0})
check_chunk names head chunk filename true = ok tt
check_chunk names head chunk filename false = scan_magic_bytes names (take head chunk) filename

-- `_process_streamed_chunk`: the file is taken away if the chunk is rejected or one too many.
abbrev pub process_streamed_chunk :
    Result (Unit {0}) → Bool → Result ℕ × Option (List ℕ) → Result ℕ × Option (List ℕ)
process_streamed_chunk (raise e) over rest = (raise e, none)
process_streamed_chunk (ok clean) over rest =
    if over then (raise (nexus fs_file_too_large 413), none) else rest

-- A size that the limit forbids.
abbrev pub is_over : Scanner → ℕ → Bool
is_over s n = ltb 0 s.max_file_size && ltb s.max_file_size n

-- `_stream_direct_upload`: what it gives or raises, and the file that then stands at the target, if
-- any. It is opened for writing first, so what stood there before is gone.
unfoldable pub stream_chunks :
    Names → ℕ → Scanner → String → Bool → List ℕ → List (List ℕ) → Result ℕ × Option (List ℕ)
unfolding scan_magic_bytes
stream_chunks names head s filename scanned written [] = (ok (length written), some written)
stream_chunks names head s filename scanned written (chunk ∷ chunks) =
    let total = written ++ chunk in
    let rest = stream_chunks names head s filename true total chunks in
    process_streamed_chunk (check_chunk names head chunk filename scanned)
      (is_over s (length total)) rest

abbrev pub stream_direct_upload :
    Names → Scanner → String → List (List ℕ) → Result ℕ × Option (List ℕ)
stream_direct_upload names s filename chunks = stream_chunks names 1024 s filename false [] chunks
