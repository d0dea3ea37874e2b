-- ===== src/Storage/Upload.antt =====
-- src/api/storage/chunked_upload.py: sessions in the cache, chunks in a directory of the upload, and
-- the files that they are put together to.
pub mod Whole
use nexus_gate.Prelude.{
  ℕ, zero, suc, ◌+◌, String, Bool, true, false, not, ◌&&◌, Option, none, some, List, [], ◌∷◌, ◌++◌,
  ◌==◌, ltb, if◌then◌else◌, length, lookup, insert, remove, string_eq, nat_eq,
}
use nexus_gate.Text.{◌<>◌, truthy}
use nexus_gate.Errors.{
  Result, raise, ok, nexus, os_error, fs_upload_expired, fs_upload_invalid, fs_checksum_mismatch,
}
use nexus_gate.RateLimit.Memory.{TtlCache}

pub record Session : Type 0 where
  pub total_chunks : ℕ
  pub total_size : ℕ
  pub uploaded_chunks : List ℕ
  pub uploaded_bytes : ℕ
  pub checksum_sha256 : Option String

abbrev pub Chunks : Type 0
Chunks = List (ℕ × List ℕ)

abbrev pub session_key : String → String
session_key upload_id = "upload:" <> upload_id

abbrev pub expected : Option String → String
expected none = ""
expected (some hash) = hash

-- `range(total_chunks)`: what the chunks from an index on hold, or nothing if one is missing.
unfoldable pub reassemble_chunks : Chunks → ℕ → ℕ → Option (List ℕ)
unfolding lookup
reassemble_chunks files zero i = some []
reassemble_chunks files (suc n) i = elim (lookup i files) [
  | none ↦ none
  | some chunk ↦ elim (reassemble_chunks files n (i + 1)) [
    | none ↦ none
    | some rest ↦ some (chunk ++ rest)
  ]
]

-- `sha256` is the hexadecimal digest.
module _ (cache : TtlCache Session) (sha256 : List ℕ → String) where
  pub record Uploads : Type 0 where
    pub sessions : cache.Cache
    pub dirs : List (String × Chunks)
    pub targets : List (String × List ℕ)

  unfoldable pub make_dir : String → List (String × Chunks) → List (String × Chunks)
  unfolding lookup insert
  make_dir upload_id dirs = elim (lookup upload_id dirs) [
    | none ↦ insert upload_id [] dirs
    | some files ↦ dirs
  ]

  unfoldable pub initiate : ℕ → String → Session → Uploads → Uploads
  unfolding make_dir
  initiate now upload_id session s = record s {
    sessions = cache.put now (session_key upload_id) session s.sessions;
    dirs = make_dir upload_id s.dirs;
  }

  abbrev pub get_session : ℕ → String → Uploads → Option Session
  get_session now upload_id s = cache.get now (session_key upload_id) s.sessions

  abbrev pub noted : ℕ → List ℕ → Session → Session
  noted index content session = record session {
    uploaded_chunks = session.uploaded_chunks ++ index ∷ [];
    uploaded_bytes = session.uploaded_bytes + length content;
  }

  -- With the session and the directory that are found.
  unfoldable pub write_chunk :
      ℕ
      → String
      → ℕ
      → String
      → List ℕ
      → Option Session
      → Option Chunks
      → Uploads
      → Uploads × Result (Unit {0})
  unfolding insert remove
  write_chunk now upload_id index chunk_hash content none files s =
      (s, raise (nexus fs_upload_expired 404))
  write_chunk now upload_id index chunk_hash content (some session) none s = (s, raise os_error)
  write_chunk now upload_id index chunk_hash content (some session) (some files) s =
      if sha256 content == chunk_hash
      then (
        record s {
          sessions = cache.put now (session_key upload_id) (noted index content session) s.sessions;
          dirs = insert upload_id (insert index content files) s.dirs;
        },
        ok tt,
      )
      else (
        record s { dirs = insert upload_id (remove index files) s.dirs },
        raise (nexus fs_checksum_mismatch 400),
      )

  unfoldable pub write_chunk_stream :
      ℕ → String → ℕ → String → List ℕ → Uploads → Uploads × Result (Unit {0})
  unfolding lookup write_chunk
  write_chunk_stream now upload_id index chunk_hash content s =
      write_chunk now upload_id index chunk_hash content (get_session now upload_id s)
        (lookup upload_id s.dirs) s

  abbrev pub files_of : Option Chunks → Chunks
  files_of none = []
  files_of (some files) = files

  -- After the chunks have been put together, or one was missing.
  unfoldable pub conclude :
      ℕ → String → String → Session → Option (List ℕ) → Uploads → Uploads × Result ℕ
  unfolding insert remove
  conclude now upload_id target_path session none s = (
    record s { dirs = remove upload_id s.dirs; targets = remove target_path s.targets },
    raise (nexus fs_upload_invalid 400),
  )
  conclude now upload_id target_path session (some content) s =
      let s' = record s {
        sessions = cache.delete now (session_key upload_id) s.sessions;
        dirs = remove upload_id s.dirs;
        targets = insert target_path content s.targets;
      } in
      if truthy session.checksum_sha256 && not (sha256 content == expected session.checksum_sha256)
      then (
        record s' { targets = remove target_path s'.targets },
        raise (nexus fs_checksum_mismatch 400),
      )
      else (s', ok session.total_size)

  unfoldable pub finalize_session :
      ℕ → String → String → Option Session → Uploads → Uploads × Result ℕ
  unfolding lookup reassemble_chunks conclude
  finalize_session now upload_id target_path none s = (s, raise (nexus fs_upload_expired 404))
  finalize_session now upload_id target_path (some session) s =
      if ltb (length session.uploaded_chunks) session.total_chunks
      then (s, raise (nexus fs_upload_invalid 400))
      else conclude now upload_id target_path session
          (reassemble_chunks (files_of (lookup upload_id s.dirs)) session.total_chunks 0) s

  unfoldable pub finalize : ℕ → String → String → Uploads → Uploads × Result ℕ
  unfolding finalize_session
  finalize now upload_id target_path s =
      finalize_session now upload_id target_path (get_session now upload_id s) s

  unfoldable pub cancel : ℕ → String → Uploads → Uploads
  unfolding remove
  cancel now upload_id s = record s {
    sessions = cache.delete now (session_key upload_id) s.sessions;
    dirs = remove upload_id s.dirs;
  }
