-- ===== src/Storage/Upload/Whole.antt =====
-- An upload from its start to its end, in src/api/storage/chunked_upload.py.
use nexus_gate.Prelude.{
  ℕ, ◌+◌, ◌≤◌, String, false, Option, none, some, List, [], ◌∷◌, ◌≡◌, ◌≢◌, ◌⊎◌, inl, inr, ◌==◌,
  refl, arith, ltb, length, length-append, lookup, insert, remove, string_eq, nat_eq,
  lookup-insert_self, eq_refl, sym, ap, not, ◌&&◌, not-lt→ltb, ◌∙◌, subst,
}
use nexus_gate.Text.{truthy}
use nexus_gate.Errors.{Result, ok}
use nexus_gate.RateLimit.Memory.{TtlCache}
use nexus_gate.Storage.Bytes.{concat}
use nexus_gate.Storage.Upload.{
  Session, Chunks, Uploads, session_key, noted, expected, reassemble_chunks, get_session, make_dir,
  initiate, write_chunk, write_chunk_stream, files_of, conclude, finalize_session, finalize,
}

-- Chunks that are sent: when, in which place, and what is in them.
abbrev pub Sent : Type 0
Sent = List (ℕ × ℕ × List ℕ)

-- What the directory holds after some chunks have been written to it, the first one first.
unfoldable pub written : Sent → Chunks → Chunks
unfolding insert
written [] files = files
written ((now, i, content) ∷ chunks) files = written chunks (insert i content files)

-- An entry that is the same or gone, and is there, is the same.
still : {a b : Option Session} → (a ≡ b) ⊎ (a ≡ none) → a ≢ none → a ≡ b
still (inl same) there = same
still (inr gone) there = absurd (there gone)

-- From an index on, the directory holds these contents.
abbrev pub Holds : Chunks → ℕ → List (List ℕ) → Type 0
Holds files i [] = Unit
Holds files i (c ∷ cs) = (lookup i files ≡ some c) × Holds files (i + 1) cs

reassemble-Holds :
    (files : Chunks) (i : ℕ) (cs : List (List ℕ))
    → Holds files i cs
    → reassemble_chunks files (length cs) i ≡ some (concat cs)
unfolding reassemble_chunks
reassemble-Holds files i [] h = refl
reassemble-Holds files i (c ∷ cs) (h, hs) = ground (arith, h, reassemble-Holds files (i + 1) cs hs)

no_mismatch :
    (o : Option String) (hash : String)
    → o ≡ some hash
    → (truthy o && not (hash == expected o)) ≡ false
no_mismatch none hash h = cc
no_mismatch (some x) hash h = ground (arith, h, eq_refl hash)

module _ (cache : TtlCache Session) (sha256 : List ℕ → String) (upload_id : String) where
  -- Chunks sent one after the other, each with its digest.
  unfoldable pub send : Sent → Uploads cache sha256 → Uploads cache sha256
  send [] s = s
  send ((now, i, content) ∷ chunks) s =
      send chunks (write_chunk_stream cache sha256 now upload_id i (sha256 content) content s).0

  -- The chunks are sent in the order of their times, from `last` to `end`, and each of them and the end
  -- find the session in the cache.
  unfoldable pub Lasts : ℕ → ℕ → Sent → Uploads cache sha256 → Type 0
  Lasts last end [] s = (last ≤ end) × (get_session cache sha256 end upload_id s ≢ none)
  Lasts last end ((now, i, content) ∷ chunks) s =
      (last ≤ now)
      × (get_session cache sha256 now upload_id s ≢ none)
      × Lasts now end chunks
          (write_chunk_stream cache sha256 now upload_id i (sha256 content) content s).0

  -- The session is there with so many chunks noted, and the directory holds these files.
  record Open (now : ℕ) (session : Session) (files : Chunks) (s : Uploads cache sha256)
      : Type 0 where
    pub found : get_session cache sha256 now upload_id s ≡ some session
    pub dir : lookup upload_id s.dirs ≡ some files

  Open-later :
      (now later : ℕ) (session : Session) (files : Chunks) (s : Uploads cache sha256)
      → now ≤ later
      → get_session cache sha256 later upload_id s ≢ none
      → Open now session files s
      → Open later session files s
  Open-later now later session files s le there o = record {
    found = still (cache.get-later now later (session_key upload_id) s.sessions le) there ∙ o.found;
    dir = o.dir;
  }

  abbrev after_write :
      ℕ → ℕ → List ℕ → Session → Chunks → Uploads cache sha256 → Uploads cache sha256
  after_write now i content session files s = record s {
    sessions =
        cache.put now (session_key upload_id) (noted cache sha256 i content session) s.sessions;
    dirs = insert upload_id (insert i content files) s.dirs;
  }

  write-after :
      (now i : ℕ) (content : List ℕ) (session : Session) (files : Chunks) (s : Uploads cache sha256)
      → write_chunk cache sha256 now upload_id i
          (sha256 content)
          content
          (some session)
          (some files)
          s
        ≡ (after_write now i content session files s, ok tt)
  unfolding write_chunk
  write-after now i content session files s = rw (eq_refl (sha256 content)) refl

  step_eq :
      (now i : ℕ) (content : List ℕ) (session : Session) (files : Chunks) (s : Uploads cache sha256)
      → Open now session files s
      → write_chunk_stream cache sha256 now upload_id i (sha256 content) content s
        ≡ (after_write now i content session files s, ok tt)
  unfolding write_chunk_stream
  step_eq now i content session files s o =
      let write = write_chunk cache sha256 now upload_id i (sha256 content) content in
      ap (λ found. write found (lookup upload_id s.dirs) s) o.found
      ∙ ap (λ dir. write (some session) dir s) o.dir
      ∙ write-after now i content session files s

  step-Open :
      (now i : ℕ) (content : List ℕ) (session : Session) (files : Chunks) (s : Uploads cache sha256)
      → Open now
          (noted cache sha256 i content session)
          (insert i content files)
          (after_write now i content session files s)
  step-Open now i content session files s = record {
    found =
        cache.get-put_self now (session_key upload_id) (noted cache sha256 i content session)
          s.sessions;
    dir = lookup-insert_self upload_id (insert i content files) s.dirs;
  }

  -- What the chunks leave of the session.
  unfoldable pub noted_all : Sent → Session → Session
  noted_all [] session = session
  noted_all ((now, i, content) ∷ chunks) session =
      noted_all chunks (noted cache sha256 i content session)

  send-Open :
      (chunks : Sent) (last end : ℕ) (session : Session) (files : Chunks) (s : Uploads cache sha256)
      → Lasts last end chunks s
      → Open last session files s
      → Open end (noted_all chunks session) (written chunks files) (send chunks s)
  unfolding send written noted_all Lasts
  send-Open [] last end session files s (le, there) o =
      Open-later last end session files s le there o
  send-Open ((now, i, content) ∷ chunks) last end session files s (le, there, lasts) before =
      let o = Open-later last now session files s le there before in
      let e = step_eq now i content session files s o in
      let next = after_write now i content session files s in
      subst
        (λ (t : Uploads cache sha256 × Result (Unit {0})).
          Open end (noted_all chunks (noted cache sha256 i content session))
            (written chunks (insert i content files)) (send chunks t.0))
        (sym e)
        (send-Open chunks now end (noted cache sha256 i content session) (insert i content files)
          next (rw e at lasts) (step-Open now i content session files s))

  noted_all-keeps :
      (chunks : Sent) (session : Session)
      → ((noted_all chunks session).total_chunks ≡ session.total_chunks)
        × ((noted_all chunks session).total_size ≡ session.total_size)
        × ((noted_all chunks session).checksum_sha256 ≡ session.checksum_sha256)
        × (length (noted_all chunks session).uploaded_chunks
            ≡ length session.uploaded_chunks + length chunks)
  unfolding noted_all
  noted_all-keeps [] session = (refl, refl, refl, omega arith)
  noted_all-keeps ((now, i, content) ∷ chunks) session =
      let (n, z, c, l) = noted_all-keeps chunks (noted cache sha256 i content session) in
      (n, z, c, omega (arith, l, length-append session.uploaded_chunks (i ∷ [])))

  initiate-Open :
      (now : ℕ) (session : Session) (s : Uploads cache sha256)
      → lookup upload_id s.dirs ≡ none
      → Open now session [] (initiate cache sha256 now upload_id session s)
  unfolding initiate make_dir
  initiate-Open now session s fresh = record {
    found = cache.get-put_self now (session_key upload_id) session s.sessions;
    dir = ground (arith, fresh, lookup-insert_self upload_id [] s.dirs);
  }

  concluded : ℕ → String → Session → List ℕ → Uploads cache sha256 → Uploads cache sha256
  concluded now target_path session content s = record s {
    sessions = cache.delete now (session_key upload_id) s.sessions;
    dirs = remove upload_id s.dirs;
    targets = insert target_path content s.targets;
  }

  conclude_right :
      (now : ℕ) (target_path : String) (session : Session) (content : List ℕ)
      (s : Uploads cache sha256)
      → session.checksum_sha256 ≡ some (sha256 content)
      → conclude cache sha256 now upload_id target_path session (some content) s
        ≡ (concluded now target_path session content s, ok session.total_size)
  unfolding conclude concluded
  conclude_right now target_path session content s sum =
      let right = no_mismatch session.checksum_sha256 (sha256 content) sum in rw right refl

  finalize_eq :
      (now : ℕ) (target_path : String) (session : Session) (files : Chunks) (cs : List (List ℕ))
      (s : Uploads cache sha256)
      → Open now session files s
      → Holds files 0 cs
      → session.total_chunks ≡ length cs
      → length cs ≤ length session.uploaded_chunks
      → session.checksum_sha256 ≡ some (sha256 (concat cs))
      → finalize cache sha256 now upload_id target_path s
        ≡ (concluded now target_path session (concat cs) s, ok session.total_size)
  unfolding finalize finalize_session
  finalize_eq now target_path session files cs s o holds total enough sum =
      let complete : ltb (length session.uploaded_chunks) session.total_chunks ≡ false =
        not-lt→ltb (length session.uploaded_chunks) session.total_chunks (omega (arith, total)) in
      let whole : reassemble_chunks (files_of cache sha256 (lookup upload_id s.dirs))
            session.total_chunks 0
          ≡ some (concat cs) =
        ap (λ d. reassemble_chunks (files_of cache sha256 d) session.total_chunks 0) o.dir
        ∙ ap (λ n. reassemble_chunks files n 0) total
        ∙ reassemble-Holds files 0 cs holds in
      ap (λ found. finalize_session cache sha256 now upload_id target_path found s) o.found
      ∙ rw complete refl
      ∙ ap (λ content. conclude cache sha256 now upload_id target_path session content s) whole
      ∙ conclude_right now target_path session (concat cs) s sum

  -- A fresh upload whose chunks are sent in any order and any number of times, each with its digest
  -- and at its time, and which is then finalized: if the session is still in the cache at each of these
  -- times, and the last writes leave chunk `i` of the file in place `i`, the target holds the chunks one
  -- after the other, and the size announced is given back, if the announced digest is that of the whole,
  -- the announced number of chunks is that of the file, no fewer are sent, and no other upload is named
  -- so.
  pub upload_whole :
      (start end : ℕ) (session : Session) (chunks : Sent) (cs : List (List ℕ))
      (target_path : String) (s : Uploads cache sha256)
      → lookup upload_id s.dirs ≡ none
      → Lasts start end chunks (initiate cache sha256 start upload_id session s)
      → Holds (written chunks []) 0 cs
      → session.total_chunks ≡ length cs
      → length cs ≤ length chunks
      → session.checksum_sha256 ≡ some (sha256 (concat cs))
      → let (s', result) =
          finalize cache sha256 end upload_id target_path
            (send chunks (initiate cache sha256 start upload_id session s)) in
        (result ≡ ok session.total_size) × (lookup target_path s'.targets ≡ some (concat cs))
  unfolding concluded
  upload_whole start end session chunks cs target_path s fresh lasts holds total enough sum =
      let (n, z, c, l) = noted_all-keeps chunks session in
      let begun = initiate cache sha256 start upload_id session s in
      let sent = send chunks begun in
      let o =
        send-Open chunks start end session [] begun lasts (initiate-Open start session s fresh) in
      let e =
        finalize_eq end target_path (noted_all chunks session) (written chunks []) cs sent o holds
          (n ∙ total) (omega (arith, l)) (c ∙ sum) in
      (
        ap (λ t. t.1) e ∙ ap (λ m. ok m) z,
        ap (λ t. lookup target_path t.0.targets) e
            ∙ lookup-insert_self target_path (concat cs) sent.targets,
      )
