-- ===== src/Tests/StorageTests.antt =====
-- Ranges and uploads at concrete inputs.
use nexus_gate.Prelude.{
  ◌≡◌, refl, ℕ, ◌+◌, true, ◌≤◌, ◌<◌, String, none, some, List, [], ◌∷◌, arith, length, lookup,
  nat_eq, string_eq, insert, remove,
}
use nexus_gate.Text.{cut_prefix, split_once, has_char, strip, lstrip, rstrip, is_space}
use nexus_gate.Errors.{ok}
use nexus_gate.Storage.Bytes.{concat}
use nexus_gate.Storage.Range.{
  parse_range_header, range_after, evaluate_range_bounds, int, read_digits,
  parse_range_header-in_file,
}
use nexus_gate.Storage.Streaming.{File, body, serve_file, partial, partial-slice}
use nexus_gate.Storage.Upload.{
  Session, Uploads, initiate, finalize, make_dir, write_chunk, write_chunk_stream,
}
use nexus_gate.Storage.Upload.Whole.{send, written, Lasts, upload_whole}
use nexus_gate.Idempotency.{Answer, AnswerCodec, Cached, HttpRequest, process, process-runs_again}
use nexus_gate.Tests.RateTests.{dict_ttl, expiring, alive}

program : Unit {0}
unfolding parse_range_header range_after evaluate_range_bounds int read_digits cut_prefix split_once
    has_char strip lstrip rstrip is_space serve_file written lookup insert remove alive Lasts
    initiate make_dir write_chunk write_chunk_stream
program = tt

parse_range_header-in_file_example : (2 ≤ 4) × (4 < 5)
unfolding program
parse_range_header-in_file_example = parse_range_header-in_file "bytes=2-" 5 2 4 refl

abbrev hello : File
hello = record { etag = "e"; bytes = 104 ∷ 101 ∷ 108 ∷ 108 ∷ 111 ∷ [] }

partial-slice_example :
    (3 ≤ 4)
    × (4 < 5)
    × (5 ≡ length hello.bytes)
    × (concat (body hello (partial 3 4 5 2)) ≡ 108 ∷ 111 ∷ [])
    × (length (concat (body hello (partial 3 4 5 2))) ≡ 2)
unfolding program
partial-slice_example = partial-slice hello none "bytes=-2" 3 4 5 2 refl

abbrev digest : List ℕ → String
digest xs = "d"

abbrev session : Session
session = record {
  total_chunks = 2;
  total_size = 3;
  uploaded_chunks = [];
  uploaded_bytes = 0;
  checksum_sha256 = some "d";
}

abbrev nothing : Uploads expiring digest
nothing = record { sessions = []; dirs = []; targets = [] }

abbrev sent : Uploads expiring digest
sent =
    send expiring digest "u1" ((10, 1, 3 ∷ []) ∷ (200, 0, 1 ∷ 2 ∷ []) ∷ [])
      (initiate expiring digest 0 "u1" session nothing)

upload_whole_example :
    ((finalize expiring digest 400 "u1" "/data/f" sent).1 ≡ ok 3)
    × (lookup "/data/f" (finalize expiring digest 400 "u1" "/data/f" sent).0.targets
        ≡ some (1 ∷ 2 ∷ 3 ∷ []))
unfolding program
upload_whole_example =
    upload_whole expiring digest "u1" 0 400 session ((10, 1, 3 ∷ []) ∷ (200, 0, 1 ∷ 2 ∷ []) ∷ [])
      ((1 ∷ 2 ∷ []) ∷ (3 ∷ []) ∷ []) "/data/f" nothing refl
      (omega arith, (λ e. cc), (omega arith, (λ e. cc), (omega arith, (λ e. cc))))
      (refl, (refl, tt)) refl (omega arith) refl

-- An application that counts its runs.
abbrev done_answer : Answer
done_answer = record { status = 201; headers = []; body = "done" }

abbrev count_runs : ℕ → ℕ × Answer
count_runs n = (n + 1, done_answer)

abbrev post : HttpRequest
post = record { is_http = true; method = "POST"; headers = ("x-idempotency-key", "k") ∷ [] }

-- JSON that is the answer itself.
abbrev json : AnswerCodec
json = record { Document = Answer; dumps = λ a. a; loads = λ a. some a; loads-dumps = λ a. refl }

abbrev after_one : List (String × Cached Answer) × ℕ × Answer
after_one = process json dict_ttl count_runs 0 post [] 7

process-runs_again_example : (process json dict_ttl count_runs 5 post after_one.0 after_one.1).1 ≡ 9
unfolding lookup
process-runs_again_example =
    process-runs_again json dict_ttl count_runs 0 5 post "k" [] 7 refl refl refl (omega arith) refl
