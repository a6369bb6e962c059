-- ===== src/Downloader/Samples.antt =====
-- Data for the scenarios: one album, two candidates, and runs that submit, search and deliver.
use music_downloader.Downloader.Download.Moves.{IsValidRetry, IsAdmissible}
use music_downloader.Prelude.{arith, All, none, some, List, [], ◌∷◌}
use music_downloader.Downloader.Candidate.{
  Candidate, CandidateIdentity, CandidateFile, SourceReliability,
}
use music_downloader.Downloader.Target.{Target, album}
use music_downloader.Downloader.Quality.{lossless, lossy_high, unknown}
use music_downloader.Downloader.Policy.{DownloadPolicies}
use music_downloader.Downloader.Verdict.{ValidationVerdict}
use music_downloader.Downloader.Download.Events.{
  DownloadRequest, musicbrainz, stalled, DownloadedFile,
}
use music_downloader.Downloader.Download.Commands.{
  DownloadCommand, submit_download, record_target, record_search_results, record_try_started,
  record_try_completed, record_try_failed, record_validation_passed, record_imported,
}

abbrev pub some_policies : DownloadPolicies
some_policies = record {
  quality = record { order = lossless ∷ lossy_high ∷ unknown ∷ []; floor = unknown };
  matching = record { threshold = 0 };
  retry = record { max_search_rounds = 2; max_total_attempts = 3; time_budget_ms = none };
  download = record { stall_timeout_ms = 60_000; max_queue_wait_ms = 600_000 };
}

abbrev pub some_request : DownloadRequest
some_request = musicbrainz "b1a9c0e9" album

abbrev pub some_target : Target
some_target = record {
  type = album;
  artist = "boards of canada";
  title = "geogaddi";
  tracks = record { position = 1; title = "ready lets go"; duration_ms = 59_000 } ∷ [];
  year = some 2002;
  mbid = none;
}

abbrev some_file : CandidateFile
some_file = record {
  name = "01 ready lets go.flac";
  size_bytes = 5_000_000;
  codec = some "flac";
  bitrate = none;
  sample_rate = some 44_100;
  bit_depth = some 16;
  duration_ms = some 59_000;
}

abbrev some_source : SourceReliability
some_source = record { speed_bytes_per_sec = 100_000; free_slots = 1; queue_length = 0 }

abbrev pub first_identity : CandidateIdentity
first_identity = record {
  username = "warp";
  path = "music/boards of canada/geogaddi";
  size_bytes = 5_000_000;
}

abbrev pub second_identity : CandidateIdentity
second_identity = record { username = "skye"; path = "geogaddi"; size_bytes = 5_000_000 }

abbrev pub first_candidate : Candidate
first_candidate = record { identity = first_identity; files = some_file ∷ []; source = some_source }

abbrev pub second_candidate : Candidate
second_candidate = record {
  identity = second_identity;
  files = some_file ∷ [];
  source = some_source;
}

abbrev pub some_files : List DownloadedFile
some_files = record { path = "staging/01.flac"; name = "01.flac" } ∷ []

abbrev pub passing_verdict : ValidationVerdict
passing_verdict = record { confidence = 1; reasons = [] }

-- Up to the search.
abbrev pub submitted_run : List DownloadCommand
submitted_run = submit_download some_request some_policies ∷ record_target some_target ∷ []

-- Up to the second search: the first one finds nothing.
abbrev pub searching_run : List DownloadCommand
searching_run =
    submit_download some_request some_policies
    ∷ record_target some_target
    ∷ record_search_results []
    ∷ []

-- The first candidate is selected, starts, stalls; the second one is delivered.
abbrev pub delivering_run : List DownloadCommand
delivering_run =
    submit_download some_request some_policies
    ∷ record_target some_target
    ∷ record_search_results (first_candidate ∷ second_candidate ∷ [])
    ∷ record_try_started first_identity
    ∷ record_try_failed stalled none first_identity
    ∷ record_try_completed some_files second_identity
    ∷ record_validation_passed passing_verdict
    ∷ record_imported "library/geogaddi"
    ∷ []

pub some_policies-IsValidRetry : IsValidRetry some_policies
some_policies-IsValidRetry = record { some_round = omega arith; some_attempt = omega arith }

pub submitted_run-IsAdmissible : All IsAdmissible submitted_run
submitted_run-IsAdmissible = (some_policies-IsValidRetry, (tt, tt))

pub searching_run-IsAdmissible : All IsAdmissible searching_run
searching_run-IsAdmissible = (some_policies-IsValidRetry, (tt, (tt, tt)))

pub delivering_run-IsAdmissible : All IsAdmissible delivering_run
delivering_run-IsAdmissible =
    (some_policies-IsValidRetry, (tt, (tt, (tt, (tt, (tt, (tt, (tt, tt))))))))
