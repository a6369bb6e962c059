-- ===== src/Downloader/Download/React.antt =====
-- packages/downloader/src/domain/download/react.ts
use music_downloader.Prelude.{ℕ, List, [], ◌∷◌, get_or}
use music_downloader.Downloader.Candidate.{Candidate}
use music_downloader.Downloader.Policy.{TryPolicy, MatchPolicy}
use music_downloader.Downloader.Target.{Target, album}
use music_downloader.Downloader.Download.Events.{
  DownloadRequest, musicbrainz, DownloadedFile, DownloadEvent, download_requested, target_resolved,
  edition_selected, search_requested, candidate_selected, try_started, try_completed,
  candidate_rejected, validation_passed, imported, import_conflicted, download_cancelled,
}
use music_downloader.Downloader.Download.State.{
  settled, in_flight, DownloadState, searching, downloading, validating, importing, cancelled,
  conflicted,
}

pub data Effect : Type 0 where
  resolve_metadata : DownloadRequest → Effect
  search_for : Target → (round : ℕ) → Effect
  download : Candidate → TryPolicy → Effect
  validate : List DownloadedFile → Target → MatchPolicy → Effect
  import_files : List DownloadedFile → Target → Effect
  cleanup : List DownloadedFile → Effect
  abort_download : Candidate → Effect

-- A pair of event and state that no clause names has no effect.
unfoldable pub react : DownloadEvent → DownloadState → List Effect
react (download_requested request policies) s = resolve_metadata request ∷ []
react (target_resolved target) s = search_for target 1 ∷ []
react (edition_selected release_mbid) s = resolve_metadata (musicbrainz release_mbid album) ∷ []
react (search_requested round) (searching t) = search_for t.target round ∷ []
react (candidate_selected candidate) (downloading t w c b) =
    download candidate t.policies.download ∷ []
react (try_started candidate) (downloading t w c b) = download c t.policies.download ∷ []
react (try_completed candidate files) (validating t w c fs) =
    validate files t.target t.policies.matching ∷ []
react (validation_passed candidate verdict) (importing t w c fs) = import_files fs t.target ∷ []
react (candidate_rejected candidate files) s = cleanup (get_or files []) ∷ []
react (imported candidate location files) s = cleanup (get_or files []) ∷ []
react (import_conflicted location files) (conflicted p l c) = cleanup (get_or files []) ∷ []
react (download_cancelled files) (cancelled p (settled c)) = cleanup (get_or files []) ∷ []
react (download_cancelled files) (cancelled p (in_flight c)) = abort_download c ∷ []
react _ s = []
