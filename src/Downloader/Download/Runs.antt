-- ===== src/Downloader/Download/Runs.antt =====
-- A download under a sequence of commands: each is decided on the folded state, and the events of
-- the decision are folded in. A refused command changes nothing.
use music_downloader.Prelude.{List, [], ◌∷◌, ok, err}
use music_downloader.Downloader.Runtime.{Runtime}
use music_downloader.Downloader.Download.Commands.{DownloadCommand}
use music_downloader.Downloader.Download.State.{DownloadState, empty, fold_from}
use music_downloader.Downloader.Download.Decide.{Decision, decide}

abbrev pub after : DownloadState → Decision → DownloadState
after s (ok events) = fold_from s events
after s (err e) = s

unfoldable pub step : Runtime → DownloadState → DownloadCommand → DownloadState
step js s command = after s (decide js command s)

unfoldable pub run_from : Runtime → DownloadState → List DownloadCommand → DownloadState
run_from js s [] = s
run_from js s (c ∷ cs) = run_from js (step js s c) cs

unfoldable pub run : Runtime → List DownloadCommand → DownloadState
unfolding run_from
run js commands = run_from js empty commands
