-- ===== src/Downloader/Log.antt =====
-- The log of a download store.
use music_downloader.Eventing.Log.{Stored}
use music_downloader.Downloader.Download.Events.{DownloadEvent}
pub use music_downloader.Eventing.Log.{read_stream, read_all, row}
unfoldable pub use music_downloader.Eventing.Log.{insert_rows, arrive}

abbrev pub StoredEvent : Type 0
StoredEvent = Stored DownloadEvent
