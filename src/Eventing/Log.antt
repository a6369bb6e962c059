-- ===== src/Eventing/Log.antt =====
-- The log of an event store, the same in both modules:
-- packages/downloader/src/adapters/sqlite/event-store.ts and
-- packages/importer/src/adapters/sqlite/event-store.ts. Rows stand in the order of their sequence
-- numbers, which count from 1, each with its version in its stream.
pub mod Rows
pub mod Versions
use music_downloader.Prelude.{ℕ, ◌+◌, List, [], ◌∷◌, ◌++◌, String, str_eq, ltb, length, filter}

pub record Stored (Event : Type 0) : Type 0 where
  pub global_seq : ℕ
  pub stream_id : String
  pub version : ℕ
  pub event : Event

module _ {Event : Type 0} where
  -- The rows of a stream, by version.
  abbrev pub read_stream : String → List (Stored Event) → List (Stored Event)
  read_stream id = filter λ s. str_eq s.stream_id id

  -- The rows behind a sequence number.
  abbrev pub read_all : ℕ → List (Stored Event) → List (Stored Event)
  read_all from = filter λ s. ltb from s.global_seq

  abbrev pub row : String → Event → List (Stored Event) → Stored Event
  row id event log = record {
    global_seq = length log + 1;
    stream_id = id;
    version = length (read_stream id log);
    event = event;
  }

  -- The rows that `append` inserts, one for each event.
  unfoldable pub insert_rows : String → List Event → List (Stored Event) → List (Stored Event)
  insert_rows id [] log = log
  insert_rows id (event ∷ events) log = insert_rows id events (log ++ row id event log ∷ [])

  -- What others append while a call waits.
  unfoldable pub arrive : List (String × Event) → List (Stored Event) → List (Stored Event)
  unfolding insert_rows
  arrive [] log = log
  arrive ((id, event) ∷ more) log = arrive more (insert_rows id (event ∷ []) log)
