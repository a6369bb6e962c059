-- ===== src/Importer/Handling.antt =====
-- packages/importer/src/application/import/command-handler.ts and the append of
-- packages/importer/src/adapters/sqlite/event-store.ts
-- Handlers run concurrently: each reads a stream and decides, and appends later, if the stream is
-- still as long as it was. `readable` and `writable` say whether the database answers.
pub mod Interleaving
use music_downloader.Prelude.{
  ℕ, zero, suc, Bool, true, false, Option, none, some, List, [], ◌∷◌, ◌++◌, String, str_eq, length,
  ◌==◌, if◌then◌else◌, Result, ok, err,
}
use music_downloader.Importer.Import.Events.{ImportEvent}
use music_downloader.Importer.Import.Commands.{ImportCommand}
use music_downloader.Importer.Import.Decide.{DomainError, Decision}
use music_downloader.Importer.Import.Aggregate.{execute}

pub data CommandError : Type 0 where
  domain_error : DomainError → CommandError
  infra_error : CommandError
  concurrency_conflict : (stream_id : String) (expected_version : ℕ) → CommandError

-- The events of each stream, by version.
abbrev pub Store : Type 0
Store = String → List ImportEvent

pub record PendingAppend : Type 0 where
  pub import_id : String
  pub expected_version : ℕ
  pub events : List ImportEvent

-- What `applyCommand` does with a decision: the call of `append`, if it makes one.
abbrev pub pending_of : String → ℕ → Decision → Result CommandError (Option PendingAppend)
pending_of id version (err e) = err (domain_error e)
pending_of id version (ok []) = ok none
pending_of id version (ok (event ∷ events)) =
    ok (some (record { import_id = id; expected_version = version; events = event ∷ events }))

-- `applyCommand`, up to the call of `append`.
unfoldable pub load_and_decide :
    (readable : Bool) → Store → String → ImportCommand → Result CommandError (Option PendingAppend)
unfolding execute
load_and_decide false store id command = err infra_error
load_and_decide true store id command =
    pending_of id (length (store id)) (execute (store id) command)

abbrev pub insert_events : String → List ImportEvent → Store → Store
insert_events id events store = λ k. if str_eq k id then store id ++ events else store k

-- `append`: a conflict, unless the stream has the expected version.
unfoldable pub append : (writable : Bool) → PendingAppend → Store → Result CommandError Store
append false p store = err infra_error
append true p store =
    if length (store p.import_id) == p.expected_version
    then ok (insert_events p.import_id p.events store)
    else err (concurrency_conflict p.import_id p.expected_version)

-- The store, and the appends that handlers are about to make.
pub record Handling : Type 0 where
  pub store : Store
  pub waiting : List PendingAppend

-- A handler reads and decides, or the one at a place of the list appends.
pub data Action : Type 0 where
  decides : (readable : Bool) → String → ImportCommand → Action
  appends : (writable : Bool) (place : ℕ) → Action

abbrev pub enlist :
    Store → List PendingAppend → Result CommandError (Option PendingAppend) → Handling
enlist store waiting (ok (some p)) = record { store = store; waiting = p ∷ waiting }
enlist store waiting _ = record { store = store; waiting = waiting }

abbrev pub settle : Store → List PendingAppend → Result CommandError Store → Handling
settle store waiting (ok appended) = record { store = appended; waiting = waiting }
settle store waiting (err e) = record { store = store; waiting = waiting }

-- The entry at a place, and the other ones.
abbrev pub cons_rest :
    PendingAppend
    → Option (PendingAppend × List PendingAppend)
    → Option (PendingAppend × List PendingAppend)
cons_rest q none = none
cons_rest q (some (p, rest)) = some (p, q ∷ rest)

unfoldable pub take_at : ℕ → List PendingAppend → Option (PendingAppend × List PendingAppend)
take_at n [] = none
take_at zero (p ∷ ps) = some (p, ps)
take_at (suc n) (p ∷ ps) = cons_rest p (take_at n ps)

unfoldable pub settle_taken :
    Bool → Store → List PendingAppend → Option (PendingAppend × List PendingAppend) → Handling
unfolding append
settle_taken writable store waiting none = record { store = store; waiting = waiting }
settle_taken writable store waiting (some (p, rest)) = settle store rest (append writable p store)

unfoldable pub act : Action → Handling → Handling
unfolding load_and_decide take_at settle_taken
act (decides readable id command) h =
    enlist h.store h.waiting (load_and_decide readable h.store id command)
act (appends writable place) h = settle_taken writable h.store h.waiting (take_at place h.waiting)

unfoldable pub act_all : List Action → Handling → Handling
unfolding act
act_all [] h = h
act_all (a ∷ actions) h = act_all actions (act a h)

abbrev pub at_start : Handling
at_start = record { store = λ id. []; waiting = [] }
