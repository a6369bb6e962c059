-- ===== src/Importer/Handling/Interleaving.antt =====
-- However handlers interleave, a stream is the history of commands one after the other.
use music_downloader.Prelude.{
  ℕ, zero, suc, ◌≤◌, ◌<◌, ◌≡◌, refl, sym, ap, ◌∙◌, subst, Bool, true, false, Option, none, some,
  List, [], ◌∷◌, ◌++◌, String, str_eq, eq_iff, length, length-append, All, ◌==◌, Bool-cases, inl,
  inr, ok, err, arith,
}
use music_downloader.Importer.Import.Events.{ImportEvent}
use music_downloader.Importer.Import.Commands.{ImportCommand}
use music_downloader.Importer.Import.Decide.{Decision}
use music_downloader.Importer.Import.Aggregate.{execute}
use music_downloader.Importer.Import.Runs.{events_of, append_decision, history_from, history}
use music_downloader.Importer.Handling.{
  Store, PendingAppend, pending_of, load_and_decide, insert_events, append, Handling, Action,
  decides, appends, enlist, settle, cons_rest, take_at, settle_taken, act, act_all, at_start,
}

-- The events are the history of some commands.
abbrev pub IsHistory : List ImportEvent → Type 0
IsHistory events = (commands : List ImportCommand) × (events ≡ history commands)

history_from-snoc :
    (events : List ImportEvent) (commands : List ImportCommand) (command : ImportCommand)
    → history_from events (commands ++ command ∷ [])
      ≡ append_decision (history_from events commands) command
unfolding history_from
history_from-snoc events [] command = refl
history_from-snoc events (c ∷ commands) command =
    history_from-snoc (append_decision events c) commands command

IsHistory-append :
    (events : List ImportEvent) (command : ImportCommand)
    → IsHistory events
    → IsHistory (events ++ events_of (execute events command))
unfolding history append_decision
IsHistory-append events command (commands, e) = (
  commands ++ command ∷ [],
  ap (λ xs. xs ++ events_of (execute xs command)) e ∙ sym (history_from-snoc [] commands command),
)

-- An append that waits is not ahead of its stream; as long as the stream has the length that was
-- read, it is the answer to a command on that stream.
abbrev pub IsSound : Store → PendingAppend → Type 0
IsSound store p =
    (p.expected_version ≤ length (store p.import_id))
    × (0 < length p.events)
    × ((p.expected_version ≡ length (store p.import_id))
        → (command : ImportCommand) × (p.events ≡ events_of (execute (store p.import_id) command)))

abbrev pub Holds : Handling → Type 0
Holds h = ((id : String) → IsHistory (h.store id)) × All (IsSound h.store) h.waiting

insert-IsSound :
    (store : Store) (p q : PendingAppend)
    → 0 < length p.events
    → IsSound store q
    → IsSound (insert_events p.import_id p.events store) q
insert-IsSound store p q grows h = elim (Bool-cases (str_eq q.import_id p.import_id)) [
  | inl same ↦ rw same (
    omega (arith, h.0, at_id same, length-append (store p.import_id) p.events),
    h.1,
    λ e.
        absurd
          (omega (arith, h.0, at_id same, length-append (store p.import_id) p.events, e, grows)),
  )
  | inr other ↦ rw other h
]
  where
    at_id :
        str_eq q.import_id p.import_id ≡ true
        → length (store q.import_id) ≡ length (store p.import_id)
    at_id same = ap (λ id. length (store id)) ((eq_iff q.import_id p.import_id).0 same)

insert-All :
    (store : Store) (p : PendingAppend) (waiting : List PendingAppend)
    → 0 < length p.events
    → All (IsSound store) waiting
    → All (IsSound (insert_events p.import_id p.events store)) waiting
insert-All store p [] grows h = tt
insert-All store p (q ∷ waiting) grows h =
    (insert-IsSound store p q grows h.0, insert-All store p waiting grows h.1)

append-IsHistory :
    (store : Store) (p : PendingAppend)
    → IsSound store p
    → p.expected_version ≡ length (store p.import_id)
    → ((id : String) → IsHistory (store id))
    → (id : String) → IsHistory (insert_events p.import_id p.events store id)
append-IsHistory store p sound current h id = elim (Bool-cases (str_eq id p.import_id)) [
  | inl same ↦ rw same (
      subst (λ events. IsHistory (store p.import_id ++ events)) (sym (sound.2 current).1)
        (IsHistory-append (store p.import_id) (sound.2 current).0 (h p.import_id)))
  | inr other ↦ rw other (h id)
]

settle-Holds :
    (writable : Bool) (store : Store) (p : PendingAppend) (rest : List PendingAppend)
    → ((id : String) → IsHistory (store id))
    → IsSound store p
    → All (IsSound store) rest
    → Holds (settle store rest (append writable p store))
unfolding append
settle-Holds false store p rest h sound others = (h, others)
settle-Holds true store p rest h sound others =
    elim (Bool-cases (length (store p.import_id) == p.expected_version)) [
      | inl same ↦
          rw same (
            append-IsHistory store p sound (ground arith) h,
            insert-All store p rest sound.1 others,
          )
      | inr stale ↦ rw stale (h, others)
    ]

-- What is taken of a list, and what is left, satisfies what the list satisfies.
abbrev TakenAll : Store → Option (PendingAppend × List PendingAppend) → Type 0
TakenAll store none = Unit
TakenAll store (some (p, rest)) = IsSound store p × All (IsSound store) rest

cons_rest-TakenAll :
    (store : Store) (q : PendingAppend) (taken : Option (PendingAppend × List PendingAppend))
    → IsSound store q
    → TakenAll store taken
    → TakenAll store (cons_rest q taken)
cons_rest-TakenAll store q none sound h = tt
cons_rest-TakenAll store q (some (p, rest)) sound h = (h.0, (sound, h.1))

take_at-TakenAll :
    (store : Store) (n : ℕ) (waiting : List PendingAppend)
    → All (IsSound store) waiting
    → TakenAll store (take_at n waiting)
unfolding take_at
take_at-TakenAll store n [] h = tt
take_at-TakenAll store zero (p ∷ waiting) h = h
take_at-TakenAll store (suc n) (p ∷ waiting) h =
    cons_rest-TakenAll store p (take_at n waiting) h.0 (take_at-TakenAll store n waiting h.1)

settle_taken-Holds :
    (writable : Bool) (h : Handling) (taken : Option (PendingAppend × List PendingAppend))
    → Holds h
    → TakenAll h.store taken
    → Holds (settle_taken writable h.store h.waiting taken)
unfolding settle_taken
settle_taken-Holds writable h none holds t = holds
settle_taken-Holds writable h (some (p, rest)) holds t =
    settle-Holds writable h.store p rest holds.0 t.0 t.1

enlist-Holds :
    (h : Handling) (id : String) (command : ImportCommand) (decision : Decision)
    → execute (h.store id) command ≡ decision
    → Holds h
    → Holds (enlist h.store h.waiting (pending_of id (length (h.store id)) decision))
enlist-Holds h id command (err e) made holds = holds
enlist-Holds h id command (ok []) made holds = holds
enlist-Holds h id command (ok (event ∷ events)) made holds =
    (holds.0, ((omega arith, omega arith, λ e. (command, sym (ap events_of made))), holds.1))

act-Holds : (a : Action) (h : Handling) → Holds h → Holds (act a h)
unfolding act load_and_decide
act-Holds (decides false id command) h holds = holds
act-Holds (decides true id command) h holds =
    enlist-Holds h id command (execute (h.store id) command) refl holds
act-Holds (appends writable place) h holds =
    settle_taken-Holds writable h (take_at place h.waiting) holds
      (take_at-TakenAll h.store place h.waiting holds.1)

act_all-Holds : (actions : List Action) (h : Handling) → Holds h → Holds (act_all actions h)
unfolding act_all
act_all-Holds [] h holds = holds
act_all-Holds (a ∷ actions) h holds = act_all-Holds actions (act a h) (act-Holds a h holds)

-- However the reads and the appends of concurrent handlers interleave, and whichever of them fail,
-- each stream is the history of some commands, each decided on the events of those before it.
pub streams_are_histories :
    (actions : List Action) (id : String) → IsHistory ((act_all actions at_start).store id)
unfolding history history_from
streams_are_histories actions id = (act_all-Holds actions at_start ((λ k. ([], refl)), tt)).0 id
