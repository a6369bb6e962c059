-- ===== src/Downloader/Reactor/Redriving.antt =====
-- A re-drive that begins at the head of the log keeps the invariant.
use music_downloader.Eventing.Log.Rows.{Numbered-within, log_members}
use music_downloader.Prelude.{
  ◌≤◌, ◌≡◌, refl, ◌∙◌, subst, Option, none, some, List, [], ◌∷◌, String, str_eq, eq_iff, length,
  map, All, Bool-cases, inl, inr, ◌⊎◌, is_empty, arith,
}
use music_downloader.Eventing.Drain.Feed.{In}
use music_downloader.Downloader.Download.State.{is_terminal, fold_events}
use music_downloader.Downloader.Download.Aggregate.{react_to}
use music_downloader.Downloader.Log.{StoredEvent, read_stream}
use music_downloader.Downloader.Machine.{ParkedEffect, Environment, Machine, call, find_park}
use music_downloader.Downloader.Lander.{is_stalled}
use music_downloader.Downloader.Reactor.{DispatchOutcome, dispatch_event}
use music_downloader.Downloader.Reactor.Startup.{
  last_of, streams_from, redriven, redrive_last, redrive_found, redrive_stream, redrive_all,
  redrive,
}
use music_downloader.Downloader.Reactor.Steady.{call-Steady}
use music_downloader.Downloader.Reactor.Invariant.{Handled, Parked, Inv}
use music_downloader.Downloader.Reactor.Dispatching.{
  Goes, Goes-refl, Goes-trans, Steady-Goes, IsNext, Dispatches, dispatch_event-Dispatches,
}
use music_downloader.Downloader.Reactor.Parking.{park_stream-Goes}
use music_downloader.Downloader.Reactor.Passes.{find_park-none}
use music_downloader.Downloader.Reactor.Clearing.{members_stay}

last_of-All :
    (P : StoredEvent → Type 0) (xs : List StoredEvent) (s : StoredEvent)
    → All P xs
    → last_of xs ≡ some s
    → P s
last_of-All P [] s h e = cc
last_of-All P (x ∷ []) s h e = subst P (some_injective e) h.0
  where
    some_injective : some x ≡ some s → x ≡ s
    some_injective e' = cc
last_of-All P (x ∷ y ∷ xs) s h e = last_of-All P (y ∷ xs) s h.1 e

-- Rows of a stream that the cursor passed.
abbrev Passed : Machine → String → List StoredEvent → Type 0
Passed m id = All λ s. In s m.log × (s.stream_id ≡ id) × (s.global_seq ≤ m.cursor)

stream-Passed :
    (m : Machine) (id : String) (xs : List StoredEvent)
    → All (λ s. In s m.log × (s.global_seq ≤ m.cursor)) xs
    → Passed m id (read_stream id xs)
stream-Passed m id [] h = tt
stream-Passed m id (x ∷ xs) h = elim (Bool-cases (str_eq x.stream_id id)) [
  | inl same ↦ rw same ((h.0.0, (eq_iff x.stream_id id).0 same, h.0.1), stream-Passed m id xs h.1)
  | inr other ↦ rw other (stream-Passed m id xs h.1)
]

-- With no park of its stream, an event that the cursor passed comes after handled ones.
unparked-IsNext :
    (m : Machine) (id : String) (s : StoredEvent)
    → Inv m
    → In s m.log
    → s.stream_id ≡ id
    → s.global_seq ≤ m.cursor
    → find_park id m.parks ≡ none
    → IsNext m s
unparked-IsNext m id s h i of_stream le none_found =
    (i, λ e j same lt. settled e (same ∙ of_stream) (h.kept e j (omega (arith, lt, le))))
  where
    settled :
        (e : StoredEvent)
        → e.stream_id ≡ id
        → Handled m.trace e ⊎ Parked m.parks e
        → Handled m.trace e
    settled e same (inl done) = done
    settled e same (inr (p, k, at, before)) =
        absurd (find_park-none id p m.parks none_found k (at ∙ same))

module _ (env : Environment) where
  redriven-Goes :
      (m : Machine) (s : StoredEvent) (d : DispatchOutcome × Machine)
      → Dispatches m s d
      → Goes m (redriven env s d)
  unfolding redriven
  redriven-Goes m s (some effect, n) d =
      Goes-trans d.goes (park_stream-Goes env s effect n d.goes.inv d.next).0
  redriven-Goes m s (none, n) d = d.goes

  module _ (id : String) (events : List StoredEvent) where
    redrive_last-Goes :
        (m : Machine) (last : Option StoredEvent)
        → last_of events ≡ last
        → Inv m
        → Passed m id events
        → find_park id m.parks ≡ none
        → Goes m (redrive_last env events last m)
    unfolding redrive_last
    redrive_last-Goes m none e h passed unparked = Goes-refl h
    redrive_last-Goes m (some s) e h passed unparked =
        elim (Bool-cases (is_empty (react_to (map (λ x. x.event) events) s.event))) [
          | inl idle ↦ rw idle (Goes-refl h)
          | inr pending ↦ rw pending (
              redriven-Goes m s (dispatch_event env s events m) (
                dispatch_event-Dispatches env s events m h
                  (unparked-IsNext m id s h at.0 at.1 at.2 unparked)))
        ]
      where
        at : In s m.log × (s.stream_id ≡ id) × (s.global_seq ≤ m.cursor)
        at =
            last_of-All (λ x. In x m.log × (x.stream_id ≡ id) × (x.global_seq ≤ m.cursor)) events s
              passed e

    redrive_found-Goes :
        (m : Machine) (found : Option ParkedEffect)
        → find_park id m.parks ≡ found
        → Inv m
        → Passed m id events
        → Goes m (redrive_found env events found m)
    unfolding redrive_found
    redrive_found-Goes m (some entry) e h passed = Goes-refl h
    redrive_found-Goes m none e h passed =
        elim (Bool-cases (is_terminal (fold_events (map (λ x. x.event) events)))) [
          | inl over ↦ rw over (Goes-refl h)
          | inr live ↦ rw live (redrive_last-Goes m (last_of events) refl h passed e)
        ]

    redrive_stream-Goes :
        (m : Machine) → Inv m → Passed m id events → Goes m (redrive_stream env id events m)
    unfolding redrive_stream
    redrive_stream-Goes m h passed = elim (Bool-cases (is_stalled id m.stalled)) [
      | inl held ↦ rw held (Goes-refl h)
      | inr free ↦ elim (Bool-cases (env.faults m.tick)) [
        | inl fault ↦ rw (free, fault) calling
        | inr found ↦
            rw (free, found)
              (Goes-trans calling (
                redrive_found-Goes (call env m) (find_park id (call env m).parks) refl calling.inv
                  (members_stay id events calling passed)))
      ]
    ]
      where
        calling : Goes m (call env m)
        calling = Steady-Goes (call-Steady env m) h

  rows_stay :
      {m n : Machine} (xs : List StoredEvent)
      → Goes m n
      → All (λ s. In s m.log × (s.global_seq ≤ m.cursor)) xs
      → All (λ s. In s n.log × (s.global_seq ≤ n.cursor)) xs
  rows_stay [] g h = tt
  rows_stay (x ∷ xs) g h =
      ((g.onward.member x h.0.0, omega (arith, h.0.1, g.cursor)), rows_stay xs g h.1)

  redrive_all-Goes :
      (log : List StoredEvent) (ids : List String) (m : Machine)
      → Inv m
      → All (λ s. In s m.log × (s.global_seq ≤ m.cursor)) log
      → Goes m (redrive_all env log ids m)
  unfolding redrive_all
  redrive_all-Goes log [] m h passed = Goes-refl h
  redrive_all-Goes log (id ∷ ids) m h passed =
      let first = redrive_stream-Goes id (read_stream id log) m h (stream-Passed m id log passed) in
      Goes-trans first (
        redrive_all-Goes log ids (redrive_stream env id (read_stream id log) m) first.inv
          (rows_stay log first passed))

  rows_reached :
      (m : Machine) (xs : List StoredEvent)
      → Inv m
      → length m.log ≤ m.cursor
      → All (λ s. In s m.log) xs
      → All (λ s. In s m.log × (s.global_seq ≤ m.cursor)) xs
  rows_reached m [] h le known = tt
  rows_reached m (x ∷ xs) h le known = (
    (known.0, omega (arith, (Numbered-within 0 m.log x h.numbered known.0).1, le)),
    rows_reached m xs h le known.1,
  )

  pub redrive-Goes :
      (m : Machine) → Inv m → length (call env m).log ≤ m.cursor → Goes m (redrive env m)
  unfolding redrive
  redrive-Goes m h caught_up = elim (Bool-cases (env.faults m.tick)) [
    | inl fault ↦ rw fault calling
    | inr read ↦ rw read (
        Goes-trans calling (
          redrive_all-Goes (call env m).log (streams_from [] (call env m).log) (call env m)
            calling.inv
            (rows_reached (call env m) (call env m).log calling.inv
              (omega (arith, caught_up, calling.cursor)) (log_members (call env m).log))))
  ]
    where
      calling : Goes m (call env m)
      calling = Steady-Goes (call-Steady env m) h
