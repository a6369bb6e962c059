-- ===== src/Downloader/Reactor/Resuming.antt =====
-- Retrying a parked effect, and resuming its stream, keep the invariant.
use music_downloader.Prelude.{
  ◌≤◌, ◌≡◌, refl, Bool, ◌&&◌, none, some, List, [], ◌∷◌, String, ltb, leb, filter, All, Bool-cases,
  inl, inr, ◌⊎◌, arith,
}
use music_downloader.Eventing.Drain.Feed.{In, Ascending, filter-In, filter-Ascending}
use music_downloader.Downloader.Log.{StoredEvent}
use music_downloader.Downloader.Machine.{ParkedEffect, Environment, Machine, call}
use music_downloader.Downloader.Reactor.{DispatchOutcome, dispatch_event, remove_park}
use music_downloader.Downloader.Reactor.Scheduler.{queued, resumed, resume_all, resume_stream}
use music_downloader.Downloader.Reactor.Steady.{call-Steady}
use music_downloader.Downloader.Reactor.Invariant.{Handled, Inv}
use music_downloader.Downloader.Reactor.Dispatching.{
  Goes, Goes-trans, Steady-Goes, Dispatches, dispatch_event-Dispatches,
}
use music_downloader.Downloader.Reactor.Parking.{park_stream-Goes}
use music_downloader.Downloader.Reactor.Clearing.{
  IsResolved, cleared-Goes, IsResolved-Onward, Queue, head-IsNext, tail-Queue,
}

module _ (env : Environment) where
  pub remove_park-Goes :
      (id : String) (m : Machine) → Inv m → IsResolved m id → Goes m (remove_park env id m)
  unfolding remove_park
  remove_park-Goes id m h resolved = elim (Bool-cases (env.faults m.tick)) [
    | inl fault ↦ rw fault calling
    | inr cleared ↦ rw cleared (
        Goes-trans calling
          (cleared-Goes id (call env m) calling.inv (IsResolved-Onward id calling h resolved)))
  ]
    where
      calling : Goes m (call env m)
      calling = Steady-Goes (call-Steady env m) h

  resumed-Goes :
      (m : Machine) (s : StoredEvent) (rest : Machine → Machine) (r : DispatchOutcome × Machine)
      → Dispatches m s r
      → (Handled r.1.trace s → Goes r.1 (rest r.1))
      → Goes m (resumed env s rest r)
  unfolding resumed
  resumed-Goes m s rest (some effect, n) d go =
      Goes-trans d.goes (park_stream-Goes env s effect n d.goes.inv d.next).0
  resumed-Goes m s rest (none, n) d go = Goes-trans d.goes (go (d.settles refl))

  resume_all-Goes :
      (id : String) (stream q : List StoredEvent) (m : Machine)
      → Inv m
      → Queue m id q
      → Goes m (resume_all env id stream q m)
  unfolding resume_all
  resume_all-Goes id stream [] m h queue = remove_park-Goes id m h resolved
    where
      resolved : IsResolved m id
      resolved e i same le = elim (queue.2 e i same le) [ inl done ↦ done | inr k ↦ absurd k ]
  resume_all-Goes id stream (s ∷ q) m h queue =
      let dispatching = dispatch_event-Dispatches env s stream m h (head-IsNext m id s q queue) in
      resumed-Goes m s (resume_all env id stream q) (dispatch_event env s stream m) dispatching
        λ done.
          resume_all-Goes id stream q (dispatch_event env s stream m).1 dispatching.goes.inv
            (tail-Queue id s q dispatching.goes h queue done)

  -- The stream was read before, and the event of its park is handled.
  abbrev pub IsResumable : Machine → ParkedEffect → List StoredEvent → Type 0
  IsResumable m entry stream =
      Ascending (λ s. s.global_seq) stream
      × All (λ s. In s m.log × (s.stream_id ≡ entry.stream_id)) stream
      × ((e : StoredEvent)
          → In e m.log
          → e.stream_id ≡ entry.stream_id
          → e.global_seq ≤ m.cursor
          → In e stream)
      × ((e : StoredEvent)
          → In e m.log
          → e.stream_id ≡ entry.stream_id
          → e.global_seq ≤ entry.global_seq
          → Handled m.trace e)

  pub resume_stream-Goes :
      (entry : ParkedEffect) (stream : List StoredEvent) (m : Machine)
      → Inv m
      → IsResumable m entry stream
      → Goes m (resume_stream env entry stream m)
  unfolding resume_stream
  resume_stream-Goes entry stream m h resumable =
      resume_all-Goes entry.stream_id stream (queued env entry.global_seq m.cursor stream) m h (
        filter-Ascending (λ s. s.global_seq) is_queued stream resumable.0,
        bounded stream resumable.1,
        waits,
      )
    where
      is_queued : StoredEvent → Bool
      is_queued e = ltb entry.global_seq e.global_seq && leb e.global_seq m.cursor

      bounded :
          (xs : List StoredEvent)
          → All (λ s. In s m.log × (s.stream_id ≡ entry.stream_id)) xs
          → All
              (λ s. In s m.log × (s.stream_id ≡ entry.stream_id) × (s.global_seq ≤ m.cursor))
              (filter is_queued xs)
      bounded [] k = tt
      bounded (x ∷ xs) k = elim (Bool-cases (is_queued x)) [
        | inl kept ↦ rw kept ((k.0.0, k.0.1, ground arith), bounded xs k.1)
        | inr dropped ↦ rw dropped (bounded xs k.1)
      ]

      waits :
          (e : StoredEvent)
          → In e m.log
          → e.stream_id ≡ entry.stream_id
          → e.global_seq ≤ m.cursor
          → Handled m.trace e ⊎ In e (filter is_queued stream)
      waits e i same le = elim (Bool-cases (ltb entry.global_seq e.global_seq)) [
        | inl behind ↦ inr (filter-In is_queued e stream (resumable.2 e i same le) (ground arith))
        | inr ahead ↦ inl (resumable.3 e i same (ground arith))
      ]
