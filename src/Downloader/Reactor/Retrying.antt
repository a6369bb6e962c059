-- ===== src/Downloader/Reactor/Retrying.antt =====
-- The retries of the parked effects that are due keep the invariant.
use music_downloader.Eventing.Log.Rows.{Numbered-unique}
use music_downloader.Prelude.{
  ℕ, ◌+◌, ◌≤◌, ◌≡◌, refl, sym, ◌∙◌, subst, Bool, true, false, none, some, List, [], ◌∷◌, str_eq,
  eq_iff, ltb, filter-All, All, Bool-cases, inl, inr, arith,
}
use music_downloader.Sorting.Laws.{to_sorted-All}
use music_downloader.Eventing.Drain.Feed.{In, filter-In, In-All}
use music_downloader.Downloader.Download.React.{Effect}
use music_downloader.Downloader.Log.{StoredEvent, read_stream}
use music_downloader.Downloader.Retry.{RetrySchedule, retry, exhausted}
use music_downloader.Downloader.Machine.{ParkedEffect, Environment, Machine, call}
use music_downloader.Downloader.Lander.{land}
use music_downloader.Downloader.Reactor.{DispatchOutcome, dispatch_event, when_landed}
use music_downloader.Downloader.Reactor.Scheduler.{
  find_stored, held_over, after_exhaustion, rescheduled, retried, retry_stored, retry_parked,
  retry_all, due, retry_due_parked, drain_round, resume_stream,
}
use music_downloader.Downloader.Reactor.Steady.{call-Steady}
use music_downloader.Downloader.Reactor.Invariant.{Handled, IsSound, Inv, IsSound-Onward}
use music_downloader.Downloader.Reactor.Dispatching.{
  Goes, Goes-refl, Goes-trans, Steady-Goes, Dispatches, dispatch_event-Dispatches,
}
use music_downloader.Downloader.Reactor.Parking.{write_park-Goes, landing-Goes}
use music_downloader.Downloader.Reactor.CatchingUp.{Holds, Goes-Holds, Holds-trans, catch_up-Holds}
use music_downloader.Downloader.Reactor.Resuming.{IsResumable, resume_stream-Goes}
use music_downloader.Downloader.Reactor.Rereading.{
  find_stored-some, Read, read_stream-Read, Read-Onward,
}

module _ (env : Environment) (entry : ParkedEffect) (s : StoredEvent) (stream : List StoredEvent)
    (of_stream : s.stream_id ≡ entry.stream_id) (at : s.global_seq ≡ entry.global_seq) where
  -- With its event handled, a sound entry may be resumed.
  resumable :
      (m : Machine)
      → Inv m
      → In s m.log
      → IsSound m.log m.trace entry
      → Read m entry.stream_id stream
      → Handled m.trace s
      → IsResumable env m entry stream
  resumable m h i sound r done = (r.0, r.1, r.2, settled)
    where
      settled :
          (e : StoredEvent)
          → In e m.log
          → e.stream_id ≡ entry.stream_id
          → e.global_seq ≤ entry.global_seq
          → Handled m.trace e
      settled e j same le = elim (Bool-cases (ltb e.global_seq entry.global_seq)) [
        | inl before ↦ sound.1 e j same (ground arith)
        | inr here ↦
            subst (λ x. Handled m.trace x)
              (sym (
                Numbered-unique 0 m.log e s h.numbered j i
                  (level e.global_seq entry.global_seq le here ∙ sym at)))
              done
      ]
        where
          level : (a b : ℕ) → a ≤ b → ltb a b ≡ false → a ≡ b
          level a b le' f = ground arith

  module _ (m : Machine) (h : Inv m) (i : In s m.log) (sound : IsSound m.log m.trace entry)
      (r : Read m entry.stream_id stream) where
    resumed_after :
        (n : Machine) → Goes m n → Handled n.trace s → Goes m (resume_stream env entry stream n)
    resumed_after n g done = Goes-trans g (
        resume_stream-Goes env entry stream n g.inv (
          resumable n g.inv (g.onward.member s i) (IsSound-Onward entry g.onward h sound)
            (Read-Onward entry.stream_id stream g h r) done))

    after_exhaustion-Goes :
        (attempt now : ℕ) (l : Bool × Machine)
        → Goes m l.1
        → (l.0 ≡ true → Handled l.1.trace s)
        → Goes m (after_exhaustion env entry stream attempt now l)
    unfolding after_exhaustion held_over
    after_exhaustion-Goes attempt now (true, n) g done = resumed_after n g (done refl)
    after_exhaustion-Goes attempt now (false, n) g done =
        Goes-trans g (write_park-Goes env _ n g.inv (IsSound-Onward entry g.onward h sound)).0

    rescheduled-Goes :
        (effect : Effect) (attempt now : ℕ) (schedule : RetrySchedule) (n : Machine)
        → Goes m n
        → Goes m (rescheduled env entry s stream effect attempt now schedule n)
    unfolding rescheduled
    rescheduled-Goes effect attempt now exhausted n g =
        let landing = landing-Goes env s effect attempt n g.inv in
        after_exhaustion-Goes attempt now (when_landed env s (land env s effect attempt n))
          (Goes-trans g landing.0) landing.1
    rescheduled-Goes effect attempt now (retry later) n g =
        Goes-trans g (write_park-Goes env _ n g.inv (IsSound-Onward entry g.onward h sound)).0

    retried-Goes :
        (d : DispatchOutcome × Machine) → Dispatches m s d → Goes m (retried env entry s stream d)
    unfolding retried
    retried-Goes (none, n) d = resumed_after n d.goes (d.settles refl)
    retried-Goes (some effect, n) d =
        rescheduled-Goes effect (entry.attempt + 1) (env.now n.tick) _ n d.goes

module _ (env : Environment) where
  retry_parked-Goes :
      (entry : ParkedEffect) (m : Machine)
      → Inv m
      → IsSound m.log m.trace entry
      → Goes m (retry_parked env entry m)
  unfolding retry_parked retry_stored
  retry_parked-Goes entry m h sound = elim (Bool-cases (env.faults m.tick)) [
    | inl fault ↦ rw fault calling
    | inr read ↦ rw read (Goes-trans calling (retrying found.0 found.1 found.2 found.3))
  ]
    where
      n : Machine
      n = call env m

      calling : Goes m n
      calling = Steady-Goes (call-Steady env m) h

      stream : List StoredEvent
      stream = read_stream entry.stream_id n.log

      here : IsSound n.log n.trace entry
      here = IsSound-Onward entry calling.onward h sound

      found :
          (s : StoredEvent) × (find_stored entry.global_seq stream ≡ some s)
          × In s stream
          × (s.global_seq ≡ entry.global_seq)
      found =
          find_stored-some entry.global_seq here.0.0 stream
            (filter-In (λ x. str_eq x.stream_id entry.stream_id) here.0.0 n.log here.0.1
              ((eq_iff here.0.0.stream_id entry.stream_id).1 here.0.2))
            here.0.3

      reading : Read n entry.stream_id stream
      reading = read_stream-Read entry.stream_id n calling.inv

      retrying :
          (s : StoredEvent)
          → find_stored entry.global_seq stream ≡ some s
          → In s stream
          → s.global_seq ≡ entry.global_seq
          → Goes n (retry_stored env entry stream (find_stored entry.global_seq stream) n)
      retrying s e i at =
          let known =
            In-All (λ x. In x n.log × (x.stream_id ≡ entry.stream_id)) s stream reading.1 i in
          rw e (
            retried-Goes env entry s stream known.1 at n calling.inv known.0 here reading
              (dispatch_event env s stream n)
              (dispatch_event-Dispatches env s stream n calling.inv
                (known.0, λ x j same lt. here.1 x j (same ∙ known.1) (omega (arith, lt, at)))))

  retry_all-Goes :
      (entries : List ParkedEffect) (m : Machine)
      → Inv m
      → All (λ p. IsSound m.log m.trace p) entries
      → Goes m (retry_all env entries m)
  unfolding retry_all
  retry_all-Goes [] m h sound = Goes-refl h
  retry_all-Goes (entry ∷ entries) m h sound =
      let first = retry_parked-Goes entry m h sound.0 in
      Goes-trans first (
        retry_all-Goes entries (retry_parked env entry m) first.inv
          (entries_stay entries first sound.1))
    where
      entries_stay :
          {n : Machine} (ps : List ParkedEffect)
          → Goes m n
          → All (λ p. IsSound m.log m.trace p) ps
          → All (λ p. IsSound n.log n.trace p) ps
      entries_stay [] g k = tt
      entries_stay (p ∷ ps) g k = (IsSound-Onward p g.onward h k.0, entries_stay ps g k.1)

  every_member :
      (P : ParkedEffect → Type 0) (ps : List ParkedEffect)
      → ((p : ParkedEffect) → In p ps → P p)
      → All P ps
  every_member P [] f = tt
  every_member P (p ∷ ps) f = (f p (inl refl), every_member P ps (λ q i. f q (inr i)))

  retry_due_parked-Goes : (m : Machine) → Inv m → Goes m (retry_due_parked env m)
  unfolding retry_due_parked due
  retry_due_parked-Goes m h = elim (Bool-cases (env.faults m.tick)) [
    | inl fault ↦ rw fault calling
    | inr listed ↦ rw listed (
        Goes-trans calling (
          retry_all-Goes (due env (env.now m.tick) (call env m).parks) (call env m) calling.inv (
            to_sorted-All _ P _ (
              filter-All P _ (call env m).parks
                (every_member P (call env m).parks calling.inv.sound)))))
  ]
    where
      calling : Goes m (call env m)
      calling = Steady-Goes (call-Steady env m) h

      P : ParkedEffect → Type 0
      P p = IsSound (call env m).log (call env m).trace p

  pub drain_round-Holds : (m : Machine) → Inv m → Holds m (drain_round env m)
  unfolding drain_round
  drain_round-Holds m h =
      let retrying = retry_due_parked-Goes m h in
      Holds-trans (Goes-Holds retrying) (catch_up-Holds env (retry_due_parked env m) retrying.inv)
