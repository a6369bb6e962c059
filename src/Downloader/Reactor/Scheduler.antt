-- ===== src/Downloader/Reactor/Scheduler.antt =====
-- packages/downloader/src/application/download/reactor.ts: the retries of parked effects, the
-- resumption of their streams, and a round of `drain`.
use music_downloader.Prelude.{
  ℕ, ◌+◌, Bool, true, false, ◌&&◌, Option, none, some, List, [], ◌∷◌, String, ltb, leb, ◌==◌,
  filter, if◌then◌else◌,
}
use music_downloader.Sorting.{to_sorted, difference}
use music_downloader.Downloader.Download.React.{Effect}
use music_downloader.Downloader.Log.{StoredEvent, read_stream, read_all}
use music_downloader.Downloader.Retry.{RetrySchedule, retry, exhausted, next_retry}
use music_downloader.Downloader.Machine.{ParkedEffect, Environment, Machine, call}
use music_downloader.Downloader.Lander.{land}
use music_downloader.Downloader.Reactor.{
  DispatchOutcome, dispatch_event, when_landed, write_park, park_stream, remove_park, process_all,
}

abbrev pub find_stored : ℕ → List StoredEvent → Option StoredEvent
find_stored seq [] = none
find_stored seq (s ∷ ss) = if s.global_seq == seq then some s else find_stored seq ss

module _ (env : Environment) where
  -- The queued events of a stream that are behind its park, up to the cursor.
  abbrev pub queued : ℕ → ℕ → List StoredEvent → List StoredEvent
  queued from to = filter λ e. ltb from e.global_seq && leb e.global_seq to

  unfoldable pub resumed : StoredEvent → (Machine → Machine) → DispatchOutcome × Machine → Machine
  unfolding park_stream
  resumed s rest (some effect, m) = (park_stream env s effect m).1
  resumed s rest (none, m) = rest m

  unfoldable pub resume_all : String → List StoredEvent → List StoredEvent → Machine → Machine
  unfolding resumed dispatch_event remove_park
  resume_all id stream [] m = remove_park env id m
  resume_all id stream (s ∷ ss) m =
      resumed s (resume_all id stream ss) (dispatch_event env s stream m)

  unfoldable pub resume_stream : ParkedEffect → List StoredEvent → Machine → Machine
  unfolding resume_all
  resume_stream entry stream m =
      resume_all entry.stream_id stream (queued entry.global_seq m.cursor stream) m

  -- A failed landing is parked again at the cap of the policy.
  unfoldable pub held_over : ParkedEffect → ℕ → ℕ → Machine → Machine
  unfolding write_park
  held_over entry attempt now m =
      (write_park env
        (record entry { attempt = attempt; next_retry_at = now + env.policy.max_delay_ms }) m).1

  unfoldable pub after_exhaustion :
      ParkedEffect → List StoredEvent → ℕ → ℕ → Bool × Machine → Machine
  unfolding resume_stream held_over
  after_exhaustion entry stream attempt now (true, m) = resume_stream entry stream m
  after_exhaustion entry stream attempt now (false, m) = held_over entry attempt now m

  unfoldable pub rescheduled :
      ParkedEffect
      → StoredEvent
      → List StoredEvent
      → Effect
      → ℕ
      → ℕ
      → RetrySchedule
      → Machine
      → Machine
  unfolding after_exhaustion write_park land
  rescheduled entry s stream effect attempt now exhausted m =
      after_exhaustion entry stream attempt now (when_landed env s (land env s effect attempt m))
  rescheduled entry s stream effect attempt now (retry at) m =
      (write_park env (record entry { attempt = attempt; next_retry_at = at }) m).1

  unfoldable pub retried :
      ParkedEffect → StoredEvent → List StoredEvent → DispatchOutcome × Machine → Machine
  unfolding resume_stream rescheduled next_retry
  retried entry s stream (none, m) = resume_stream entry stream m
  retried entry s stream (some effect, m) =
      let attempt = entry.attempt + 1 in
      let now = env.now m.tick in
      rescheduled entry s stream effect attempt now
        (next_retry env.policy attempt entry.parked_at now (env.random m.tick)) m

  unfoldable pub retry_stored :
      ParkedEffect → List StoredEvent → Option StoredEvent → Machine → Machine
  unfolding retried dispatch_event remove_park
  retry_stored entry stream none m = remove_park env entry.stream_id m
  retry_stored entry stream (some s) m = retried entry s stream (dispatch_event env s stream m)

  unfoldable pub retry_parked : ParkedEffect → Machine → Machine
  unfolding retry_stored call
  retry_parked entry m =
      let m' = call env m in
      let stream = read_stream entry.stream_id m'.log in
      if env.faults m.tick
      then m'
      else retry_stored entry stream (find_stored entry.global_seq stream) m'

  unfoldable pub retry_all : List ParkedEffect → Machine → Machine
  unfolding retry_parked
  retry_all [] m = m
  retry_all (entry ∷ entries) m = retry_all entries (retry_parked entry m)

  -- The entries whose retry is due, the soonest first.
  unfoldable pub due : ℕ → List ParkedEffect → List ParkedEffect
  unfolding to_sorted
  due now parks =
      to_sorted (λ p q. difference p.next_retry_at q.next_retry_at)
        (filter (λ p. leb p.next_retry_at now) parks)

  unfoldable pub retry_due_parked : Machine → Machine
  unfolding retry_all due call
  retry_due_parked m =
      let m' = call env m in
      if env.faults m.tick then m' else retry_all (due (env.now m.tick) m'.parks) m'

  unfoldable pub catch_up : Machine → Machine
  unfolding process_all call
  catch_up m =
      let m' = call env m in
      if env.faults m.tick then m' else process_all env (read_all m.cursor m'.log) m'

  -- One round of the loop of `drain`.
  unfoldable pub drain_round : Machine → Machine
  unfolding retry_due_parked catch_up
  drain_round m = catch_up (retry_due_parked m)
