-- ===== src/Importer/Reactor/Settling.antt =====
-- The loop over the effects of an event settles each of them, unless it holds the event.
use music_downloader.Prelude.{
  ◌+◌, refl, Bool, true, false, Option, List, [], ◌∷◌, String, ltb, All, Result, ok, err,
  Bool-cases, inl, inr,
}
use music_downloader.Eventing.Drain.Feed.{In}
use music_downloader.Importer.Import.React.{Effect}
use music_downloader.Importer.Handling.{CommandError}
use music_downloader.Importer.Machine.{
  StoredEvent, ParkedEffect, DeadLetter, Record, carried_out, rejected_stale, dead_lettered,
  Environment, Machine, call, attempt_of, find_tally,
}
use music_downloader.Importer.Interpreter.{interpret_effect}
use music_downloader.Importer.Reactor.{
  is_retryable, Outcome, held, settled, write_tally, dead_letter, spend_attempt, handle_retryable,
  after_attempt, after_effect, dispatch_effects,
}
use music_downloader.Importer.Reactor.Steady.{Steady-refl, call-Steady, interpret_effect-Steady}
use music_downloader.Importer.Reactor.Settled.{
  Settled, Settled-Goes, Stays, Stays-trans, Steady-Stays,
}

-- What the loop over the effects has done when it ends.
abbrev pub Concludes : Machine → StoredEvent → List Effect → Outcome × Machine → Type 0
Concludes m s effects (held, m') = Stays m m'
Concludes m s effects (settled dead, m') = Stays m m' × All (Settled m'.trace s) effects

Concludes-after :
    {m n : Machine} (s : StoredEvent) (effect : Effect) (effects : List Effect)
    → Stays m n
    → Settled n.trace s effect
    → (r : Outcome × Machine) → Concludes n s effects r
    → Concludes m s (effect ∷ effects) r
Concludes-after s effect effects g done (held, m') h = Stays-trans g h
Concludes-after s effect effects g done (settled dead, m') h =
    (Stays-trans g h.0, (Settled-Goes s effect h.0.goes done, h.1))

module _ (env : Environment) where
  call-Stays : (m : Machine) → Stays m (call env m)
  call-Stays m = Steady-Stays (call-Steady env m)

  noted-Stays :
      {m n : Machine} (r : Record) → Stays m n → Stays m (record n { trace = r ∷ n.trace })
  noted-Stays r g = record {
    goes = record { extends = g.goes.extends; traced = λ x i. inr (g.goes.traced x i) };
    cursor = g.cursor;
    checkpoint = g.checkpoint;
  }

  -- Tallies, letters and marks stand apart.
  unmarked :
      {m n : Machine} {tallies : List ParkedEffect} {letters : List DeadLetter}
      {marks : List String}
      → Stays m n
      → Stays m (record n { tallies = tallies; letters = letters; stalled = marks })
  unmarked g = record {
    goes = record { extends = g.goes.extends; traced = g.goes.traced };
    cursor = g.cursor;
    checkpoint = g.checkpoint;
  }

  write_tally-Stays : (entry : ParkedEffect) (m : Machine) → Stays m (write_tally env entry m)
  unfolding write_tally
  write_tally-Stays entry m = elim (Bool-cases (env.faults m.tick)) [
    | inl fault ↦ rw fault (call-Stays m)
    | inr kept ↦ rw kept (unmarked (call-Stays m))
  ]

  -- A flag to go on comes with a dead letter.
  abbrev Lettered : Machine → StoredEvent → Effect → Bool × Machine → Type 0
  Lettered m s effect (false, m') = Stays m m'
  Lettered m s effect (true, m') = Stays m m' × In (dead_lettered s effect) m'.trace

  Lettered-after :
      {m n : Machine} (s : StoredEvent) (effect : Effect)
      → Stays m n
      → (r : Bool × Machine) → Lettered n s effect r
      → Lettered m s effect r
  Lettered-after s effect g (false, m') h = Stays-trans g h
  Lettered-after s effect g (true, m') h = (Stays-trans g h.0, h.1)

  dead_letter-Lettered :
      (s : StoredEvent) (effect : Effect) (e : CommandError) (m : Machine)
      → Lettered m s effect (dead_letter env s effect e m)
  unfolding dead_letter
  dead_letter-Lettered s effect e m = elim (Bool-cases (env.faults m.tick)) [
    | inl fault ↦ rw fault (call-Stays m)
    | inr kept ↦ rw kept (noted-Stays (dead_lettered s effect) (unmarked (call-Stays m)), inl refl)
  ]

  spend_attempt-Lettered :
      (s : StoredEvent) (effect : Effect) (e : CommandError) (existing : Option ParkedEffect)
      (m : Machine)
      → Lettered m s effect (spend_attempt env s effect e existing m)
  unfolding spend_attempt
  spend_attempt-Lettered s effect e existing m =
      elim (Bool-cases (ltb (attempt_of existing + 1) env.retry_budget)) [
        | inl below ↦ rw below (write_tally-Stays _ m)
        | inr spent ↦ rw spent (dead_letter-Lettered s effect e m)
      ]

  handle_retryable-Lettered :
      (s : StoredEvent) (effect : Effect) (e : CommandError) (m : Machine)
      → Lettered m s effect (handle_retryable env s effect e m)
  unfolding handle_retryable
  handle_retryable-Lettered s effect e m = elim (Bool-cases (env.faults m.tick)) [
    | inl fault ↦ rw fault (call-Stays m)
    | inr found ↦ rw found (
        Lettered-after s effect (call-Stays m) _ (
          spend_attempt-Lettered s effect e (find_tally s.global_seq (call env m).tallies)
            (call env m)))
  ]

  after_attempt-Concludes :
      (m : Machine) (s : StoredEvent) (effect : Effect) (effects : List Effect)
      (rest : Bool → Machine → Outcome × Machine)
      → ((dead : Bool) (n : Machine) → Concludes n s effects (rest dead n))
      → (r : Bool × Machine) → Lettered m s effect r
      → Concludes m s (effect ∷ effects) (after_attempt env rest r)
  after_attempt-Concludes m s effect effects rest go (false, n) h = h
  after_attempt-Concludes m s effect effects rest go (true, n) h =
      Concludes-after s effect effects h.0 (inr (inr h.1)) (rest true n) (go true n)

  after_effect-Concludes :
      (m : Machine) (s : StoredEvent) (effect : Effect) (effects : List Effect)
      (rest : Bool → Machine → Outcome × Machine) (dead : Bool)
      → ((dead' : Bool) (n : Machine) → Concludes n s effects (rest dead' n))
      → (r : Result CommandError Unit × Machine) → Stays m r.1
      → Concludes m s (effect ∷ effects) (after_effect env s effect rest dead r)
  unfolding after_effect
  after_effect-Concludes m s effect effects rest dead go (ok done, n) g =
      Concludes-after s effect effects (noted-Stays (carried_out s effect) g) (inl (inl refl))
        (rest dead _) (go dead _)
  after_effect-Concludes m s effect effects rest dead go (err e, n) g =
      elim (Bool-cases (is_retryable e)) [
        | inl again ↦ rw again (
            after_attempt-Concludes m s effect effects rest go (handle_retryable env s effect e n) (
              Lettered-after s effect g (handle_retryable env s effect e n)
                (handle_retryable-Lettered s effect e n)))
        | inr stale ↦ rw stale (
            Concludes-after s effect effects (noted-Stays (rejected_stale s effect) g)
              (inr (inl (inl refl))) (rest dead _) (go dead _))
      ]

  pub dispatch_effects-Concludes :
      (s : StoredEvent) (effects : List Effect) (dead : Bool) (m : Machine)
      → Concludes m s effects (dispatch_effects env s effects dead m)
  unfolding dispatch_effects
  dispatch_effects-Concludes s [] dead m = (Steady-Stays (Steady-refl m), tt)
  dispatch_effects-Concludes s (effect ∷ effects) dead m =
      after_effect-Concludes m s effect effects (dispatch_effects env s effects) dead
        (dispatch_effects-Concludes s effects) (interpret_effect env s.stream_id effect m)
        (Steady-Stays (interpret_effect-Steady env s.stream_id effect m))
