-- ===== src/Importer/Reactor/Tallies.antt =====
-- Where no store fails, the loop over the effects of an event settles them all, or counts one more
-- attempt of the event, below the retry budget.
use music_downloader.Prelude.{
  ℕ, ◌+◌, ◌≤◌, ◌<◌, ◌≡◌, refl, sym, ap, ◌∙◌, subst, Bool, true, false, not, List, [], ◌∷◌, ltb,
  ◌==◌, filter-All, All, Result, ok, err, Bool-cases, inl, inr, arith,
}
use music_downloader.Importer.Import.React.{Effect}
use music_downloader.Importer.Handling.{CommandError}
use music_downloader.Importer.Machine.{
  StoredEvent, ParkedEffect, Record, Environment, Machine, call, find_tally, attempt_of,
}
use music_downloader.Importer.Interpreter.{interpret_effect}
use music_downloader.Importer.Reactor.{
  is_retryable, Outcome, held, settled, write_tally, dead_letter, spend_attempt, handle_retryable,
  after_attempt, after_effect, dispatch_effects,
}
use music_downloader.Importer.Reactor.Steady.{Steady, call-Steady, interpret_effect-Steady}

-- The failed attempts of an event so far.
abbrev pub tally_at : ℕ → Machine → ℕ
tally_at seq m = attempt_of (find_tally seq m.tallies)

-- What is durable is what the process knows.
pub record Sits (m m' : Machine) : Type 0 where
  pub cursor : m'.cursor ≡ m.cursor
  pub checkpoint : m'.checkpoint ≡ m.checkpoint
  pub tallies : m'.tallies ≡ m.tallies

pub Steady-Sits : {m m' : Machine} → Steady m m' → Sits m m'
Steady-Sits h = record { cursor = h.cursor; checkpoint = h.checkpoint; tallies = h.tallies }

pub Sits-trans : {a b c : Machine} → Sits a b → Sits b c → Sits a c
Sits-trans f g = record {
  cursor = g.cursor ∙ f.cursor;
  checkpoint = g.checkpoint ∙ f.checkpoint;
  tallies = g.tallies ∙ f.tallies;
}

abbrev pub Below : ℕ → List ParkedEffect → Type 0
Below budget tallies = All (λ p. p.attempt < budget) tallies

pub tally-Below :
    (budget seq : ℕ) (tallies : List ParkedEffect)
    → 1 ≤ budget
    → Below budget tallies
    → attempt_of (find_tally seq tallies) < budget
tally-Below budget seq [] some_budget h = omega (arith, some_budget)
tally-Below budget seq (p ∷ ps) some_budget h = elim (Bool-cases (p.global_seq == seq)) [
  | inl own ↦ rw own h.0
  | inr other ↦ rw other (tally-Below budget seq ps some_budget h.1)
]

equal_itself : (n : ℕ) → (n == n) ≡ true
equal_itself n = ground arith

noted-Sits : {m n : Machine} {trace : List Record} → Sits m n → Sits m (record n { trace = trace })
noted-Sits f = record { cursor = f.cursor; checkpoint = f.checkpoint; tallies = f.tallies }

module _ (env : Environment) where
  -- One more attempt of an event is counted.
  pub record Counts (seq : ℕ) (m m' : Machine) : Type 0 where
    pub cursor : m'.cursor ≡ m.cursor
    pub checkpoint : m'.checkpoint ≡ m.checkpoint
    pub counted : tally_at seq m' ≡ tally_at seq m + 1
    pub below : Below env.retry_budget m.tallies → Below env.retry_budget m'.tallies

  pub Sits-Counts : {seq : ℕ} {a b c : Machine} → Sits a b → Counts seq b c → Counts seq a c
  Sits-Counts {seq} f g = record {
    cursor = g.cursor ∙ f.cursor;
    checkpoint = g.checkpoint ∙ f.checkpoint;
    counted = g.counted ∙ ap (λ ts. attempt_of (find_tally seq ts) + 1) f.tallies;
    below = λ h. g.below (subst (Below env.retry_budget) (sym f.tallies) h);
  }

  -- What the loop over the effects does to the tally of its event.
  abbrev pub Tallies : StoredEvent → Machine → Outcome × Machine → Type 0
  Tallies s m (held, m') = Counts s.global_seq m m'
  Tallies s m (settled dead, m') = Sits m m'

  Tallies-after :
      {m n : Machine} (s : StoredEvent)
      → Sits m n
      → (r : Outcome × Machine) → Tallies s n r
      → Tallies s m r
  Tallies-after s f (held, m') h = Sits-Counts f h
  Tallies-after s f (settled dead, m') h = Sits-trans f h

  abbrev Attempts : StoredEvent → Machine → Bool × Machine → Type 0
  Attempts s m (false, m') = Counts s.global_seq m m'
  Attempts s m (true, m') = Sits m m'

  Attempts-after :
      {m n : Machine} (s : StoredEvent)
      → Sits m n
      → (r : Bool × Machine) → Attempts s n r
      → Attempts s m r
  Attempts-after s f (false, m') h = Sits-Counts f h
  Attempts-after s f (true, m') h = Sits-trans f h

  module _ (healthy : (t : ℕ) → env.faults t ≡ false) where
    pub call-Sits : (m : Machine) → Sits m (call env m)
    call-Sits m = Steady-Sits (call-Steady env m)

    write_tally-Counts :
        (entry : ParkedEffect) (m : Machine)
        → entry.attempt ≡ tally_at entry.global_seq m + 1
        → entry.attempt < env.retry_budget
        → Counts entry.global_seq m (write_tally env entry m)
    unfolding write_tally
    write_tally-Counts entry m at lt = rw (healthy m.tick) (record {
      cursor = (call-Sits m).cursor;
      checkpoint = (call-Sits m).checkpoint;
      counted = rw (equal_itself entry.global_seq) at;
      below = λ h. (
        lt,
        filter-All (λ p. p.attempt < env.retry_budget) (λ p. not (p.global_seq == entry.global_seq))
            (call env m).tallies (subst (Below env.retry_budget) (sym (call-Sits m).tallies) h),
      );
    })

    spend_attempt-Attempts :
        (s : StoredEvent) (effect : Effect) (e : CommandError) (m : Machine)
        → Attempts s m (spend_attempt env s effect e (find_tally s.global_seq m.tallies) m)
    unfolding spend_attempt dead_letter
    spend_attempt-Attempts s effect e m =
        elim (Bool-cases (ltb (tally_at s.global_seq m + 1) env.retry_budget)) [
          | inl lower ↦ rw lower (write_tally-Counts _ m refl (lower_lt _ _ lower))
          | inr spent ↦
              rw (spent, healthy m.tick)
                (record {
                  cursor = (call-Sits m).cursor;
                  checkpoint = (call-Sits m).checkpoint;
                  tallies = (call-Sits m).tallies;
                })
        ]
      where
        lower_lt : (a b : ℕ) → ltb a b ≡ true → a < b
        lower_lt a b h = ground arith

    handle_retryable-Attempts :
        (s : StoredEvent) (effect : Effect) (e : CommandError) (m : Machine)
        → Attempts s m (handle_retryable env s effect e m)
    unfolding handle_retryable
    handle_retryable-Attempts s effect e m =
        rw (healthy m.tick)
          (Attempts-after s (call-Sits m) _ (spend_attempt-Attempts s effect e (call env m)))

    after_attempt-Tallies :
        (s : StoredEvent) (m : Machine) (rest : Bool → Machine → Outcome × Machine)
        → ((dead : Bool) (n : Machine) → Tallies s n (rest dead n))
        → (r : Bool × Machine) → Attempts s m r
        → Tallies s m (after_attempt env rest r)
    after_attempt-Tallies s m rest go (false, n) h = h
    after_attempt-Tallies s m rest go (true, n) h = Tallies-after s h (rest true n) (go true n)

    after_effect-Tallies :
        (s : StoredEvent) (effect : Effect) (m : Machine)
        (rest : Bool → Machine → Outcome × Machine) (dead : Bool)
        → ((dead' : Bool) (n : Machine) → Tallies s n (rest dead' n))
        → (r : Result CommandError Unit × Machine) → Sits m r.1
        → Tallies s m (after_effect env s effect rest dead r)
    unfolding after_effect
    after_effect-Tallies s effect m rest dead go (ok done, n) f =
        Tallies-after s (noted-Sits f) (rest dead _) (go dead _)
    after_effect-Tallies s effect m rest dead go (err e, n) f = elim (Bool-cases (is_retryable e)) [
      | inl again ↦ rw again (
          after_attempt-Tallies s m rest go (handle_retryable env s effect e n) (
            Attempts-after s f (handle_retryable env s effect e n)
              (handle_retryable-Attempts s effect e n)))
      | inr stale ↦ rw stale (Tallies-after s (noted-Sits f) (rest dead _) (go dead _))
    ]

    pub dispatch_effects-Tallies :
        (s : StoredEvent) (effects : List Effect) (dead : Bool) (m : Machine)
        → Tallies s m (dispatch_effects env s effects dead m)
    unfolding dispatch_effects
    dispatch_effects-Tallies s [] dead m = record {
      cursor = refl;
      checkpoint = refl;
      tallies = refl;
    }
    dispatch_effects-Tallies s (effect ∷ effects) dead m =
        after_effect-Tallies s effect m (dispatch_effects env s effects) dead
          (dispatch_effects-Tallies s effects) (interpret_effect env s.stream_id effect m)
          (Steady-Sits (interpret_effect-Steady env s.stream_id effect m))
