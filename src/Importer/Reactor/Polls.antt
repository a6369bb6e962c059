-- ===== src/Importer/Reactor/Polls.antt =====
-- Polls without a store fault pass every event, whatever the ports answer: the tally of the event that
-- is held counts up to the retry budget, over restarts.
use music_downloader.Prelude.{
  ℕ, suc, ◌+◌, ◌*◌, ◌≤◌, ◌<◌, ◌≡◌, refl, sym, subst, false, List, [], ◌∷◌, inl, inr, ◌⊎◌, arith,
}
use native.Mathlib.Nat.{mul-le-mul_left, mul-suc}
use music_downloader.Eventing.Drain.Feed.{In}
use music_downloader.Importer.Machine.{StoredEvent, Environment, Machine, find_tally, attempt_of}
use music_downloader.Importer.Reactor.Running.{
  Action, boots, drains, drain, boot, act, act_all, new_machine,
}
use music_downloader.Importer.Reactor.Passed.{drain-Inv, boot-Inv, act_all-Inv, new_machine-Inv}
use music_downloader.Importer.Reactor.Settled.{AllSettled}
use music_downloader.Importer.Reactor.Tallies.{tally_at, Sits, tally-Below}
use music_downloader.Importer.Reactor.Standing.{Inv}
use music_downloader.Importer.Reactor.Trying.{Level}
use music_downloader.Importer.Reactor.Rising.{
  Rises, drain-Rises, drain-progress, boot-Sits, boot-kept, boot-Rises, act_all-Rises,
}

abbrev pub polls : List Action → ℕ
polls [] = 0
polls (boots horizon ∷ actions) = polls actions
polls (drains ∷ actions) = polls actions + 1

split : (a b : ℕ) → (a ≤ b) ⊎ (suc b ≤ a)
split a b = ground arith

-- A tally is below the budget, so that what it counts is not a whole event.
reached :
    (budget tally cursor seq : ℕ)
    → tally < budget
    → budget * seq ≤ tally + budget * cursor
    → seq ≤ cursor
reached budget tally cursor seq lt le = elim (split seq cursor) [
  | inl done ↦ done
  | inr ahead ↦ absurd (omega (arith, lt, le, mul-le-mul_left budget ahead, mul-suc budget cursor))
]

module _ (env : Environment) (healthy : (t : ℕ) → env.faults t ≡ false) where
  -- The polls that are left and the attempts that are counted are enough for the events up to a
  -- number.
  abbrev IsEnough : List Action → Machine → ℕ → Type 0
  IsEnough actions m seq =
      env.retry_budget * seq
      ≤ polls actions + (tally_at (m.cursor + 1) m + env.retry_budget * m.cursor)

  Sits-IsEnough :
      {m m' : Machine} (actions : List Action) (seq : ℕ)
      → Sits m m'
      → IsEnough actions m seq
      → IsEnough actions m' seq
  Sits-IsEnough {m} {m'} actions seq f h =
      subst
        (λ c. env.retry_budget * seq ≤ polls actions + (tally_at (c + 1) m' + env.retry_budget * c))
        (sym f.cursor)
        (subst
          (λ ts.
            env.retry_budget * seq
            ≤ polls actions
              + (attempt_of (find_tally (m.cursor + 1) ts) + env.retry_budget * m.cursor))
          (sym f.tallies) h)

  act_all-passes :
      (actions : List Action) (m : Machine) (e : StoredEvent)
      → Inv m
      → Level env m
      → 1 ≤ env.retry_budget
      → In e m.log
      → IsEnough actions m e.global_seq
      → e.global_seq ≤ (act_all env actions m).cursor
  unfolding act_all act
  act_all-passes [] m e inv h some_budget i enough =
      reached env.retry_budget (tally_at (m.cursor + 1) m) m.cursor e.global_seq
        (tally-Below env.retry_budget (m.cursor + 1) m.tallies some_budget h.below)
        (omega (arith, enough))
  act_all-passes (boots horizon ∷ actions) m e inv h some_budget i enough =
      act_all-passes actions (boot env horizon m) e (boot-Inv env horizon m inv)
        (boot-Rises env healthy horizon m h).level some_budget (boot-kept env healthy horizon m e i)
        (Sits-IsEnough actions e.global_seq (boot-Sits env healthy horizon m h) enough)
  act_all-passes (drains ∷ actions) m e inv h some_budget i enough =
      let risen = drain-Rises env healthy m inv h in
      let later =
        act_all-Rises env healthy actions (drain env m) (drain-Inv env m inv) risen.level in
      let next =
        act_all-passes actions (drain env m) e (drain-Inv env m inv) risen.level some_budget
          (risen.kept e i) in
      elim (split e.global_seq m.cursor) [
        | inl done ↦ omega (arith, done, risen.up, later.up)
        | inr ahead ↦ elim (drain-progress env healthy e m inv h i ahead) [
          | inl moves ↦ next (
              omega (
                arith,
                enough,
                tally-Below env.retry_budget (m.cursor + 1) m.tallies some_budget h.below,
                mul-le-mul_left env.retry_budget moves,
                mul-suc env.retry_budget m.cursor,
              ))
          | inr stays ↦ next (
              subst
                (λ c.
                  env.retry_budget * e.global_seq
                  ≤ polls actions + (tally_at (c + 1) (drain env m) + env.retry_budget * c))
                (sym stays.0) (omega (arith, enough, stays.1)))
        ]
      ]

new_machine-Level : (env : Environment) → Level env new_machine
new_machine-Level env = record { durable = refl; below = tt }

-- Where no store call fails, whatever the ports answer and whatever others append, an event of the
-- log is passed, with each of its effects carried out, rejected as stale or dead-lettered, by the time
-- there were as many polls as the retry budget, at least 1, for each event from the cursor up to it,
-- over any restarts between them.
pub polls_settle_events :
    (env : Environment)
    → ((t : ℕ) → env.faults t ≡ false)
    → 1 ≤ env.retry_budget
    → (before actions : List Action) → (e : StoredEvent) → In e (act_all env before new_machine).log
    → env.retry_budget * e.global_seq
      ≤ polls actions + env.retry_budget * (act_all env before new_machine).cursor
    → (e.global_seq ≤ (act_all env actions (act_all env before new_machine)).cursor)
      × AllSettled
          (act_all env actions (act_all env before new_machine)).log
          (act_all env actions (act_all env before new_machine)).trace
          e
polls_settle_events env healthy some_budget before actions e i enough =
    (passes, later-Inv.passed.1 e (later.kept e i) passes)
  where
    earlier-Inv : Inv (act_all env before new_machine)
    earlier-Inv = act_all-Inv env before new_machine new_machine-Inv

    later-Inv : Inv (act_all env actions (act_all env before new_machine))
    later-Inv = act_all-Inv env actions (act_all env before new_machine) earlier-Inv

    earlier : Rises env healthy new_machine (act_all env before new_machine)
    earlier = act_all-Rises env healthy before new_machine new_machine-Inv (new_machine-Level env)

    later :
        Rises env healthy
          (act_all env before new_machine)
          (act_all env actions (act_all env before new_machine))
    later =
        act_all-Rises env healthy actions (act_all env before new_machine) earlier-Inv earlier.level

    passes : e.global_seq ≤ (act_all env actions (act_all env before new_machine)).cursor
    passes =
        act_all-passes env healthy actions (act_all env before new_machine) e earlier-Inv
          earlier.level some_budget i (omega (arith, enough))
