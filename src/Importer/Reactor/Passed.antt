-- ===== src/Importer/Reactor/Passed.antt =====
-- What the cursor or the checkpoint passed is settled, over restarts and whatever fails.
use music_downloader.Prelude.{
  ℕ, ◌≤◌, ◌<◌, ◌≡◌, sym, ◌∙◌, subst, true, false, List, [], ◌∷◌, ltb, All, Bool-cases, inl, inr,
  ◌⊎◌, arith,
}
use music_downloader.Eventing.Drain.Feed.{In}
use music_downloader.Eventing.Log.{read_all}
use music_downloader.Eventing.Log.Rows.{
  Numbered, Numbered-within, read_all-Numbered, behind_members,
}
use music_downloader.Importer.Machine.{StoredEvent, Environment, Machine, call}
use music_downloader.Importer.Reactor.{process}
use music_downloader.Importer.Reactor.Running.{
  Action, boots, drains, process_all, drain, seed_stalled, boot, act, act_all, new_machine,
}
use music_downloader.Importer.Reactor.Steady.{Steady, call-Steady, seed_stalled-Steady}
use music_downloader.Importer.Reactor.Settled.{AllSettled}
use music_downloader.Importer.Reactor.Standing.{Inv, Steady-Inv}
use music_downloader.Importer.Reactor.Moving.{members_later, process-MovesOn}

module _ (env : Environment) where
  -- The backlog of a pass counts on from the cursor.
  process_all-Inv :
      (ss : List StoredEvent) (m : Machine)
      → Inv m
      → Numbered m.cursor ss
      → All (λ s. In s m.log) ss
      → Inv (process_all env ss m)
  unfolding process_all
  process_all-Inv [] m h numbered members = h
  process_all-Inv (s ∷ ss) m h numbered members =
      let step = process-MovesOn env s m h members.0 numbered.0 in
      elim step.cursor [
        | inl stays ↦
            rw (stopped (process env s m).cursor s.global_seq (omega (arith, stays, numbered.0)))
              step.inv
        | inr moves ↦ rw (going_on (process env s m).cursor s.global_seq moves) (
            process_all-Inv ss (process env s m) step.inv
              (subst (λ n. Numbered n ss) (sym (moves ∙ numbered.0)) numbered.1)
              (members_later ss step.goes members.1))
      ]
    where
      stopped : (a b : ℕ) → a < b → ltb a b ≡ true
      stopped a b lt = ground arith

      going_on : (a b : ℕ) → a ≡ b → ltb a b ≡ false
      going_on a b e = ground arith

  pub drain-Inv : (m : Machine) → Inv m → Inv (drain env m)
  unfolding drain
  drain-Inv m h = elim (Bool-cases (env.faults m.tick)) [
    | inl fault ↦ rw fault (Steady-Inv going h)
    | inr read ↦ rw read (
        process_all-Inv (read_all m.cursor (call env m).log) (call env m) (Steady-Inv going h)
          (subst (λ n. Numbered n (read_all m.cursor (call env m).log)) (sym going.cursor)
            (read_all-Numbered 0 m.cursor (call env m).log (Steady-Inv going h).numbered
              (omega arith)))
          (behind_members (λ s. ltb m.cursor s.global_seq) (call env m).log))
  ]
    where
      going : Steady m (call env m)
      going = call-Steady env m

  -- A failed load starts over from the first event, of which nothing is asked.
  pub boot-Inv : (horizon : ℕ) (m : Machine) → Inv m → Inv (boot env horizon m)
  unfolding boot
  boot-Inv horizon m h = record {
    numbered = loaded.numbered;
    placed = loaded.placed;
    passed = elim (Bool-cases (env.faults (seed_stalled env horizon m).tick)) [
      | inl fault ↦ rw fault (omega arith, λ e i le. absurd (nothing_first e i le))
      | inr load ↦ rw load loaded.durable
    ];
    durable = loaded.durable;
  }
    where
      loaded : Inv (call env (seed_stalled env horizon m))
      loaded =
          Steady-Inv (call-Steady env (seed_stalled env horizon m))
            (Steady-Inv (seed_stalled-Steady env horizon m) h)

      nothing_first :
          (e : StoredEvent)
          → In e (call env (seed_stalled env horizon m)).log
          → e.global_seq ≤ 0
          → ⊥
      nothing_first e i le = omega (arith, (Numbered-within 0 _ e loaded.numbered i).0, le)

  pub act_all-Inv : (actions : List Action) (m : Machine) → Inv m → Inv (act_all env actions m)
  unfolding act_all act
  act_all-Inv [] m h = h
  act_all-Inv (boots horizon ∷ actions) m h =
      act_all-Inv actions (boot env horizon m) (boot-Inv horizon m h)
  act_all-Inv (drains ∷ actions) m h = act_all-Inv actions (drain env m) (drain-Inv m h)

pub new_machine-Inv : Inv new_machine
new_machine-Inv = record {
  numbered = tt;
  placed = λ e i. absurd i;
  passed = (omega arith, λ e i le. absurd i);
  durable = (omega arith, λ e i le. absurd i);
}

-- Over any boots and drains, whatever the stores and the ports answer and whatever others append, an
-- event that the cursor or the saved checkpoint passed has each of its effects carried out, rejected
-- as stale, or dead-lettered.
pub passed_is_settled :
    (env : Environment) (actions : List Action)
    → (e : StoredEvent) → In e (act_all env actions new_machine).log
    → (e.global_seq ≤ (act_all env actions new_machine).cursor)
      ⊎ (e.global_seq ≤ (act_all env actions new_machine).checkpoint)
    → AllSettled (act_all env actions new_machine).log (act_all env actions new_machine).trace e
passed_is_settled env actions e i (inl le) =
    (act_all-Inv env actions new_machine new_machine-Inv).passed.1 e i le
passed_is_settled env actions e i (inr le) =
    (act_all-Inv env actions new_machine new_machine-Inv).durable.1 e i le
