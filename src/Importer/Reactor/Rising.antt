-- ===== src/Importer/Reactor/Rising.antt =====
-- Where no store fails, a pass of the reactor and a boot keep what is known durable and the tallies
-- below the budget, and do not move the cursor back.
use music_downloader.Prelude.{
  ℕ, ◌+◌, ◌≤◌, ◌<◌, ◌≡◌, sym, ◌∙◌, subst, true, false, List, [], ◌∷◌, ltb, All, inl, inr, ◌⊎◌,
  arith,
}
use music_downloader.Eventing.Drain.Feed.{In, filter-In}
use music_downloader.Eventing.Log.{read_all}
use music_downloader.Eventing.Log.Rows.{Numbered, read_all-Numbered, behind_members}
use music_downloader.Importer.Machine.{StoredEvent, Environment, Machine, call}
use music_downloader.Importer.Reactor.{process}
use music_downloader.Importer.Reactor.Running.{
  Action, boots, drains, process_all, drain, seed_stalled, boot, act, act_all,
}
use music_downloader.Importer.Reactor.Steady.{call-Steady, seed_stalled-Steady}
use music_downloader.Eventing.Log.Versions.{Extends-member}
use music_downloader.Importer.Reactor.Passed.{drain-Inv, boot-Inv}
use music_downloader.Importer.Reactor.Tallies.{tally_at, Sits, Steady-Sits, Sits-trans}
use music_downloader.Importer.Reactor.Standing.{Inv, Steady-Inv}
use music_downloader.Importer.Reactor.Moving.{process-MovesOn, members_later}
use music_downloader.Importer.Reactor.Trying.{stopped, going_on, Level, Sits-Level, process-Tries}

module _ (env : Environment) (healthy : (t : ℕ) → env.faults t ≡ false) where
  -- A pass goes up, from a level machine to a level one.
  pub record Rises (m m' : Machine) : Type 0 where
    pub level : Level env m'
    pub up : m.cursor ≤ m'.cursor
    pub kept : (e : StoredEvent) → In e m.log → In e m'.log

  process_all-Rises :
      (ss : List StoredEvent) (m : Machine)
      → Inv m
      → Level env m
      → Numbered m.cursor ss
      → All (λ s. In s m.log) ss
      → Rises m (process_all env ss m)
  unfolding process_all
  process_all-Rises [] m inv h numbered members = record {
    level = h;
    up = omega arith;
    kept = λ e i. i;
  }
  process_all-Rises (s ∷ ss) m inv h numbered members =
      let tried = process-Tries env healthy s m h numbered.0 in
      let moved = process-MovesOn env s m inv members.0 numbered.0 in
      elim tried.progress [
        | inl moves ↦
            let rest =
              process_all-Rises ss (process env s m) moved.inv tried.level
                (subst (λ n. Numbered n ss) (sym (moves ∙ numbered.0)) numbered.1)
                (members_later ss moved.goes members.1) in
            rw (going_on (process env s m).cursor s.global_seq moves) (record {
              level = rest.level;
              up = omega (arith, rest.up, moves, numbered.0);
              kept = λ e i. rest.kept e (Extends-member moved.goes.extends e i);
            })
        | inr stays ↦
            rw (stopped (process env s m).cursor s.global_seq (omega (arith, stays.0, numbered.0)))
              (record {
                level = tried.level;
                up = omega (arith, stays.0);
                kept = λ e i. Extends-member moved.goes.extends e i;
              })
      ]

  backlog : (m : Machine) → List StoredEvent
  backlog m = read_all m.cursor (call env m).log

  Numbered-backlog : (m : Machine) → Inv m → Numbered (call env m).cursor (backlog m)
  unfolding backlog
  Numbered-backlog m inv =
      subst (λ n. Numbered n (read_all m.cursor (call env m).log)) (sym (call-Steady env m).cursor)
        (read_all-Numbered 0 m.cursor (call env m).log
          ((call-Steady env m).extends.grows.numbered inv.numbered) (omega arith))

  backlog_members : (m : Machine) → All (λ s. In s (call env m).log) (backlog m)
  unfolding backlog
  backlog_members m = behind_members (λ s. ltb m.cursor s.global_seq) (call env m).log

  pub drain-Rises : (m : Machine) → Inv m → Level env m → Rises m (drain env m)
  unfolding drain backlog
  drain-Rises m inv h =
      let risen =
        process_all-Rises (backlog m) (call env m) (Steady-Inv (call-Steady env m) inv)
          (Sits-Level env (Steady-Sits (call-Steady env m)) h) (Numbered-backlog m inv)
          (backlog_members m) in
      rw (healthy m.tick) (record {
        level = risen.level;
        up = omega (arith, risen.up, (call-Steady env m).cursor);
        kept = λ e i. risen.kept e (Extends-member (call-Steady env m).extends e i);
      })

  -- Where an event waits, a pass gets past one or counts an attempt.
  process_all-progress :
      (e : StoredEvent) (ss : List StoredEvent) (m : Machine)
      → Inv m
      → Level env m
      → Numbered m.cursor ss
      → All (λ s. In s m.log) ss
      → In e ss
      → (m.cursor < (process_all env ss m).cursor)
        ⊎ (((process_all env ss m).cursor ≡ m.cursor)
            × (tally_at (m.cursor + 1) (process_all env ss m) ≡ tally_at (m.cursor + 1) m + 1))
  unfolding process_all
  process_all-progress e [] m inv h numbered members i = absurd i
  process_all-progress e (s ∷ ss) m inv h numbered members i =
      let tried = process-Tries env healthy s m h numbered.0 in
      let moved = process-MovesOn env s m inv members.0 numbered.0 in
      elim tried.progress [
        | inl moves ↦
            let rest =
              process_all-Rises ss (process env s m) moved.inv tried.level
                (subst (λ n. Numbered n ss) (sym (moves ∙ numbered.0)) numbered.1)
                (members_later ss moved.goes members.1) in
            rw (going_on (process env s m).cursor s.global_seq moves)
              (inl (omega (arith, rest.up, moves, numbered.0)))
        | inr stays ↦
            rw (stopped (process env s m).cursor s.global_seq (omega (arith, stays.0, numbered.0)))
              (inr (
                stays.0,
                subst (λ k. tally_at k (process env s m) ≡ tally_at k m + 1) numbered.0 stays.1,
              ))
      ]

  pub drain-progress :
      (e : StoredEvent) (m : Machine)
      → Inv m
      → Level env m
      → In e m.log
      → m.cursor < e.global_seq
      → (m.cursor < (drain env m).cursor)
        ⊎ (((drain env m).cursor ≡ m.cursor)
            × (tally_at (m.cursor + 1) (drain env m) ≡ tally_at (m.cursor + 1) m + 1))
  unfolding drain backlog call
  drain-progress e m inv h i lt = rw (healthy m.tick) (
      process_all-progress e (backlog m) (call env m) (Steady-Inv (call-Steady env m) inv)
        (Sits-Level env (Steady-Sits (call-Steady env m)) h) (Numbered-backlog m inv)
        (backlog_members m)
        (filter-In (λ s. ltb m.cursor s.global_seq) e (call env m).log
          (Extends-member (call-Steady env m).extends e i) (lower m.cursor e.global_seq lt)))
    where
      lower : (a b : ℕ) → a < b → ltb a b ≡ true
      lower a b lt' = ground arith

  -- A new process goes on where the old one was.
  pub boot-Sits : (horizon : ℕ) (m : Machine) → Level env m → Sits m (boot env horizon m)
  unfolding boot
  boot-Sits horizon m h = rw (healthy (seed_stalled env horizon m).tick) (record {
    cursor = loaded.checkpoint ∙ h.durable;
    checkpoint = loaded.checkpoint;
    tallies = loaded.tallies;
  })
    where
      loaded : Sits m (call env (seed_stalled env horizon m))
      loaded =
          Sits-trans (Steady-Sits (seed_stalled-Steady env horizon m))
            (Steady-Sits (call-Steady env (seed_stalled env horizon m)))

  pub boot-kept :
      (horizon : ℕ) (m : Machine) (e : StoredEvent) → In e m.log → In e (boot env horizon m).log
  unfolding boot
  boot-kept horizon m e i =
      Extends-member (call-Steady env (seed_stalled env horizon m)).extends e
        (Extends-member (seed_stalled-Steady env horizon m).extends e i)

  pub boot-Rises : (horizon : ℕ) (m : Machine) → Level env m → Rises m (boot env horizon m)
  boot-Rises horizon m h = record {
    level = Sits-Level env (boot-Sits horizon m h) h;
    up = omega (arith, (boot-Sits horizon m h).cursor);
    kept = boot-kept horizon m;
  }

  Rises-trans : {a b c : Machine} → Rises a b → Rises b c → Rises a c
  Rises-trans f g = record {
    level = g.level;
    up = omega (arith, f.up, g.up);
    kept = λ e i. g.kept e (f.kept e i);
  }

  pub act_all-Rises :
      (actions : List Action) (m : Machine) → Inv m → Level env m → Rises m (act_all env actions m)
  unfolding act_all act
  act_all-Rises [] m inv h = record { level = h; up = omega arith; kept = λ e i. i }
  act_all-Rises (boots horizon ∷ actions) m inv h =
      let risen = boot-Rises horizon m h in
      Rises-trans risen
        (act_all-Rises actions (boot env horizon m) (boot-Inv env horizon m inv) risen.level)
  act_all-Rises (drains ∷ actions) m inv h =
      let risen = drain-Rises m inv h in
      Rises-trans risen (act_all-Rises actions (drain env m) (drain-Inv env m inv) risen.level)
