-- ===== src/Downloader/Reactor/CatchingUp.antt =====
-- The catch-up over the backlog keeps the invariant.
use music_downloader.Eventing.Log.Rows.{Numbered, read_all-Numbered, behind_members}
use music_downloader.Prelude.{
  ℕ, ◌+◌, ◌≡◌, sym, ◌∙◌, subst, false, List, [], ◌∷◌, ltb, All, Bool-cases, inl, inr, ◌⊎◌, arith,
}
use music_downloader.Eventing.Drain.Feed.{In}
use music_downloader.Downloader.Log.{StoredEvent, read_all}
use music_downloader.Downloader.Machine.{Environment, Machine, call}
use music_downloader.Downloader.Reactor.{process, process_all}
use music_downloader.Downloader.Reactor.Scheduler.{catch_up}
use music_downloader.Downloader.Reactor.Steady.{call-Steady}
use music_downloader.Downloader.Reactor.Invariant.{Inv, Onward, Onward-refl, Onward-trans}
use music_downloader.Downloader.Reactor.Dispatching.{Goes, Steady-Goes}
use music_downloader.Downloader.Reactor.Passes.{Passes}
use music_downloader.Downloader.Reactor.Passing.{process-Passes}

-- The invariant is kept, and what was handled stays so.
pub record Holds (m m' : Machine) : Type 0 where
  pub inv : Inv m'
  pub onward : Onward m m'

pub Goes-Holds : {m m' : Machine} → Goes m m' → Holds m m'
Goes-Holds g = record { inv = g.inv; onward = g.onward }

pub Holds-trans : {a b c : Machine} → Holds a b → Holds b c → Holds a c
Holds-trans f g = record { inv = g.inv; onward = Onward-trans f.onward g.onward }

rows_stay :
    {m m' : Machine} (xs : List StoredEvent)
    → Onward m m'
    → All (λ s. In s m.log) xs
    → All (λ s. In s m'.log) xs
rows_stay [] f h = tt
rows_stay (x ∷ xs) f h = (f.member x h.0, rows_stay xs f h.1)

module _ (env : Environment) where
  process_all-Holds :
      (backlog : List StoredEvent) (m : Machine)
      → Inv m
      → All (λ s. In s m.log) backlog
      → Numbered m.cursor backlog
      → Holds m (process_all env backlog m)
  unfolding process_all
  process_all-Holds [] m h known next = record { inv = h; onward = Onward-refl m }
  process_all-Holds (s ∷ backlog) m h known next =
      elim (Bool-cases (ltb (process env s m).cursor s.global_seq)) [
        | inl held ↦ rw held (record { inv = passing.inv; onward = passing.onward })
        | inr passed ↦
            let rest =
              process_all-Holds backlog (process env s m) passing.inv
                (rows_stay backlog passing.onward known.1)
                (subst (λ n. Numbered n backlog) (sym (moved passing.cursor passed)) next.1) in
            rw passed (record { inv = rest.inv; onward = Onward-trans passing.onward rest.onward })
      ]
    where
      passing : Passes s.global_seq m (process env s m)
      passing = process-Passes env s m h (known.0, next.0)

      stuck : (a b : ℕ) → a ≡ m.cursor → b ≡ m.cursor + 1 → ltb a b ≡ false → ⊥
      stuck a b e at f = ground arith

      moved :
          ((process env s m).cursor ≡ m.cursor) ⊎ ((process env s m).cursor ≡ s.global_seq)
          → ltb (process env s m).cursor s.global_seq ≡ false
          → (process env s m).cursor ≡ m.cursor + 1
      moved (inl same) passed =
          absurd (stuck (process env s m).cursor s.global_seq same next.0 passed)
      moved (inr at) passed = at ∙ next.0

  pub catch_up-Holds : (m : Machine) → Inv m → Holds m (catch_up env m)
  unfolding catch_up
  catch_up-Holds m h = elim (Bool-cases (env.faults m.tick)) [
    | inl fault ↦ rw fault (Goes-Holds calling)
    | inr read ↦ rw read (
        Holds-trans (Goes-Holds calling) (
          process_all-Holds (read_all m.cursor (call env m).log) (call env m) calling.inv
            (behind_members (λ s. ltb m.cursor s.global_seq) (call env m).log)
            (subst (λ n. Numbered n (read_all m.cursor (call env m).log)) (sym calling.cursor)
              (read_all-Numbered 0 m.cursor (call env m).log calling.inv.numbered (omega arith)))))
  ]
    where
      calling : Goes m (call env m)
      calling = Steady-Goes (call-Steady env m) h
