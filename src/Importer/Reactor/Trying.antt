-- ===== src/Importer/Reactor/Trying.antt =====
-- Where no store fails, an event that is processed is passed, or one more attempt of it is counted.
use music_downloader.Prelude.{
  ℕ, ◌+◌, ◌<◌, ◌≡◌, refl, sym, ap, ◌∙◌, subst, Bool, true, false, not, leb, ltb, ◌==◌, filter-All,
  inl, inr, ◌⊎◌, arith,
}
use music_downloader.Eventing.Log.{read_stream}
use music_downloader.Importer.Machine.{
  StoredEvent, Environment, Machine, call, clear_tally, find_tally, attempt_of,
}
use music_downloader.Importer.Reactor.{
  is_stalled, effects_of, Outcome, held, settled, clear_park, resolve_stalled, advance, finish,
  process,
}
use music_downloader.Importer.Reactor.Steady.{call-Steady, resolve_stalled-Steady}
use music_downloader.Importer.Reactor.Tallies.{
  tally_at, Sits, Steady-Sits, Below, Tallies, dispatch_effects-Tallies,
}

pub stopped : (a b : ℕ) → a < b → ltb a b ≡ true
stopped a b lt = ground arith

pub going_on : (a b : ℕ) → a ≡ b → ltb a b ≡ false
going_on a b e = ground arith

module _ (env : Environment) where
  -- What the process knows is durable, and no tally has come to the budget.
  pub record Level (m : Machine) : Type 0 where
    pub durable : m.checkpoint ≡ m.cursor
    pub below : Below env.retry_budget m.tallies

  pub Sits-Level : {m m' : Machine} → Sits m m' → Level m → Level m'
  Sits-Level f h = record {
    durable = f.checkpoint ∙ h.durable ∙ sym f.cursor;
    below = subst (Below env.retry_budget) (sym f.tallies) h.below;
  }

  -- An event is passed, or it is held with one more attempt counted.
  pub record Tries (seq : ℕ) (m m' : Machine) : Type 0 where
    pub level : Level m'
    pub progress :
        (m'.cursor ≡ seq) ⊎ ((m'.cursor ≡ m.cursor) × (tally_at seq m' ≡ tally_at seq m + 1))

  Sits-Tries : {seq : ℕ} {a b c : Machine} → Sits a b → Tries seq b c → Tries seq a c
  Sits-Tries {seq} f g = record {
    level = g.level;
    progress = elim g.progress [
      | inl moves ↦ inl moves
      | inr stays ↦
          inr
            (stays.0 ∙ f.cursor, stays.1 ∙ ap (λ ts. attempt_of (find_tally seq ts) + 1) f.tallies)
    ];
  }

  module _ (healthy : (t : ℕ) → env.faults t ≡ false) where
    advance-Tries :
        (s : StoredEvent) (was_stalled dead : Bool) (m : Machine)
        → Level m
        → Tries s.global_seq m (advance env s was_stalled dead m)
    unfolding advance clear_park
    advance-Tries s was_stalled dead m h =
        rw (healthy m.tick, healthy (call env m).tick)
          (record {
            level = record {
              durable = after.checkpoint ∙ (call-Steady env m').checkpoint;
              below = subst (Below env.retry_budget) (sym after.tallies) cleared-Below;
            };
            progress = inl refl;
          })
      where
        m' : Machine
        m' = record (call env m) { checkpoint = s.global_seq }

        cleared : Machine
        cleared = record (call env m') { tallies = clear_tally s.global_seq (call env m').tallies }

        cleared-Below : Below env.retry_budget cleared.tallies
        cleared-Below =
            filter-All (λ p. p.attempt < env.retry_budget) (λ p. not (p.global_seq == s.global_seq))
              (call env m').tallies
              (subst (Below env.retry_budget)
                (sym ((call-Steady env m').tallies ∙ (call-Steady env m).tallies)) h.below)

        after : Sits cleared (resolve_stalled env s.stream_id was_stalled dead cleared)
        after = Steady-Sits (resolve_stalled-Steady env s.stream_id was_stalled dead cleared)

    finish-Tries :
        (s : StoredEvent) (was_stalled : Bool) (m : Machine) (r : Outcome × Machine)
        → Level m
        → Tallies env s m r
        → Tries s.global_seq m (finish env s was_stalled r)
    unfolding finish
    finish-Tries s was_stalled m (held, n) h c = record {
      level = record { durable = c.checkpoint ∙ h.durable ∙ sym c.cursor; below = c.below h.below };
      progress = inr (c.cursor, c.counted);
    }
    finish-Tries s was_stalled m (settled dead, n) h f =
        Sits-Tries f (advance-Tries s was_stalled dead n (Sits-Level f h))

    pub process-Tries :
        (s : StoredEvent) (m : Machine)
        → Level m
        → s.global_seq ≡ m.cursor + 1
        → Tries s.global_seq m (process env s m)
    unfolding process
    process-Tries s m h at =
        rw (ahead s.global_seq m.cursor at, healthy m.tick)
          (Sits-Tries going (
            finish-Tries s (is_stalled s.stream_id (call env m).stalled) (call env m) _
              (Sits-Level going h)
              (dispatch_effects-Tallies env healthy s
                (effects_of s (read_stream s.stream_id (call env m).log)) false (call env m))))
      where
        going : Sits m (call env m)
        going = Steady-Sits (call-Steady env m)

        ahead : (a b : ℕ) → a ≡ b + 1 → leb a b ≡ false
        ahead a b e = ground arith
