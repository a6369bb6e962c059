-- ===== src/Eventing/Drain/Consuming.antt =====
-- A batch is consumed in order: the cursor moves past an item only after a step on it succeeded.
use music_downloader.Prelude.{
  ℕ, zero, suc, ◌≤◌, ◌<◌, ◌≡◌, refl, sym, ap, subst, Bool, true, false, List, [], ◌∷◌, ltb, leb,
  Result, ok, err, arith, Bool-cases, inl, inr, All, filter,
}
use music_downloader.Eventing.Drain.{
  DrainFailure, transient, permanent, is_permanent, DrainDependencies, Call, stepped, failed, Drain,
  after_call, advance, attempted, consume_from, consume, and_then, consume_all, skip_to,
}
use music_downloader.Eventing.Drain.Feed.{
  In, Ascending, filter-In, filter-Ascending, In-All, between, Delivers,
}

module _ {Item World : Type 0} (deps : DrainDependencies Item World) where
  -- The items of the log behind the cursor, up to `to`, are still to come, in order.
  abbrev pub Awaits : List Item → ℕ → List Item → Drain Item World → Type 0
  Awaits log to items d =
      Ascending deps.position_of items
      × ((item : Item)
          → In item log
          → d.cursor < deps.position_of item
          → deps.position_of item ≤ to
          → In item items)

  module _ (log : List Item) (from : ℕ) where
    traced :
        (call : Call Item) (d : Drain Item World)
        → Delivers deps log from d
        → Delivers deps log from (after_call deps call d)
    traced call d h = λ item l a b. inr (h item l a b)

    module _ (to : ℕ) where
      abbrev pub Consumed : List Item → Bool × Drain Item World → Type 0
      Consumed items (true, d) = Delivers deps log from d × Awaits log to items d
      Consumed items (false, d) = Delivers deps log from d

      -- The head was stepped on: the cursor may move to it.
      moved_to-Delivers :
          (x : Item) (xs : List Item) (d : Drain Item World)
          → Delivers deps log from d
          → Awaits log to (x ∷ xs) d
          → deps.position_of x ≤ to
          → In (stepped x) d.trace
          → (item : Item) → In item log
          → from < deps.position_of item
          → deps.position_of item ≤ deps.position_of x
          → In (stepped item) d.trace
      moved_to-Delivers x xs d h w reached done item l a b =
          elim (Bool-cases (leb (deps.position_of item) d.cursor)) [
            | inl old ↦ h item l a (ground arith)
            | inr fresh ↦ elim (w.1 item l (ground arith) (omega arith)) [
              | inl same ↦ subst (λ i. In (stepped i) d.trace) (sym same) done
              | inr later ↦
                  let past =
                    In-All (λ y. deps.position_of x < deps.position_of y) item xs w.0.0 later in
                  absurd (omega (arith, past))
            ]
          ]

      advanced-Consumed :
          (x : Item) (xs : List Item) (d : Drain Item World)
          → Delivers deps log from d
          → Awaits log to (x ∷ xs) d
          → deps.position_of x ≤ to
          → In (stepped x) d.trace
          → Consumed xs (advance deps (deps.position_of x) d)
      unfolding advance
      advanced-Consumed x xs d h w reached done =
          elim (Bool-cases (leb (deps.position_of x) d.cursor)) [
            | inl behind ↦ rw behind h
            | inr ahead ↦ elim (Bool-cases (deps.try_save (deps.position_of x) d.world)) [
              | inl kept ↦
                  rw (ahead, kept)
                    ((
                      λ item l a b. inr (moved_to-Delivers x xs d h w reached done item l a b),
                      (
                        w.0.1,
                        λ item l a b.
                            still_awaited item (ground arith) a (w.1 item l (ground arith) b),
                      ),
                    ))
              | inr lost ↦ rw (ahead, lost) (λ item l a b. inr (h item l a b))
            ]
          ]
        where
          still_awaited :
              (item : Item)
              → d.cursor < deps.position_of x
              → deps.position_of x < deps.position_of item
              → In item (x ∷ xs)
              → In item xs
          still_awaited item c a (inl same) =
              let at_x : deps.position_of item ≡ deps.position_of x = ap deps.position_of same in
              absurd (omega (arith, at_x))
          still_awaited item c a (inr later) = later

      attempted-Consumed :
          (outcome : Result DrainFailure Unit) (x : Item) (xs : List Item) (d : Drain Item World)
          (retry : Drain Item World → Bool × Drain Item World)
          → ((d' : Drain Item World)
              → Delivers deps log from d'
              → Awaits log to (x ∷ xs) d'
              → Consumed xs (retry d'))
          → Delivers deps log from d
          → Awaits log to (x ∷ xs) d
          → deps.position_of x ≤ to
          → Consumed xs (attempted deps outcome x d retry)
      unfolding is_permanent
      attempted-Consumed (ok done) x xs d retry again h w reached =
          advanced-Consumed x xs (after_call deps (stepped x) d) (traced (stepped x) d h) w reached
            (inl refl)
      attempted-Consumed (err permanent) x xs d retry again h w reached =
          traced (failed x permanent) d h
      attempted-Consumed (err transient) x xs d retry again h w reached =
          again _ (traced (failed x transient) d h) w

      consume_from-Consumed :
          (left : ℕ) (x : Item) (xs : List Item) (d : Drain Item World)
          → Delivers deps log from d
          → Awaits log to (x ∷ xs) d
          → deps.position_of x ≤ to
          → Consumed xs (consume_from deps left x d)
      unfolding consume_from
      consume_from-Consumed zero x xs d h w reached = h
      consume_from-Consumed (suc left) x xs d h w reached =
          attempted-Consumed (deps.try_step x d.world) x xs d (λ d'. consume_from deps left x d')
            (λ d' h' w'. consume_from-Consumed left x xs d' h' w' reached) h w reached

      and_then-Consumed :
          (items : List Item) (r : Bool × Drain Item World)
          (go : Drain Item World → Bool × Drain Item World)
          → ((d : Drain Item World)
              → Delivers deps log from d
              → Awaits log to items d
              → Consumed [] (go d))
          → Consumed items r
          → Consumed [] (and_then deps r go (λ d. (false, d)))
      and_then-Consumed items (true, d) go keeps h = keeps d h.0 h.1
      and_then-Consumed items (false, d) go keeps h = h

      consume_all-Consumed :
          (items : List Item) (d : Drain Item World)
          → All (λ x. deps.position_of x ≤ to) items
          → Delivers deps log from d
          → Awaits log to items d
          → Consumed [] (consume_all deps items d)
      unfolding consume_all consume
      consume_all-Consumed [] d reach h w = (h, w)
      consume_all-Consumed (x ∷ xs) d reach h w =
          and_then-Consumed xs (consume deps x d) (λ d'. consume_all deps xs d')
            (λ d' h' w'. consume_all-Consumed xs d' reach.1 h' w')
            (consume_from-Consumed deps.attempts x xs d h w reach.0)

      pub skip_to-Delivers :
          (d : Drain Item World)
          → Delivers deps log from d
          → Awaits log to [] d
          → Delivers deps log from (skip_to deps to d).1
      unfolding skip_to advance
      skip_to-Delivers d h w = elim (Bool-cases (ltb d.cursor to)) [
        | inr scanned ↦ rw scanned h
        | inl ahead ↦ elim (Bool-cases (leb to d.cursor)) [
          | inl behind ↦ rw (ahead, behind) h
          | inr beyond ↦ elim (Bool-cases (deps.try_save to d.world)) [
            | inr lost ↦ rw (ahead, beyond, lost) (λ item l a b. inr (h item l a b))
            | inl kept ↦
                rw (ahead, beyond, kept)
                  (λ item l a b. inr (elim (Bool-cases (leb (deps.position_of item) d.cursor)) [
                    | inl old ↦ h item l a (ground arith)
                    | inr fresh ↦ absurd (w.1 item l (ground arith) b)
                  ]))
          ]
        ]
      ]

    reached-All :
        (to : ℕ) (p : Item → Bool) (xs : List Item)
        → ((x : Item) → p x ≡ true → deps.position_of x ≤ to)
        → All (λ x. deps.position_of x ≤ to) (filter p xs)
    reached-All to p [] f = tt
    reached-All to p (x ∷ xs) f = elim (Bool-cases (p x)) [
      | inl kept ↦ rw kept (f x kept, reached-All to p xs f)
      | inr dropped ↦ rw dropped (reached-All to p xs f)
    ]

    -- A batch of the feed is what its cursor awaits.
    pub batch-Consumed :
        (to : ℕ) (items : List Item) (d : Drain Item World)
        → Ascending deps.position_of log
        → items ≡ filter (between deps d.cursor to) log
        → Delivers deps log from d
        → Consumed to [] (consume_all deps items d)
    batch-Consumed to items d asc e h =
        subst (λ xs. Consumed to [] (consume_all deps xs d)) (sym e)
          (consume_all-Consumed to (filter (between deps d.cursor to) log) d
            (reached-All to (between deps d.cursor to) log (λ x b. ground arith)) h
            (
              filter-Ascending deps.position_of (between deps d.cursor to) log asc,
              λ item l a b. filter-In (between deps d.cursor to) item log l (ground arith),
            ))
