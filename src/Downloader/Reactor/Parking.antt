-- ===== src/Downloader/Reactor/Parking.antt =====
-- Dispatching an event, and parking its stream, keep the invariant.
use music_downloader.Prelude.{
  ℕ, ◌≡◌, ◌≢◌, ◌∙◌, leb, refl, sym, subst, Bool, true, false, not, List, [], ◌∷◌, String, str_eq,
  eq_iff, Bool-cases, inl, inr, ◌⊎◌, arith,
}
use music_downloader.Eventing.Drain.Feed.{In, filter-In}
use music_downloader.Downloader.Download.React.{Effect}
use music_downloader.Downloader.Log.{StoredEvent}
use music_downloader.Downloader.Retry.{RetrySchedule, retry, exhausted, next_retry}
use music_downloader.Downloader.Machine.{
  ParkedEffect, landed, Environment, Machine, call, clear_park, park,
}
use music_downloader.Downloader.Lander.{land}
use music_downloader.Downloader.Reactor.{when_landed, write_park, scheduled_park, park_stream}
use music_downloader.Downloader.Reactor.Steady.{call-Steady, land-Steady}
use music_downloader.Downloader.Reactor.Invariant.{Handled, Parked, IsSound, Inv, IsSound-Onward}
use music_downloader.Downloader.Reactor.Dispatching.{
  Goes, Goes-trans, Steady-Goes, IsNext, noted-Goes,
}

In-clear :
    (id : String) (q : ParkedEffect) (ps : List ParkedEffect)
    → In q (clear_park id ps)
    → In q ps × (q.stream_id ≢ id)
In-clear id q [] i = absurd i
In-clear id q (p ∷ ps) i = elim (Bool-cases (str_eq p.stream_id id)) [
  | inl same ↦ let ih = In-clear id q ps (rw same at i) in (inr ih.0, ih.1)
  | inr other ↦ found (In-clear id q ps) other (rw other at i)
]
  where
    found :
        (In q (clear_park id ps) → In q ps × (q.stream_id ≢ id))
        → str_eq p.stream_id id ≡ false
        → In q (p ∷ clear_park id ps)
        → In q (p ∷ ps) × (q.stream_id ≢ id)
    found ih other (inl same) = (
      inl same,
      λ e. cc (other, (eq_iff p.stream_id id).1 (subst (λ x. x.stream_id ≡ id) same e)),
    )
    found ih other (inr i') = (inr (ih i').0, (ih i').1)

pub clear-In :
    (id : String) (q : ParkedEffect) (ps : List ParkedEffect)
    → In q ps
    → (q.stream_id ≡ id) ⊎ In q (clear_park id ps)
clear-In id q ps i = elim (Bool-cases (str_eq q.stream_id id)) [
  | inl same ↦ inl ((eq_iff q.stream_id id).0 same)
  | inr other ↦ inr (filter-In (λ p. not (str_eq p.stream_id id)) q ps i (rw other refl))
]

-- A sound entry takes the place of the park of its stream.
module _ (entry : ParkedEffect) (m : Machine) (h : Inv m)
    (sound : IsSound m.log m.trace entry) where
  abbrev with_park : Machine
  with_park = record m { parks = park entry m.parks }

  still_kept :
      (e : StoredEvent)
      → In e m.log
      → Handled m.trace e ⊎ Parked m.parks e
      → Handled m.trace e ⊎ Parked (park entry m.parks) e
  still_kept e i (inl done) = inl done
  still_kept e i (inr (p, at, same, le)) = elim (clear-In entry.stream_id p m.parks at) [
    | inl replaced ↦ elim (Bool-cases (leb entry.global_seq e.global_seq)) [
      | inl behind ↦ inr (entry, inl refl, sym replaced ∙ same, ground arith)
      | inr ahead ↦ inl (sound.1 e i (sym same ∙ replaced) (ground arith))
    ]
    | inr stays ↦ inr (p, inr stays, same, le)
  ]

  pub with_park-Goes : Goes m with_park
  with_park-Goes = record {
    inv = record {
      numbered = h.numbered;
      behind = h.behind;
      durable = h.durable;
      kept = λ e i le. still_kept e i (h.kept e i le);
      sound = sound_of;
      ordered = h.ordered;
    };
    onward = record {
      handled = λ e i. i;
      member = λ e i. i;
      old = λ e i le. i;
      longer = omega arith;
    };
    cursor = refl;
  }
    where
      sound_of : (p : ParkedEffect) → In p (park entry m.parks) → IsSound m.log m.trace p
      sound_of p (inl same) = subst (λ q. IsSound m.log m.trace q) (sym same) sound
      sound_of p (inr i) = h.sound p (In-clear entry.stream_id p m.parks i).0

module _ (env : Environment) where
  pub write_park-Goes :
      (entry : ParkedEffect) (m : Machine)
      → Inv m
      → IsSound m.log m.trace entry
      → Goes m (write_park env entry m).1
        × ((write_park env entry m).0 ≡ true → In entry (write_park env entry m).1.parks)
  unfolding write_park
  write_park-Goes entry m h sound = elim (Bool-cases (env.faults m.tick)) [
    | inl fault ↦ rw fault (calling, λ e. cc)
    | inr written ↦ rw written (
      Goes-trans calling (
          with_park-Goes entry (call env m) calling.inv
            (IsSound-Onward entry calling.onward h sound)),
      λ e. inl refl,
    )
  ]
    where
      calling : Goes m (call env m)
      calling = Steady-Goes (call-Steady env m) h

  when_landed-Goes :
      (m : Machine) (s : StoredEvent) (r : Bool × Machine)
      → Goes m r.1
      → Goes m (when_landed env s r).1
        × ((when_landed env s r).0 ≡ true → Handled (when_landed env s r).1.trace s)
  when_landed-Goes m s (true, n) g =
      (Goes-trans g (noted-Goes env (landed s) n g.inv g.inv.ordered), λ e. inr (inl refl))
  when_landed-Goes m s (false, n) g = (g, λ e. cc)

  pub landing-Goes :
      (s : StoredEvent) (effect : Effect) (attempt : ℕ) (m : Machine)
      → Inv m
      → Goes m (when_landed env s (land env s effect attempt m)).1
        × ((when_landed env s (land env s effect attempt m)).0 ≡ true
            → Handled (when_landed env s (land env s effect attempt m)).1.trace s)
  landing-Goes s effect attempt m h =
      when_landed-Goes m s (land env s effect attempt m)
        (Steady-Goes (land-Steady env s effect attempt m) h)

  abbrev pub Rests : Machine → StoredEvent → Type 0
  Rests m s = Handled m.trace s ⊎ Parked m.parks s

  scheduled_park-Goes :
      (s : StoredEvent) (effect : Effect) (now : ℕ) (schedule : RetrySchedule) (m : Machine)
      → Inv m
      → IsNext m s
      → Goes m (scheduled_park env s effect now schedule m).1
        × ((scheduled_park env s effect now schedule m).0 ≡ true
            → Rests (scheduled_park env s effect now schedule m).1 s)
  unfolding scheduled_park
  scheduled_park-Goes s effect now exhausted m h next =
      let landing = landing-Goes s effect 1 m h in (landing.0, λ e. inl (landing.1 e))
  scheduled_park-Goes s effect now (retry at) m h next =
      let writing =
        write_park-Goes
          (record {
            stream_id = s.stream_id;
            global_seq = s.global_seq;
            attempt = 1;
            parked_at = now;
            next_retry_at = at;
          })
          m h ((s, next.0, refl, refl), next.1) in
      (writing.0, λ e. inr (_, writing.1 e, refl, omega arith))

  pub park_stream-Goes :
      (s : StoredEvent) (effect : Effect) (m : Machine)
      → Inv m
      → IsNext m s
      → Goes m (park_stream env s effect m).1
        × ((park_stream env s effect m).0 ≡ true → Rests (park_stream env s effect m).1 s)
  unfolding park_stream
  park_stream-Goes s effect m h next =
      scheduled_park-Goes s effect (env.now m.tick)
        (next_retry env.policy 1 (env.now m.tick) (env.now m.tick) (env.random m.tick)) m h next
