-- ===== src/Downloader/Reactor/Passes.antt =====
-- Steps that pass an event or stay, and the search for a park.
use music_downloader.Prelude.{
  ℕ, ◌≤◌, ◌≡◌, ◌≢◌, refl, sym, ◌∙◌, subst, false, none, some, List, [], ◌∷◌, String, str_eq, eq_iff,
  Bool-cases, inl, inr, ◌⊎◌, arith,
}
use music_downloader.Eventing.Drain.Feed.{In}
use music_downloader.Downloader.Machine.{ParkedEffect, Machine, find_park}
use music_downloader.Downloader.Reactor.Invariant.{Inv, Onward, Onward-trans}
use music_downloader.Downloader.Reactor.Dispatching.{Goes}

-- A step that keeps the invariant and leaves the cursor, or moves it to an event.
pub record Passes (seq : ℕ) (m m' : Machine) : Type 0 where
  pub inv : Inv m'
  pub onward : Onward m m'
  pub cursor : (m'.cursor ≡ m.cursor) ⊎ (m'.cursor ≡ seq)

pub Goes-Passes : {seq : ℕ} {m m' : Machine} → Goes m m' → Passes seq m m'
Goes-Passes g = record { inv = g.inv; onward = g.onward; cursor = inl g.cursor }

same_or {ℓ} : {A : Type ℓ} {a b c seq : A} → b ≡ a → (c ≡ b) ⊎ (c ≡ seq) → (c ≡ a) ⊎ (c ≡ seq)
same_or e (inl same) = inl (same ∙ e)
same_or e (inr moved) = inr moved

pub after_Goes : {seq : ℕ} {a b c : Machine} → Goes a b → Passes seq b c → Passes seq a c
after_Goes g p = record {
  inv = p.inv;
  onward = Onward-trans g.onward p.onward;
  cursor = same_or g.cursor p.cursor;
}

pub then_Goes : {seq : ℕ} {a b c : Machine} → Passes seq a b → Goes b c → Passes seq a c
then_Goes {seq} {a} {b} {c} p g = record {
  inv = g.inv;
  onward = Onward-trans p.onward g.onward;
  cursor = subst (λ n. (n ≡ a.cursor) ⊎ (n ≡ seq)) (sym g.cursor) p.cursor;
}

pub saved-Goes :
    (m : Machine) (seq : ℕ) → Inv m → seq ≤ m.cursor → Goes m (record m { checkpoint = seq })
saved-Goes m seq h le = record {
  inv = record {
    numbered = h.numbered;
    behind = h.behind;
    durable = le;
    kept = h.kept;
    sound = h.sound;
    ordered = h.ordered;
  };
  onward = record {
    handled = λ e i. i;
    member = λ e i. i;
    old = λ e i le'. i;
    longer = omega arith;
  };
  cursor = refl;
}

-- What `find` answers.
pub find_park-none :
    (id : String) (p : ParkedEffect) (ps : List ParkedEffect)
    → find_park id ps ≡ none
    → In p ps
    → p.stream_id ≢ id
find_park-none id p [] e i = absurd i
find_park-none id p (q ∷ ps) e i = elim (Bool-cases (str_eq q.stream_id id)) [
  | inl same ↦ absurd (none-ne-some (rw same at e))
  | inr other ↦ apart (find_park-none id p ps) other (rw other at e) i
]
  where
    none-ne-some : some q ≡ none → ⊥
    none-ne-some e = cc

    apart :
        (find_park id ps ≡ none → In p ps → p.stream_id ≢ id)
        → str_eq q.stream_id id ≡ false
        → find_park id ps ≡ none
        → In p (q ∷ ps)
        → p.stream_id ≢ id
    apart ih other e (inl same) at =
        cc (other, (eq_iff q.stream_id id).1 (subst (λ x. x.stream_id ≡ id) same at))
    apart ih other e (inr i) at = ih e i at

pub find_park-some :
    (id : String) (entry : ParkedEffect) (ps : List ParkedEffect)
    → find_park id ps ≡ some entry
    → In entry ps × (entry.stream_id ≡ id)
find_park-some id entry [] e = cc
find_park-some id entry (q ∷ ps) e = elim (Bool-cases (str_eq q.stream_id id)) [
  | inl same ↦ here (rw same at e) ((eq_iff q.stream_id id).0 same)
  | inr other ↦ let ih = find_park-some id entry ps (rw other at e) in (inr ih.0, ih.1)
]
  where
    here : some q ≡ some entry → q.stream_id ≡ id → In entry (q ∷ ps) × (entry.stream_id ≡ id)
    here same at = (inl (cc), cc)
