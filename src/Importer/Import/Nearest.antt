-- ===== src/Importer/Import/Nearest.antt =====
-- The best candidate is one of them, and none is nearer.
use music_downloader.Prelude.{
  ◌≤◌, ◌≡◌, refl, ap, ◌∙◌, List, [], ◌∷◌, ltb, arith, ◌⊎◌, inl, inr, All, if◌then◌else◌, Bool-cases,
}
use music_downloader.Importer.Import.Events.{MetadataMatch}
use music_downloader.Importer.Import.Decide.{best_from, best_of, nearer_of}

-- One of the candidates.
abbrev pub IsAmong : MetadataMatch → List MetadataMatch → Type 0
IsAmong m [] = ⊥
IsAmong m (c ∷ cs) = (m ≡ c) ⊎ IsAmong m cs

-- One of the candidates, and none is nearer.
abbrev pub IsNearest : MetadataMatch → List MetadataMatch → Type 0
IsNearest m cs = IsAmong m cs × All (λ c. m.distance ≤ c.distance) cs

nearer_of-le :
    (best next : MetadataMatch)
    → ((nearer_of best next).distance ≤ best.distance)
      × ((nearer_of best next).distance ≤ next.distance)
nearer_of-le best next = ground arith

nearer_of-cases :
    (best next : MetadataMatch) → (nearer_of best next ≡ best) ⊎ (nearer_of best next ≡ next)
nearer_of-cases best next = elim (Bool-cases (ltb next.distance best.distance)) [
  | inl nearer ↦ inr (ap (λ b. if b then next else best) nearer)
  | inr farther ↦ inl (ap (λ b. if b then next else best) farther)
]

best_from-le :
    (best : MetadataMatch) (cs : List MetadataMatch)
    → ((best_from best cs).distance ≤ best.distance)
      × All (λ c. (best_from best cs).distance ≤ c.distance) cs
unfolding best_from
best_from-le best [] = (omega arith, tt)
best_from-le best (c ∷ cs) =
    let rest = best_from-le (nearer_of best c) cs in
    let steps = nearer_of-le best c in
    (omega (arith, rest.0, steps.0), (omega (arith, rest.0, steps.1), rest.1))

best_from-IsAmong :
    (best : MetadataMatch) (cs : List MetadataMatch)
    → (best_from best cs ≡ best) ⊎ IsAmong (best_from best cs) cs
unfolding best_from
best_from-IsAmong best [] = inl refl
best_from-IsAmong best (c ∷ cs) = elim (best_from-IsAmong (nearer_of best c) cs) [
  | inr among ↦ inr (inr among)
  | inl e ↦ elim (nearer_of-cases best c) [
    | inl kept ↦ inl (e ∙ kept)
    | inr taken ↦ inr (inl (e ∙ taken))
  ]
]

pub best_of-IsNearest :
    (c : MetadataMatch) (cs : List MetadataMatch)
    → IsNearest (best_of (record { head = c; tail = cs })) (c ∷ cs)
unfolding best_of
best_of-IsNearest c cs = (
  elim (best_from-IsAmong c (c ∷ cs)) [ inl e ↦ inl e | inr among ↦ among ],
  (best_from-le c (c ∷ cs)).1,
)
