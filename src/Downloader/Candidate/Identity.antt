-- ===== src/Downloader/Candidate/Identity.antt =====
-- What the key of a candidate tells apart.
use music_downloader.Prelude.{ℕ, ◌≡◌, ◌≢◌, sym, ap, ◌∙◌, List, [], ◌∷◌, ◌++◌, String, arith, All}
use music_downloader.Text.{codes, decimal}
use music_downloader.Text.Laws.{codes-cat, codes_injective, decimal_injective}
use music_downloader.Downloader.Candidate.{CandidateIdentity, candidate_key, key_separator}

-- A text without the separator.
abbrev pub HasNoSeparator : String → Type 0
HasNoSeparator s = All (λ c. c ≢ 0) (codes s)

-- Up to the first separator, two lists with none before it agree.
split_at_separator :
    (xs ys us vs : List ℕ)
    → All (λ c. c ≢ 0) xs
    → All (λ c. c ≢ 0) ys
    → xs ++ 0 ∷ us ≡ ys ++ 0 ∷ vs
    → (xs ≡ ys) × (us ≡ vs)
split_at_separator [] [] us vs hx hy e = ground arith
split_at_separator [] (y ∷ ys) us vs hx hy e = absurd (hy.0 (ground arith))
split_at_separator (x ∷ xs) [] us vs hx hy e = absurd (hx.0 (ground arith))
split_at_separator (x ∷ xs) (y ∷ ys) us vs hx hy e =
    ground (arith, split_at_separator xs ys us vs hx.1 hy.1)

codes-candidate_key :
    (i : CandidateIdentity)
    → codes (candidate_key i)
      ≡ codes i.username ++ 0 ∷ (codes i.path ++ 0 ∷ codes (decimal i.size_bytes))
unfolding candidate_key
codes-candidate_key i =
    codes-cat i.username _
    ∙ ap (λ r. codes i.username ++ r)
        (codes-cat key_separator _
          ∙ ap (λ r. 0 ∷ r)
              (codes-cat i.path _
                ∙ ap (λ r. codes i.path ++ r) (codes-cat key_separator (decimal i.size_bytes))))

-- Two identities whose user name and path hold no separator have the same key only if they are
-- the same identity.
pub candidate_key_injective :
    (a b : CandidateIdentity)
    → HasNoSeparator a.username
    → HasNoSeparator a.path
    → HasNoSeparator b.username
    → HasNoSeparator b.path
    → candidate_key a ≡ candidate_key b
    → a ≡ b
candidate_key_injective a b hau hap hbu hbp e =
    let all = sym (codes-candidate_key a) ∙ ap codes e ∙ codes-candidate_key b in
    let (users, rest) = split_at_separator (codes a.username) (codes b.username) _ _ hau hbu all in
    let (paths, sizes) = split_at_separator (codes a.path) (codes b.path) _ _ hap hbp rest in
    let u = codes_injective _ _ users in
    let p = codes_injective _ _ paths in
    let s = decimal_injective _ _ (codes_injective _ _ sizes) in
    λ i. record { username = u i; path = p i; size_bytes = s i }
