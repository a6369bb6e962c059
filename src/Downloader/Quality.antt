-- ===== src/Downloader/Quality.antt =====
-- packages/downloader/src/domain/policy/quality-policy.ts
use music_downloader.Prelude.{
  ℕ, suc, Bool, true, false, ◌&&◌, ◌||◌, not, Option, none, some, List, [], ◌∷◌, String, ltb, leb,
  str_eq, if◌then◌else◌, get_or, is_some, is_empty, any, Result, ok, err,
}
use mathlib.Core.Option
use music_downloader.Text.{trim}
use music_downloader.Sorting.{Sign, minus, plus, not_a_number, difference}

pub data QualityBucket : Type 0 where
  lossless_hires lossless lossy_high lossy_standard lossy_low unknown : QualityBucket

abbrev pub bucket_eq : QualityBucket → QualityBucket → Bool
bucket_eq lossless_hires lossless_hires = true
bucket_eq lossless lossless = true
bucket_eq lossy_high lossy_high = true
bucket_eq lossy_standard lossy_standard = true
bucket_eq lossy_low lossy_low = true
bucket_eq unknown unknown = true
bucket_eq _ _ = false

abbrev pub quality_buckets : List QualityBucket
quality_buckets = lossless_hires ∷ lossless ∷ lossy_high ∷ lossy_standard ∷ lossy_low ∷ unknown ∷ []

pub record QualityAttributes : Type 0 where
  pub codec : String
  pub bitrate : Option ℕ
  pub sample_rate : Option ℕ
  pub bit_depth : Option ℕ
  pub is_lossless : Option Bool

abbrev lossless_codecs : List String
lossless_codecs =
    "flac" ∷ "alac" ∷ "wav" ∷ "wave" ∷ "aiff" ∷ "aif" ∷ "ape" ∷ "wavpack" ∷ "wv" ∷ "tak" ∷ "tta"
    ∷ []

abbrev hires_bit_depth : ℕ
hires_bit_depth = 16

abbrev hires_sample_rate : ℕ
hires_sample_rate = 48_000

abbrev lossy_high_bps : ℕ
lossy_high_bps = 256_000

abbrev lossy_standard_bps : ℕ
lossy_standard_bps = 128_000

abbrev bucket_of_bitrate : Option ℕ → QualityBucket
bucket_of_bitrate none = unknown
bucket_of_bitrate (some bitrate) =
    if leb lossy_high_bps bitrate
    then lossy_high
    else if leb lossy_standard_bps bitrate
    then lossy_standard
    else lossy_low

-- `lower` is `String.prototype.toLowerCase`.
unfoldable pub resolve_quality_bucket : (String → String) → QualityAttributes → QualityBucket
resolve_quality_bucket lower attributes =
    let codec = lower (trim attributes.codec) in
    let is_lossless = get_or attributes.is_lossless (any (λ c. str_eq c codec) lossless_codecs) in
    let is_hires =
      ltb hires_bit_depth (get_or attributes.bit_depth hires_bit_depth)
      || ltb hires_sample_rate (get_or attributes.sample_rate hires_sample_rate) in
    if is_lossless
    then (if is_hires then lossless_hires else lossless)
    else if str_eq codec "" && not (is_some attributes.is_lossless)
    then unknown
    else bucket_of_bitrate attributes.bitrate

pub record QualityPolicy : Type 0 where
  pub order : List QualityBucket
  pub floor : QualityBucket

pub data QualityPolicyError : Type 0 where
  empty_order floor_not_in_order : QualityPolicyError

unfoldable pub create_quality_policy :
    List QualityBucket → QualityBucket → Result QualityPolicyError QualityPolicy
create_quality_policy order floor =
    if is_empty order
    then err empty_order
    else if any (λ b. bucket_eq b floor) order
    then ok (record { order = order; floor = floor })
    else err floor_not_in_order

-- `indexOf`, with `none` for -1.
unfoldable pub index_of : List QualityBucket → QualityBucket → Option ℕ
index_of [] b = none
index_of (x ∷ xs) b = if bucket_eq x b then some 0 else Option.map suc (index_of xs b)

-- `none` is `Infinity`.
unfoldable pub bucket_rank : QualityPolicy → QualityBucket → Option ℕ
unfolding index_of
bucket_rank policy bucket = index_of policy.order bucket

-- `<=` and `>` on ranks.
abbrev pub rank_le : Option ℕ → Option ℕ → Bool
rank_le _ none = true
rank_le none (some n) = false
rank_le (some m) (some n) = leb m n

unfoldable pub is_floor_met : QualityPolicy → QualityBucket → Bool
is_floor_met policy bucket = rank_le (bucket_rank policy bucket) (bucket_rank policy policy.floor)

-- The difference of two infinities is not a number.
abbrev pub rank_difference : Option ℕ → Option ℕ → Sign
rank_difference none none = not_a_number
rank_difference none (some n) = plus
rank_difference (some m) none = minus
rank_difference (some m) (some n) = difference m n

unfoldable pub compare_quality : QualityPolicy → QualityBucket → QualityBucket → Sign
compare_quality policy a b = rank_difference (bucket_rank policy a) (bucket_rank policy b)
