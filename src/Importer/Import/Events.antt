-- ===== src/Importer/Import/Events.antt =====
-- packages/importer/src/domain/import/events.ts
-- A distance and a threshold are doubles in [0, 1], counted in units of 2^-1074.
use music_downloader.Prelude.{ℕ, Bool, true, false, Option, List, String}
use Prim.Native.String.{◌++◌ as cat}

pub record NonEmpty {ℓ} (A : Type ℓ) : Type ℓ where
  pub head : A
  pub tail : List A

pub record ImportHints : Type 0 where
  pub mb_release_id : Option String
  pub artist : Option String
  pub album : Option String

pub record ImportPolicy : Type 0 where
  pub auto_apply_threshold : ℕ

pub record DeliveredCopy : Type 0 where
  pub username : String
  pub path : String
  pub size_bytes : Option ℕ

pub record ImportSource : Type 0 where
  pub acquisition_id : String
  pub candidate : Option DeliveredCopy
  pub feed_position : Option ℕ

pub record MatchReference : Type 0 where
  pub data_source : String
  pub album_id : String

unfoldable pub match_reference_key : MatchReference → String
match_reference_key reference = cat reference.data_source (cat ":" reference.album_id)

pub record MatchPenalty : Type 0 where
  pub name : String
  pub amount : ℕ

-- `length` is a double that is not negative.
pub record TrackCurrentTags : Type 0 where
  pub title : String
  pub artist : String
  pub track : ℕ
  pub length : Option ℕ

pub record TrackMapping : Type 0 where
  pub path : String
  pub title : String
  pub index : ℕ
  pub current : Option TrackCurrentTags
  pub distance : Option ℕ

pub record UnmatchedFile : Type 0 where
  pub path : String
  pub title : String
  pub track : ℕ

pub record MissingTrack : Type 0 where
  pub title : String
  pub index : ℕ

pub record MatchAlbumFields : Type 0 where
  pub year : ℕ
  pub media : String
  pub label : String
  pub catalognum : String
  pub country : String
  pub album_disambig : String

pub record MetadataMatch : Type 0 where
  pub ref : MatchReference
  pub artist : String
  pub album : String
  pub distance : ℕ
  pub penalties : List MatchPenalty
  pub tracks : List TrackMapping
  pub extra_items : Option (List UnmatchedFile)
  pub missing_tracks : Option (List MissingTrack)
  pub album_fields : Option MatchAlbumFields

pub record DuplicateIncumbent : Type 0 where
  pub artist : String
  pub album : String
  pub path : String

pub record ApplyFailure : Type 0 where
  pub stage : String
  pub message : String

pub data ReviewCause : Type 0 where
  match_review :
      (hinted : Bool) (hinted_release_id : Option String) (best : MatchReference) → ReviewCause
  no_match : ReviewCause
  duplicate_review : NonEmpty DuplicateIncumbent → ReviewCause
  remediation_review : NonEmpty ApplyFailure → ReviewCause

pub data ReviewKind : Type 0 where
  kind_match_review kind_no_match kind_duplicate_review kind_remediation_review : ReviewKind

abbrev pub review_kind : ReviewCause → ReviewKind
review_kind (match_review hinted id best) = kind_match_review
review_kind no_match = kind_no_match
review_kind (duplicate_review incumbents) = kind_duplicate_review
review_kind (remediation_review failures) = kind_remediation_review

pub record ManualTrackTags : Type 0 where
  pub path : String
  pub title : String
  pub artist : Option String
  pub track_number : ℕ
  pub disc_number : Option ℕ

pub record ManualTags : Type 0 where
  pub album_artist : String
  pub album : String
  pub year : Option ℕ
  pub tracks : NonEmpty ManualTrackTags

pub data DuplicateResolution : Type 0 where
  replace keep_both : DuplicateResolution

pub data Resolution : Type 0 where
  apply_candidate : MatchReference → Option DuplicateResolution → Resolution
  supply_id : (mb_release_id : String) → Resolution
  refresh_candidates : Resolution
  manual_tags : ManualTags → Resolution
  import_as_is : Resolution
  reject : (reason : Option String) → Resolution
  reject_unusable_delivery : (reasons : Option (List String)) → Resolution
  accept retry_enrichment : Resolution

pub data ResolutionKind : Type 0 where
  kind_apply_candidate kind_supply_id kind_refresh_candidates kind_manual_tags : ResolutionKind
  kind_import_as_is kind_reject kind_reject_unusable_delivery : ResolutionKind
  kind_accept kind_retry_enrichment : ResolutionKind

abbrev pub resolution_kind : Resolution → ResolutionKind
resolution_kind (apply_candidate ref action) = kind_apply_candidate
resolution_kind (supply_id id) = kind_supply_id
resolution_kind refresh_candidates = kind_refresh_candidates
resolution_kind (manual_tags tags) = kind_manual_tags
resolution_kind import_as_is = kind_import_as_is
resolution_kind (reject reason) = kind_reject
resolution_kind (reject_unusable_delivery reasons) = kind_reject_unusable_delivery
resolution_kind accept = kind_accept
resolution_kind retry_enrichment = kind_retry_enrichment

pub data ApplyMode : Type 0 where
  candidate_mode : MatchReference → Option DuplicateResolution → ApplyMode
  as_is_mode : ApplyMode
  manual_tags_mode : ManualTags → ApplyMode

pub data ImportEvent : Type 0 where
  import_requested :
      (directory : String) (hints : Option ImportHints) (policy : ImportPolicy)
      (source : Option ImportSource)
      → ImportEvent
  matches_proposed :
      (candidates : List MetadataMatch) (duplicates : List DuplicateIncumbent)
      (pinned_id : Option String)
      → ImportEvent
  auto_apply_selected : (ref : MatchReference) (distance : ℕ) → ImportEvent
  review_required : ReviewCause → ImportEvent
  review_resolved : Resolution → ImportEvent
  import_applied : (location : String) → ImportEvent
  remediation_required : NonEmpty ApplyFailure → ImportEvent
  import_rejected : (reason : String) (files_deleted : Bool) → ImportEvent
  release_verdict_recorded :
      (acquisition_id : String) (candidate : DeliveredCopy) (reasons : List String) → ImportEvent

unfoldable pub is_cycle_start : ImportEvent → Bool
is_cycle_start (import_requested directory hints policy source) = true
is_cycle_start _ = false
