-- ===== src/Downloader/Target.antt =====
-- packages/downloader/src/domain/target/target.ts
use music_downloader.Prelude.{
  ℕ, ◌+◌, Option, List, [], ◌∷◌, String, str_eq, ◌==◌, if◌then◌else◌, is_empty, length, Result, ok,
  err,
}
use music_downloader.Text.{trim}

pub data TargetType : Type 0 where
  album track : TargetType

-- A position that is no safe integer is given as 0: the guard refuses both alike.
pub record TrackMetadata : Type 0 where
  pub position : ℕ
  pub title : String
  pub duration_ms : ℕ

pub record Target : Type 0 where
  pub type : TargetType
  pub artist : String
  pub title : String
  pub tracks : List TrackMetadata
  pub year : Option ℕ
  pub mbid : Option String

pub data TargetError : Type 0 where
  empty_artist empty_title no_tracks : TargetError
  invalid_track_position invalid_track_duration : ℕ → TargetError

-- The loop over the tracks: the first track that breaks a rule is the error.
check_tracks :
    List TrackMetadata
    → Result TargetError (List TrackMetadata)
    → Result TargetError (List TrackMetadata)
check_tracks [] done = done
check_tracks (t ∷ ts) done =
    let rest = check_tracks ts done in
    if t.position == 0
    then err (invalid_track_position t.position)
    else if t.duration_ms == 0
    then err (invalid_track_duration t.position)
    else rest

abbrev with_tracks : Target → Result TargetError (List TrackMetadata) → Result TargetError Target
with_tracks target (ok tracks) = ok (record target { tracks = tracks })
with_tracks target (err e) = err e

-- The input has the fields of a target, before they are checked.
unfoldable pub create_target : Target → Result TargetError Target
unfolding check_tracks
create_target input =
    let artist = trim input.artist in
    let title = trim input.title in
    if str_eq artist ""
    then err empty_artist
    else if str_eq title ""
    then err empty_title
    else if is_empty input.tracks
    then err no_tracks
    else with_tracks (record input { artist = artist; title = title })
        (check_tracks input.tracks (ok input.tracks))

unfoldable pub track_count : Target → ℕ
track_count target = length target.tracks

sum_durations : List TrackMetadata → ℕ
sum_durations [] = 0
sum_durations (t ∷ ts) = t.duration_ms + sum_durations ts

unfoldable pub total_duration_ms : Target → ℕ
unfolding sum_durations
total_duration_ms target = sum_durations target.tracks
