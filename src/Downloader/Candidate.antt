-- ===== src/Downloader/Candidate.antt =====
-- packages/downloader/src/domain/candidate/candidate.ts
pub mod Identity
use Prim.Native.String.{◌++◌ as cat}
use music_downloader.Prelude.{
  ℕ, Bool, Option, none, some, List, String, ◌&&◌, str_eq, Result, ok, err, true, ◌==◌,
  if◌then◌else◌, length,
}
use music_downloader.Text.{trim, decimal}

-- A size is a whole number of bytes.
pub record CandidateIdentity : Type 0 where
  pub username : String
  pub path : String
  pub size_bytes : ℕ

-- A size as a source reports it: NaN or infinite, below zero, or a number of bytes.
pub data ReportedSize : Type 0 where
  not_finite below_zero : ReportedSize
  bytes : ℕ → ReportedSize

-- The shape that a source reports, before it is parsed.
pub record CandidateIdentityInput : Type 0 where
  pub username : String
  pub path : String
  pub size_bytes : ReportedSize

pub data InvalidCandidateIdentity : Type 0 where
  empty_username empty_path invalid_size : InvalidCandidateIdentity

abbrev with_size :
    String → String → ReportedSize → Result InvalidCandidateIdentity CandidateIdentity
with_size u p (bytes n) = ok (record { username = u; path = p; size_bytes = n })
with_size u p _ = err invalid_size

unfoldable pub parse_candidate_identity :
    CandidateIdentityInput → Result InvalidCandidateIdentity CandidateIdentity
parse_candidate_identity input =
    if str_eq (trim input.username) ""
    then err empty_username
    else if str_eq (trim input.path) ""
    then err empty_path
    else with_size input.username input.path input.size_bytes

pub record CandidateFile : Type 0 where
  pub name : String
  pub size_bytes : ℕ
  pub codec : Option String
  pub bitrate : Option ℕ
  pub sample_rate : Option ℕ
  pub bit_depth : Option ℕ
  pub duration_ms : Option ℕ

pub record SourceReliability : Type 0 where
  pub speed_bytes_per_sec : ℕ
  pub free_slots : ℕ
  pub queue_length : ℕ

pub record Candidate : Type 0 where
  pub identity : CandidateIdentity
  pub files : List CandidateFile
  pub source : SourceReliability

abbrev pub key_separator : String
key_separator = "\0"

unfoldable pub candidate_key : CandidateIdentity → String
candidate_key i =
    cat i.username (cat key_separator (cat i.path (cat key_separator (decimal i.size_bytes))))

unfoldable pub is_same_candidate : CandidateIdentity → CandidateIdentity → Bool
is_same_candidate a b = str_eq (candidate_key a) (candidate_key b)

-- A reference by an outside reporter: the size may be left out.
pub record CandidateReference : Type 0 where
  pub username : String
  pub path : String
  pub size_bytes : Option ℕ

abbrev size_agrees : Option ℕ → ℕ → Bool
size_agrees none n = true
size_agrees (some m) n = m == n

unfoldable pub is_referring_to : CandidateReference → CandidateIdentity → Bool
is_referring_to r i =
    str_eq r.username i.username && str_eq r.path i.path && size_agrees r.size_bytes i.size_bytes

pub file_count : Candidate → ℕ
file_count c = length c.files
