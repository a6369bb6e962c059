-- ===== src/Downloader/Runtime.antt =====
-- What the JavaScript runtime takes from the Unicode tables: these functions are arguments of the
-- definitions that use them.
use music_downloader.Prelude.{String}
use music_downloader.Sorting.{Sign, balanced}

pub record Runtime : Type 0 where
  -- `s.normalize('NFKD')`
  pub nfkd : String → String
  -- `s.toLowerCase()`
  pub lower : String → String
  -- `s.localeCompare(t)`
  pub locale_compare : String → String → Sign

-- A runtime for tests, whose texts are in lower case already.
abbrev pub plain_runtime : Runtime
plain_runtime = record { nfkd = λ s. s; lower = λ s. s; locale_compare = λ s t. balanced }
