-- ===== src/Importer/Import/React.antt =====
-- packages/importer/src/domain/import/react.ts
use music_downloader.Prelude.{Option, none, some, List, [], ◌∷◌, String}
use music_downloader.Importer.Import.Events.{
  ImportHints, Resolution, apply_candidate, supply_id, refresh_candidates, manual_tags,
  import_as_is, reject, reject_unusable_delivery, accept, retry_enrichment, ApplyMode, ImportEvent,
  import_requested, auto_apply_selected, review_resolved,
}
use music_downloader.Importer.Import.State.{
  remediation_state, retrying_status, ImportState, proposing, awaiting_review, applying, applied,
}

pub data Effect : Type 0 where
  propose : (directory : String) (search_id search_artist search_album : Option String) → Effect
  apply : (directory : String) → ApplyMode → Effect
  delete_intake : (directory : String) → Effect

abbrev propose_hinted : String → Option ImportHints → Effect
propose_hinted directory none = propose directory none none none
propose_hinted directory (some hints) =
    propose directory hints.mb_release_id hints.artist hints.album

abbrev apply_effects : ImportState → List Effect
apply_effects (applying r mode cs) = apply r.directory mode ∷ []
apply_effects s = []

abbrev propose_effects : ImportState → Option String → List Effect
propose_effects (proposing r pin cs) search_id = propose r.directory search_id none none ∷ []
propose_effects s search_id = []

abbrev delete_effects : ImportState → List Effect
delete_effects (awaiting_review r cause cs settled) = delete_intake r.directory ∷ []
delete_effects s = []

abbrev retry_effects : ImportState → List Effect
retry_effects (applied r location mode (some (remediation_state failures retrying_status))) =
    apply location mode ∷ []
retry_effects s = []

abbrev react_resolved : Resolution → ImportState → List Effect
react_resolved (apply_candidate ref action) s = apply_effects s
react_resolved import_as_is s = apply_effects s
react_resolved (manual_tags tags) s = apply_effects s
react_resolved (supply_id id) s = propose_effects s (some id)
react_resolved refresh_candidates s = propose_effects s none
react_resolved (reject reason) s = delete_effects s
react_resolved (reject_unusable_delivery reasons) s = delete_effects s
react_resolved retry_enrichment s = retry_effects s
react_resolved accept s = []

unfoldable pub react : ImportEvent → ImportState → List Effect
react (import_requested directory hints policy source) s = propose_hinted directory hints ∷ []
react (auto_apply_selected ref distance) s = apply_effects s
react (review_resolved resolution) s = react_resolved resolution s
react event s = []
