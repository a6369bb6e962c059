-- ===== src/Downloader/Projection/Streams.antt =====
-- Streams that interleave in the log are projected apart.
use music_downloader.Prelude.{
  ◌≡◌, refl, sym, ap, ◌∙◌, subst, true, false, Option, none, some, List, [], ◌∷◌, ◌++◌, String,
  str_eq, eq_iff, filter, Bool-cases, inl, inr, arith,
}
use mathlib.Core.Option
use mathlib.Core.List.{append-nil, append_assoc}
use music_downloader.Downloader.Projection.{
  DownloadStatusView, StoredEvent, StreamOf, project_status, apply, stored_of, get, apply_all,
  rebuild,
}

-- The events of one stream, in the order of the log.
abbrev pub stream_events : String → List StoredEvent → List StoredEvent
stream_events id = filter (λ entry. str_eq entry.stream_id id)

-- What a stream holds after more of its events.
abbrev extend : Option (List StoredEvent) → List StoredEvent → Option (List StoredEvent)
extend none [] = none
extend none (e ∷ es) = some (e ∷ es)
extend (some held) more = some (held ++ more)

extend-nil : (held : Option (List StoredEvent)) → extend held [] ≡ held
extend-nil none = refl
extend-nil (some held) = ap some (append-nil held)

extend-cons :
    (held : Option (List StoredEvent)) (e : StoredEvent) (es : List StoredEvent)
    → extend (extend held (e ∷ [])) es ≡ extend held (e ∷ es)
extend-cons none e es = refl
extend-cons (some held) e es = ap some (append_assoc held (e ∷ []) es)

same_text : (s t : String) → str_eq s t ≡ true → s ≡ t
same_text s t h = ground (arith, eq_iff s t)

stored_of-apply-own :
    (id : String) (entry : StoredEvent) (streams : List StreamOf)
    → str_eq entry.stream_id id ≡ true
    → stored_of id (apply entry streams) ≡ extend (stored_of id streams) (entry ∷ [])
unfolding stored_of apply
stored_of-apply-own id entry [] own = rw own refl
stored_of-apply-own id entry (s ∷ ss) own = elim (Bool-cases (str_eq s.stream_id entry.stream_id)) [
  | inl same ↦
      let at_id : str_eq s.stream_id id ≡ true =
        subst (λ t. str_eq s.stream_id t ≡ true) (same_text entry.stream_id id own) same in
      rw (same, at_id) refl
  | inr other ↦
      let not_at_id : str_eq s.stream_id id ≡ false =
        subst (λ t. str_eq s.stream_id t ≡ false) (same_text entry.stream_id id own) other in
      rw (other, not_at_id) (stored_of-apply-own id entry ss own)
]

stored_of-apply-other :
    (id : String) (entry : StoredEvent) (streams : List StreamOf)
    → str_eq entry.stream_id id ≡ false
    → stored_of id (apply entry streams) ≡ stored_of id streams
unfolding stored_of apply
stored_of-apply-other id entry [] other = rw other refl
stored_of-apply-other id entry (s ∷ ss) other =
    elim (Bool-cases (str_eq s.stream_id entry.stream_id)) [
      | inl same ↦
          let not_at_id : str_eq s.stream_id id ≡ false =
            subst (λ t. str_eq t id ≡ false) (sym (same_text s.stream_id entry.stream_id same))
              other in
          rw (same, not_at_id) refl
      | inr apart ↦ elim (Bool-cases (str_eq s.stream_id id)) [
        | inl here ↦ rw (apart, here) refl
        | inr there ↦ rw (apart, there) (stored_of-apply-other id entry ss other)
      ]
    ]

stored_of-apply_all :
    (id : String) (stored : List StoredEvent) (streams : List StreamOf)
    → stored_of id (apply_all stored streams)
      ≡ extend (stored_of id streams) (stream_events id stored)
unfolding apply_all
stored_of-apply_all id [] streams = sym (extend-nil (stored_of id streams))
stored_of-apply_all id (entry ∷ stored) streams = elim (Bool-cases (str_eq entry.stream_id id)) [
  | inl own ↦
      stored_of-apply_all id stored (apply entry streams)
      ∙ ap (λ held. extend held (stream_events id stored))
          (stored_of-apply-own id entry streams own)
      ∙ rw own (extend-cons (stored_of id streams) entry (stream_events id stored))
  | inr other ↦
      stored_of-apply_all id stored (apply entry streams)
      ∙ ap (λ held. extend held (stream_events id stored))
          (stored_of-apply-other id entry streams other)
      ∙ rw other refl
]

-- The view of a stream's own events, where it has any.
abbrev pub view_of : String → List StoredEvent → Option DownloadStatusView
view_of id [] = none
view_of id (entry ∷ stored) = some (project_status id (entry ∷ stored))

viewed :
    (id : String) (own : List StoredEvent)
    → Option.map (project_status id) (extend none own) ≡ view_of id own
viewed id [] = refl
viewed id (entry ∷ own) = refl

-- However the streams of a log interleave, a rebuilt projection shows each download by its own events
-- alone, in their order, and shows none that has no event.
pub get-rebuild :
    (id : String) (stored : List StoredEvent)
    → get id (rebuild stored) ≡ view_of id (stream_events id stored)
unfolding get rebuild stored_of
get-rebuild id stored =
    ap (Option.map (project_status id)) (stored_of-apply_all id stored [])
    ∙ viewed id (stream_events id stored)
