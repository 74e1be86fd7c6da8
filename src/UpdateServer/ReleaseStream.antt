-- ===== src/UpdateServer/ReleaseStream.antt =====
-- `ReleaseStream`: what one connected host is sent. The messages are those that its channel from the
-- broker yields, where a nil release (`none`) is what a closed channel yields; `send` is the
-- stream's `Send`, which may depend on what was sent before.
use mahogany.Base.{
  String, ◌≡◌, ◌∙◌, true, Option, none, some, List, [], ◌∷◌, ◌++◌, Error, keep, All, All-append,
  if◌then◌else◌, Bool-cases, Option-cases, inl, inr,
}
use mathlib.Core.List.{append-nil, append_assoc}
use mahogany.Schema.{Release}
use mahogany.UpdateServer.{UpdateServer, is_entitled}

-- How the handler stands after the messages: waiting for the next one, or returned. Where the
-- broker gave no channel it returns at once, with an error.
pub data Outcome : Type 0 where
  waiting : Outcome
  returned : Option Error → Outcome

-- A channel that has yielded some releases: it is still open, or it is closed and yields nil.
pub data Ending : Type 0 where
  open_end closed_end : Ending

abbrev pub messages_of : List Release → Ending → List (Option Release)
messages_of [] open_end = []
messages_of [] closed_end = none ∷ []
messages_of (release ∷ more) end = some release ∷ messages_of more end

abbrev pub outcome_of : Ending → Outcome
outcome_of open_end = waiting
outcome_of closed_end = returned none

module _ (s : UpdateServer) (hostname : String) (send : List Release → Release → Option Error) where
  -- The `for` loop, with what has been sent so far.
  unfoldable pub stream_loop : List Release → List (Option Release) → Outcome × List Release
  stream_loop sent [] = (waiting, sent)
  stream_loop sent (none ∷ more) = (returned none, sent)
  stream_loop sent (some release ∷ more) =
      let skipped = stream_loop sent more in
      let delivered = stream_loop (sent ++ (release ∷ [])) more in
      if is_entitled s hostname release.name
      then elim (send sent release) [ some e ↦ (returned (some e), sent) | none ↦ delivered ]
      else skipped

  -- The whole handler; the channel is `none` where `Subscribe` returned nil.
  unfoldable pub release_stream : Option (List (Option Release)) → Outcome × List Release
  unfolding stream_loop
  release_stream none = (returned (some "subscription unavailable"), [])
  release_stream (some messages) = stream_loop [] messages

  abbrev IsMeant : Release → Type 0
  IsMeant release = is_entitled s hostname release.name ≡ true

  stream_loop-All :
      (sent : List Release) (messages : List (Option Release))
      → All IsMeant sent
      → All IsMeant (stream_loop sent messages).1
  unfolding stream_loop
  stream_loop-All sent [] h = h
  stream_loop-All sent (none ∷ more) h = h
  stream_loop-All sent (some release ∷ more) h =
      elim (Bool-cases (is_entitled s hostname release.name)) [
        | inr other ↦ rw other (stream_loop-All sent more h)
        | inl meant ↦ rw meant (elim (Option-cases (send sent release)) [
          | inr (e, failed) ↦ rw failed h
          | inl fine ↦ rw fine (
              stream_loop-All (sent ++ (release ∷ [])) more
                (All-append IsMeant sent (release ∷ []) h (meant, tt)))
        ])
      ]

  -- Whatever the messages are and whichever sends fail, a host is only ever sent releases of
  -- packages that it is entitled to.
  release_stream-All :
      (messages : Option (List (Option Release))) → All IsMeant (release_stream messages).1
  unfolding release_stream
  release_stream-All none = tt
  release_stream-All (some messages) = stream_loop-All [] messages tt

  stream_loop-eq-keep :
      ((sent : List Release) (release : Release) → send sent release ≡ none)
      → (releases : List Release) (end : Ending) (sent : List Release)
      → stream_loop sent (messages_of releases end)
        ≡ (outcome_of end, sent ++ keep (λ r. is_entitled s hostname r.name) releases)
  unfolding stream_loop
  stream_loop-eq-keep reliable [] open_end sent = rw append-nil
  stream_loop-eq-keep reliable [] closed_end sent = rw append-nil
  stream_loop-eq-keep reliable (release ∷ more) end sent =
      elim (Bool-cases (is_entitled s hostname release.name)) [
        | inr other ↦ rw other (stream_loop-eq-keep reliable more end sent)
        | inl meant ↦
            rw (meant, reliable sent release)
              (stream_loop-eq-keep reliable more end (sent ++ (release ∷ [])) ∙ rw append_assoc)
      ]

  -- While no send fails, the host is sent all the releases that it is entitled to, in the order in
  -- which its channel yields them; the handler then waits for more if the channel is open, and
  -- returns without an error if it was closed.
  pub release_stream-eq-keep :
      ((sent : List Release) (release : Release) → send sent release ≡ none)
      → (releases : List Release) (end : Ending)
      → release_stream (some (messages_of releases end))
        ≡ (outcome_of end, keep (λ r. is_entitled s hostname r.name) releases)
  unfolding release_stream
  release_stream-eq-keep reliable releases end = stream_loop-eq-keep reliable releases end []
