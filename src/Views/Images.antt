-- ===== src/Views/Images.antt =====
-- pkg/mahogany/views/registry.go and watchtower.go: the pages of the registry and of the updater.
use mahogany.Base.{
  String, ◌<>◌, ◌≡◌, refl, sym, ◌∙◌, Bool, true, false, Option, none, some, List, [], ◌∷◌, ◌++◌,
  arith, Error, Result, ok, err, ◌>>=◌, Result-cases, inl, inr,
}
use mathlib.Core.List.{append_assoc, append-nil}
use mathlib.Core.Path.{subst}
use mahogany.Sources.Registry
use mahogany.Sources.Registry.{RegistryTags, RegistryManifest}
use mahogany.Sources.Watchtower
use mahogany.Views.{World, ViewFinder, StatusView, get_status}
use mahogany.Views.Settings.{ActionResponseView}

pub record RegistryView : Type 0 where
  pub manifests : List RegistryManifest
  pub is_success : Bool
  pub error : Option Error
  pub status : StatusView

-- Where the nested loops stand: what was collected, and the error that ended them.
pub record Collected : Type 0 where
  pub manifests : List RegistryManifest
  pub error : Option Error

module _ (w : World) (v : ViewFinder) where
  -- The loop over a repository's tags.
  unfoldable add_manifests : String → List String → List RegistryManifest → Collected
  add_manifests name [] done = record { manifests = done; error = none }
  add_manifests name (tag ∷ tags) done =
      elim (Registry.get_manifest w.net w.registry_decoders v.registry name tag) [
        | err e ↦ record { manifests = done; error = some e }
        | ok manifest ↦ add_manifests name tags (done ++ (manifest ∷ []))
      ]

  -- The loop over the repositories.
  unfoldable pub add_repositories : List String → List RegistryManifest → Collected
  unfolding add_manifests
  add_repositories [] done = record { manifests = done; error = none }
  add_repositories (repository ∷ more) done =
      elim (Registry.get_tags w.net w.registry_decoders v.registry repository) [
        | err e ↦ record { manifests = done; error = some e }
        | ok tags ↦
            let c = add_manifests tags.name tags.tags done in
            elim c.error [ some e ↦ c | none ↦ add_repositories more c.manifests ]
      ]

-- The view after the loops.
abbrev page_of : StatusView → Collected → RegistryView
page_of status c = elim c.error [
  | some e ↦ record { manifests = c.manifests; is_success = false; error = some e; status = status }
  | none ↦ record { manifests = c.manifests; is_success = true; error = none; status = status }
]

-- `GetRegistry`
unfoldable pub get_registry : World → ViewFinder → RegistryView × ViewFinder
unfolding add_repositories get_status
get_registry w v =
    let (status, v') = get_status w v in
    (
      elim (Registry.get_catalog w.net w.registry_decoders v.registry) [
        | err e ↦ record { manifests = []; is_success = false; error = some e; status = status }
        | ok catalog ↦ page_of status (add_repositories w v catalog.repositories [])
      ],
      v',
    )

-- `DeleteRegistryImage`
abbrev pub delete_registry_image : World → ViewFinder → String → String → ActionResponseView
delete_registry_image w v repository tag =
    elim (Registry.delete_image w.net v.registry repository tag) [
      | some e ↦ record {
        is_success = false;
        toast = "Failed to delete image: " <> e;
        headers = [];
      }
      | none ↦ record {
        is_success = true;
        toast = "Deleted image " <> (repository <> (":" <> tag));
        headers = [];
      }
    ]

-- `WatchtowerUpdate`
abbrev pub watchtower_update : World → ViewFinder → ActionResponseView
watchtower_update w v = elim (Watchtower.update w.net v.watchtower) [
  | some e ↦ record { is_success = false; toast = "Update request failed: " <> e; headers = [] }
  | none ↦ record { is_success = true; toast = "Update complete"; headers = [] }
]

-- What the page promises: every manifest of every tag of every repository, in order, or an error.
module _ (w : World) (v : ViewFinder) where
  abbrev pub manifests_of : String → List String → Result (List RegistryManifest)
  manifests_of name [] = ok []
  manifests_of name (tag ∷ tags) = do
    manifest ← Registry.get_manifest w.net w.registry_decoders v.registry name tag
    rest ← manifests_of name tags
    ok (manifest ∷ rest)

  abbrev pub all_manifests : List String → Result (List RegistryManifest)
  all_manifests [] = ok []
  all_manifests (repository ∷ more) = do
    tags ← Registry.get_tags w.net w.registry_decoders v.registry repository
    manifests ← manifests_of tags.name tags.tags
    rest ← all_manifests more
    ok (manifests ++ rest)

-- The manifests of some repositories with those already collected, or those collected up to the
-- first error.
abbrev IsCollected : List RegistryManifest → Result (List RegistryManifest) → Collected → Type 0
IsCollected done (ok ms) c = c ≡ record { manifests = done ++ ms; error = none }
IsCollected done (err e) c = c.error ≡ some e

collected_more :
    (rest : Result (List RegistryManifest)) (done : List RegistryManifest) (m : RegistryManifest)
    (c : Collected)
    → IsCollected (done ++ (m ∷ [])) rest c
    → IsCollected done (rest >>= λ ms. ok (m ∷ ms)) c
collected_more (ok ms) done m c h = h ∙ rw append_assoc
collected_more (err e) done m c h = h

abbrev go_on : Collected → (List RegistryManifest → Collected) → Collected
go_on c next = elim c.error [ some e ↦ c | none ↦ next c.manifests ]

collected_rest :
    (ms done : List RegistryManifest) (rest : Result (List RegistryManifest)) (c : Collected)
    → IsCollected (done ++ ms) rest c
    → IsCollected done (rest >>= λ rs. ok (ms ++ rs)) c
collected_rest ms done (ok rs) c h = h ∙ rw append_assoc
collected_rest ms done (err e) c h = h

collected_next :
    (first rest : Result (List RegistryManifest)) (done : List RegistryManifest) (c : Collected)
    (next : List RegistryManifest → Collected)
    → IsCollected done first c
    → ((ms : List RegistryManifest) → IsCollected (done ++ ms) rest (next (done ++ ms)))
    → IsCollected done (first >>= λ ms. rest >>= λ rs. ok (ms ++ rs)) (go_on c next)
collected_next (ok ms) rest done c next h more =
    subst (λ x. IsCollected done (rest >>= λ rs. ok (ms ++ rs)) (go_on x next)) (sym h)
      (collected_rest ms done rest (next (done ++ ms)) (more ms))
collected_next (err e) rest done c next h more = ground arith

module _ (w : World) (v : ViewFinder) where
  add_manifests-IsCollected :
      (name : String) (tags : List String) (done : List RegistryManifest)
      → IsCollected done (manifests_of w v name tags) (add_manifests w v name tags done)
  unfolding add_manifests
  add_manifests-IsCollected name [] done = rw append-nil
  add_manifests-IsCollected name (tag ∷ tags) done =
      elim (Result-cases (Registry.get_manifest w.net w.registry_decoders v.registry name tag)) [
        | inr (e, failed) ↦ rw (failed, add_manifests) refl
        | inl (m, fetched) ↦
            rw (fetched, add_manifests)
              (collected_more (manifests_of w v name tags) done m
                (add_manifests w v name tags (done ++ (m ∷ [])))
                (add_manifests-IsCollected name tags (done ++ (m ∷ []))))
      ]

  pub add_repositories-IsCollected :
      (repositories : List String) (done : List RegistryManifest)
      → IsCollected done (all_manifests w v repositories) (add_repositories w v repositories done)
  unfolding add_repositories
  add_repositories-IsCollected [] done = rw append-nil
  add_repositories-IsCollected (repository ∷ more) done =
      elim (Result-cases (Registry.get_tags w.net w.registry_decoders v.registry repository)) [
        | inr (e, failed) ↦ rw (failed, add_repositories) refl
        | inl (tags, fetched) ↦
            rw (fetched, add_repositories)
              (collected_next (manifests_of w v tags.name tags.tags) (all_manifests w v more) done
                (add_manifests w v tags.name tags.tags done) (add_repositories w v more)
                (add_manifests-IsCollected tags.name tags.tags done)
                (λ ms. add_repositories-IsCollected more (done ++ ms)))
      ]

-- What the page says of the outcome.
abbrev pub Shows : RegistryView → Result (List RegistryManifest) → Type 0
Shows view (ok ms) = (view.manifests ≡ ms) × (view.is_success ≡ true) × (view.error ≡ none)
Shows view (err e) = (view.is_success ≡ false) × (view.error ≡ some e)

pub page_of-Shows :
    (status : StatusView) (contents : Result (List RegistryManifest)) (c : Collected)
    → IsCollected [] contents c
    → Shows (page_of status c) contents
page_of-Shows status (ok ms) c h = rw h (refl, refl, refl)
page_of-Shows status (err e) c h = rw h (refl, refl)
