-- ===== src/Views/Holdings.antt =====
-- The page of the registry (`GetRegistry` of pkg/mahogany/views/registry.go) against what the network
-- answers.
use mahogany.Base.{
  String, ◌<>◌, ◌≡◌, refl, sym, ap, ◌∙◌, List, [], ◌∷◌, ◌++◌, arith, Result, ok, err, ◌>>=◌,
  Result-cases, inl, inr, none, some,
}
use mathlib.Core.Path.{subst}
use mahogany.Sources.Http.{get, send}
use mahogany.Sources.Registry
use mahogany.Sources.Registry.{RegistryCatalog, RegistryTags, RegistryManifest}
use mahogany.Views.{World, ViewFinder, get_status}
use mahogany.Views.Images.{
  get_registry, manifests_of, all_manifests, add_repositories-IsCollected, page_of-Shows, Shows,
}

-- What the registry's API has at a path, by the bodies of the network's answers alone.
module _ (w : World) (v : ViewFinder) where
  abbrev body_at : String → List (String × String) → Result String
  body_at path headers =
      let url = "http://" <> (v.registry.addr <> path) in
      elim (w.net.refuses url) [
        | some e ↦ err e
        | none ↦
            elim (w.net.answer (record {
              method = get;
              url = url;
              headers = headers;
              timeout = some v.registry.timeout;
            })) [ err e ↦ err e | ok resp ↦ ok resp.body ]
      ]

  abbrev catalog_held : Result RegistryCatalog
  catalog_held = do body ← body_at "/v2/_catalog" []; w.registry_decoders.catalog body

  abbrev tags_held : String → Result RegistryTags
  tags_held repository = do
    body ← body_at ("/v2/" <> (repository <> "/tags/list")) []
    w.registry_decoders.tags body

  abbrev manifest_held : String → String → Result RegistryManifest
  manifest_held repository tag = do
    body ←
        body_at ("/v2/" <> (repository <> ("/manifests/" <> tag)))
          (("Accept", "application/vnd.docker.distribution.manifest.v2+json") ∷ [])
    manifest ← w.registry_decoders.manifest body
    ok (record manifest { name = repository; tag = tag })

  abbrev tagged_held : String → List String → Result (List RegistryManifest)
  tagged_held name [] = ok []
  tagged_held name (tag ∷ tags) = do
    manifest ← manifest_held name tag
    rest ← tagged_held name tags
    ok (manifest ∷ rest)

  abbrev repositories_held : List String → Result (List RegistryManifest)
  repositories_held [] = ok []
  repositories_held (repository ∷ more) = do
    tags ← tags_held repository
    manifests ← tagged_held tags.name tags.tags
    rest ← repositories_held more
    ok (manifests ++ rest)

  -- Every manifest of every tag of every repository, or the first error on the way.
  abbrev pub all_held : Result (List RegistryManifest)
  all_held = do catalog ← catalog_held; repositories_held catalog.repositories

  get_catalog-catalog_held :
      Registry.get_catalog w.net w.registry_decoders v.registry ≡ catalog_held
  unfolding send
  get_catalog-catalog_held = ground arith

  get_tags-tags_held :
      (repository : String)
      → Registry.get_tags w.net w.registry_decoders v.registry repository ≡ tags_held repository
  unfolding send
  get_tags-tags_held repository = ground arith

  get_manifest-manifest_held :
      (repository tag : String)
      → Registry.get_manifest w.net w.registry_decoders v.registry repository tag
        ≡ manifest_held repository tag
  unfolding send
  get_manifest-manifest_held repository tag = ground arith

  manifests_of-tagged_held :
      (name : String) (tags : List String) → manifests_of w v name tags ≡ tagged_held name tags
  manifests_of-tagged_held name [] = refl
  manifests_of-tagged_held name (tag ∷ tags) = λ i.
      get_manifest-manifest_held name tag i >>= λ manifest.
      manifests_of-tagged_held name tags i >>= λ rest. ok (manifest ∷ rest)

  all_manifests-repositories_held :
      (repositories : List String) → all_manifests w v repositories ≡ repositories_held repositories
  all_manifests-repositories_held [] = refl
  all_manifests-repositories_held (repository ∷ more) = λ i.
      get_tags-tags_held repository i >>= λ tags.
      manifests_of-tagged_held tags.name tags.tags i >>= λ manifests.
      all_manifests-repositories_held more i >>= λ rest. ok (manifests ++ rest)

-- The page of the registry reports success exactly when its catalogue, the tags of every repository
-- and every manifest can be fetched and decoded, whatever the status codes of these answers are and
-- whatever becomes of the requests behind the page's status; then it has the manifest of every tag of
-- every repository, in the registry's order, and otherwise the first error.
pub get_registry-Shows : (w : World) (v : ViewFinder) → Shows (get_registry w v).0 (all_held w v)
unfolding get_registry
get_registry-Shows w v =
    elim (Result-cases (Registry.get_catalog w.net w.registry_decoders v.registry)) [
      | inr (e, failed) ↦
          subst (Shows (get_registry w v).0)
            (ap (λ c. c >>= λ catalog. repositories_held w v catalog.repositories)
              (sym failed ∙ get_catalog-catalog_held w v))
            (rw (failed, get_registry) (refl, refl))
      | inl (catalog, fetched) ↦
          subst (Shows (get_registry w v).0)
            (all_manifests-repositories_held w v catalog.repositories
              ∙ ap
                  (λ c. c >>= λ (found : RegistryCatalog). repositories_held w v found.repositories)
                  (sym fetched ∙ get_catalog-catalog_held w v))
            (rw (fetched, get_registry)
              (page_of-Shows (get_status w v).0 (all_manifests w v catalog.repositories) _
                (add_repositories-IsCollected w v catalog.repositories [])))
    ]
