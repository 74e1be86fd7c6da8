-- ===== src/Sources/Registry.antt =====
-- pkg/mahogany/sources/registry.go: the client of the image registry. The JSON decoders are
-- parameters; where one fails its error is the rest of the body, which the client reports.
use mahogany.Base.{
  ℕ, String, ◌<>◌, Option, none, some, List, [], ◌∷◌, Error, Result, ok, err, ◌>>=◌, ℤ, ◌==◌,
  number_eq, if◌then◌else◌,
}
use mahogany.Sources.Http.{Method, get, delete, Request, Network, status_ok, status_accepted, send}

pub record RegistryCatalog : Type 0 where
  pub repositories : List String

pub record RegistryTags : Type 0 where
  pub name : String
  pub tags : List String

pub record Blob : Type 0 where
  pub media_type : String
  pub size : ℕ
  pub digest : String

pub record RegistryManifest : Type 0 where
  pub schema_version : ℕ
  pub name : String
  pub tag : String
  pub media_type : String
  pub config : Blob
  pub layers : List Blob

pub record Registry : Type 0 where
  pub addr : String
  pub timeout : ℤ

pub record Decoders : Type 0 where
  pub catalog : String → Result RegistryCatalog
  pub tags : String → Result RegistryTags
  pub manifest : String → Result RegistryManifest

abbrev request : Registry → Method → String → List (String × String) → Request
request r method path headers = record {
  method = method;
  url = "http://" <> (r.addr <> path);
  headers = headers;
  timeout = some r.timeout;
}

abbrev manifest_path : String → String → String
manifest_path repository reference = "/v2/" <> (repository <> ("/manifests/" <> reference))

abbrev manifest_type : String
manifest_type = "application/vnd.docker.distribution.manifest.v2+json"

module _ (net : Network) (r : Registry) where
  -- `Status`: an error, or none
  unfoldable pub status : Option Error
  unfolding send
  status = elim (send net (request r get "/v2/" [])) [
    | err e ↦ some e
    | ok resp ↦ if resp.status_code == status_ok then none else some "incompatible API version"
  ]

  -- `DeleteImage`
  abbrev pub delete_image : String → String → Option Error
  unfolding send
  delete_image repository digest =
      elim (send net (request r delete (manifest_path repository digest) [])) [
        | err e ↦ some e
        | ok resp ↦ if resp.status_code == status_accepted then none else some resp.status
      ]

module _ (net : Network) (decode : Decoders) (r : Registry) where
  abbrev pub get_catalog : Result RegistryCatalog
  unfolding send
  get_catalog = do resp ← send net (request r get "/v2/_catalog" []); decode.catalog resp.body

  abbrev pub get_tags : String → Result RegistryTags
  unfolding send
  get_tags repository = do
    resp ← send net (request r get ("/v2/" <> (repository <> "/tags/list")) [])
    decode.tags resp.body

  -- The names that were asked for go into the manifest.
  abbrev pub get_manifest : String → String → Result RegistryManifest
  unfolding send
  get_manifest repository tag = do
    resp ← send net (request r get (manifest_path repository tag) (("Accept", manifest_type) ∷ []))
    manifest ← decode.manifest resp.body
    ok (record manifest { name = repository; tag = tag })
