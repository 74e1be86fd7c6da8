-- ===== src/UpdateServer/Propagate.antt =====
-- `PropagateGithubRelease` up to its send to the broker, which UpdateServer.Connections adds: the
-- release that a webhook event makes, and that it is well formed.
-- Go's pointers into the event are options; reading through nil panics, and a panic is `none`.
use mahogany.Base.{
  String, ◌<>◌, starts_with, ◌≡◌, refl, Bool, true, false, not, ◌&&◌, Option, none, some, List, [],
  ◌∷◌, map, arith, keep,
}
use mahogany.Base.{string_eq, if◌then◌else◌}
use mahogany.Base.Dict.{lookup}
use mahogany.Schema.{Regex, Asset, Release, GithubPackage, Package}
use mahogany.UpdateServer.{UpdateServer}

-- The parts of `github.ReleaseEvent` that the code reads.
pub record EventAsset : Type 0 where
  pub name : Option String
  pub browser_download_url : Option String

pub record EventRelease : Type 0 where
  pub name : Option String
  pub assets : List EventAsset

pub record EventRepo : Type 0 where
  pub name : Option String
  pub full_name : Option String

pub record GithubReleaseEvent : Type 0 where
  pub repo : Option EventRepo
  pub release : Option EventRelease

infixl 5 ◌>>=◌
abbrev ◌>>=◌ {ℓ κ} : {A : Type ℓ} {B : Type κ} → Option A → (A → Option B) → Option B
none >>= f = none
some a >>= f = f a

abbrev source_mask : GithubPackage → String
source_mask g = "https://github.com/" <> (g.name <> "/releases")

-- `pack.GithubPackage.Regex.MatchString(name)`
unfoldable matches : GithubPackage → String → Option Bool
matches g name = do re ← g.regex; some (re name)

-- The body of the loop over the assets: `some none` where the asset is passed over.
unfoldable select_asset : Package → EventAsset → Option (Option Asset)
unfolding matches
select_asset pack asset = do
  g ← pack.github_package
  name ← asset.name
  matched ← matches g name
  elim matched [
    | false ↦ some none
    | true ↦ do
      url ← asset.browser_download_url
      (if not (starts_with url (source_mask g))
          then some none
          else some (some (record { name = name; source_url = url })))
  ]

unfoldable select_assets : Package → List EventAsset → Option (List Asset)
unfolding select_asset
select_assets pack [] = some []
select_assets pack (a ∷ more) = do
  asset ← select_asset pack a
  rest ← select_assets pack more
  elim asset [ none ↦ some rest | some x ↦ some (x ∷ rest) ]

-- The release that is broadcast, or `some none` where the method returns without a broadcast.
unfoldable pub propagate : UpdateServer → GithubReleaseEvent → Option (Option Release)
unfolding select_assets
propagate s event = do
  repo ← event.repo
  name ← repo.name
  elim (lookup name s.github_packages) [
    | none ↦ some none
    | some pack ↦ do
      release ← event.release
      version ← release.name
      full_name ← repo.full_name
      assets ← select_assets pack release.assets
      elim assets [
        | [] ↦ some none
        | a ∷ more ↦ some (
            some (record {
              name = name;
              version = version;
              repository_name = full_name;
              assets = a ∷ more;
              install_command = pack.install_command;
            }))
      ]
  ]

-- An event in which every field that the code reads is set.
pub record Announcement : Type 0 where
  pub repo_name : String
  pub full_name : String
  pub version : String
  pub assets : List Asset

abbrev event_asset : Asset → EventAsset
event_asset a = record { name = some a.name; browser_download_url = some a.source_url }

abbrev pub event_of : Announcement → GithubReleaseEvent
event_of n = record {
  repo = some (record { name = some n.repo_name; full_name = some n.full_name });
  release = some (record { name = some n.version; assets = map event_asset n.assets });
}

-- An asset goes out if its name matches and its URL lies under the repository's releases.
abbrev pub is_accepted : GithubPackage → Regex → Asset → Bool
is_accepted g re a = re a.name && starts_with a.source_url (source_mask g)

abbrev pub release_of : Announcement → Package → List Asset → Option Release
release_of n pack [] = none
release_of n pack (a ∷ more) = some (record {
  name = n.repo_name;
  version = n.version;
  repository_name = n.full_name;
  assets = a ∷ more;
  install_command = pack.install_command;
})

module _ (pack : Package) (g : GithubPackage) (re : Regex)
    (from_github : pack.github_package ≡ some g) (compiled : g.regex ≡ some re) where
  select_assets-eq-keep :
      (assets : List Asset)
      → select_assets pack (map event_asset assets) ≡ some (keep (is_accepted g re) assets)
  unfolding select_assets
  select_assets-eq-keep [] = refl
  select_assets-eq-keep (a ∷ more) = ground (arith, select_assets-eq-keep more)

  -- For a package of the topology whose expression is compiled, an event with all its fields set is
  -- broadcast with exactly the assets whose names match and whose URLs begin with the address of
  -- the repository's releases, in the event's order; with no such asset nothing is broadcast, and
  -- neither way panics.
  pub propagate-event_of :
      (s : UpdateServer) (n : Announcement)
      → lookup n.repo_name s.github_packages ≡ some pack
      → propagate s (event_of n) ≡ some (release_of n pack (keep (is_accepted g re) n.assets))
  unfolding propagate
  propagate-event_of s n found = ground (arith, select_assets-eq-keep n.assets)

-- A repository that the topology does not name is ignored.
pub propagate_unknown :
    (s : UpdateServer) (n : Announcement)
    → lookup n.repo_name s.github_packages ≡ none
    → propagate s (event_of n) ≡ some none
unfolding propagate
propagate_unknown s n missing = ground arith
