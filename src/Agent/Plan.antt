-- ===== src/Agent/Plan.antt =====
-- What `installRelease` is to do with a release.
use mahogany.Base.{String, List, [], ◌∷◌, ◌++◌, number_eq}
use mahogany.Schema.{Asset, Release}
use mahogany.Agent.{
  Effect, make_dir, fetch, create, write, execute, Machine, split_at, replace_braces,
}

-- The plan, where `content` says what is found at an address: the directory is made, and each asset
-- is downloaded into a file there, which the commands then get in place of `{}`.
abbrev pub command_plan : List String → List Effect
command_plan [] = []
command_plan (raw ∷ more) = execute (split_at b' ' raw) ∷ command_plan more

module _ (m : Machine) (content : String → String) where
  abbrev pub asset_plan : String → String → Asset → List Effect
  asset_plan dir command asset =
      let file = m.join dir asset.name in
      fetch asset.source_url
      ∷ create file
      ∷ write file (content asset.source_url)
      ∷ command_plan (split_at b';' (replace_braces file command))

  abbrev pub assets_plan : String → String → List Asset → List Effect
  assets_plan dir command [] = []
  assets_plan dir command (asset ∷ more) =
      asset_plan dir command asset ++ assets_plan dir command more

  abbrev pub release_plan : String → Release → List Effect
  release_plan download_dir release =
      let dir = m.join download_dir release.name in
      make_dir dir ∷ assets_plan dir release.install_command release.assets
