-- ===== src/Agent.antt =====
-- pkg/mahogany/agent.go: what the agent does with a release, as the list of its effects on the
-- machine. What each effect gives is a parameter that sees the effects before it. `path.Join` is a
-- parameter too.
pub mod Plan
pub mod Runs
pub mod Completion
pub mod Session
pub mod Report
pub mod Reporting
pub mod Stored
pub mod Supervisor
pub mod Client
pub mod Main
pub mod Announced
pub mod Tests
mod AnnouncedTests
mod MainTests
mod StoredTests
use Prim.Native.Char.{Char, code}
use Prim.Native.String
use mahogany.Base.{
  ℕ, String, ◌<>◌, Bool, true, false, Option, none, some, List, [], ◌∷◌, ◌++◌, Error, Result, ok,
  err, ◌==◌, number_eq, if◌then◌else◌,
}
use mahogany.Schema.{Asset, Release}
use mahogany.Sources.Http.{Response, status_ok}

pub data Effect : Type 0 where
  make_dir : String → Effect
  fetch : String → Effect
  create : String → Effect
  write : String → String → Effect
  execute : List String → Effect

-- What the machine answers, after the effects so far: whether an effect fails, what `http.Get`
-- returns, and the paths that `path.Join` makes.
pub record Machine : Type 0 where
  pub fails : List Effect → Effect → Option Error
  pub download : List Effect → String → Result Response
  pub join : String → String → String

-- `strings.Split` by one character.
abbrev extend : Char → List String → List String
extend c [] = (String.◌∷◌ c String.[]) ∷ []
extend c (part ∷ parts) = (String.◌∷◌ c part) ∷ parts

abbrev pub split_at : ℕ → String → List String
split_at sep String.[] = String.[] ∷ []
split_at sep (String.◌∷◌ c s) =
    let parts = split_at sep s in if code c == sep then String.[] ∷ parts else extend c parts

-- `strings.ReplaceAll(s, "{}", by)`, where the flag says that the character before was an open `{`.
abbrev replace_open : Bool → String → String → String
replace_open false by String.[] = String.[]
replace_open true by String.[] = "{"
replace_open false by (String.◌∷◌ c s) = elim (code c == b'{') [
  | true ↦ replace_open true by s
  | false ↦ String.◌∷◌ c (replace_open false by s)
]
replace_open true by (String.◌∷◌ c s) = elim (code c == b'}') [
  | true ↦ by <> replace_open false by s
  | false ↦ elim (code c == b'{') [
    | true ↦ "{" <> replace_open true by s
    | false ↦ "{" <> (String.◌∷◌ c (replace_open false by s))
  ]
]

abbrev pub replace_braces : String → String → String
replace_braces by s = replace_open false by s

-- A part of `installRelease`: whether the method goes on after it, and the effects so far.
abbrev pub Stage : Type 0
Stage = List Effect → Bool × List Effect

-- The early returns: the second part is done only if the first one goes on.
abbrev pub and_then : Stage → Stage → Stage
and_then first second done = elim (first done).0 [
  | true ↦ second (first done).1
  | false ↦ (false, (first done).1)
]

module _ (m : Machine) where
  abbrev pub attempt : Effect → Stage
  attempt e done = elim (m.fails done e) [
    | some _ ↦ (false, done ++ (e ∷ []))
    | none ↦ (true, done ++ (e ∷ []))
  ]

  -- The loop over `cmds`.
  unfoldable run_commands : List String → Stage
  run_commands [] done = (true, done)
  run_commands (raw ∷ more) done =
      and_then (attempt (execute (split_at b' ' raw))) (run_commands more) done

  -- The body of the loop over the assets.
  unfoldable install_asset : String → String → Asset → Stage
  unfolding run_commands
  install_asset dir command asset done = elim (m.download done asset.source_url) [
    | err _ ↦ (false, done ++ (fetch asset.source_url ∷ []))
    | ok resp ↦ elim (resp.status_code == status_ok) [
      | false ↦ (false, done ++ (fetch asset.source_url ∷ []))
      | true ↦
          let file = m.join dir asset.name in
          and_then (attempt (create file))
            (and_then (attempt (write file resp.body))
              (run_commands (split_at b';' (replace_braces file command))))
            (done ++ (fetch asset.source_url ∷ []))
    ]
  ]

  unfoldable install_assets : String → String → List Asset → Stage
  unfolding install_asset
  install_assets dir command [] done = (true, done)
  install_assets dir command (asset ∷ more) done =
      and_then (install_asset dir command asset) (install_assets dir command more) done

  -- `installRelease`, in the directory for downloads of the agent's configuration.
  pub install_release : String → Release → Stage
  unfolding install_assets
  install_release download_dir release =
      let dir = m.join download_dir release.name in
      and_then (attempt (make_dir dir)) (install_assets dir release.install_command release.assets)
