-- ===== src/Agent/Completion.antt =====
-- `installRelease` on a machine on which nothing fails.
use mathlib.Core.Path.{sym}
use mathlib.Core.List.{append-nil, append_assoc}
use mahogany.Base.{
  String, ◌≡◌, refl, ◌∙◌, ap, Bool, true, false, none, List, [], ◌∷◌, ◌++◌, ok, number_eq,
}
use mahogany.Schema.{Asset, Release}
use mahogany.Sources.Http.{status_ok}
use mahogany.Agent.{
  Effect, make_dir, fetch, create, write, execute, Machine, split_at, replace_braces, Stage,
  and_then, attempt, run_commands, install_asset, install_assets, install_release,
}
use mahogany.Agent.Plan.{command_plan, asset_plan, assets_plan, release_plan}

-- A machine on which nothing fails, and every address has its content.
abbrev pub IsWorking : Machine → (String → String) → Type 0
IsWorking m content =
    ((done : List Effect) (e : Effect) → m.fails done e ≡ none)
    × ((done : List Effect) (url : String)
        → m.download done url
          ≡ ok (record { status_code = status_ok; status = "200 OK"; body = content url }))

abbrev Completes : Stage → List Effect → Type 0
Completes stage plan = (done : List Effect) → stage done ≡ (true, done ++ plan)

Completes-and_then :
    (first second : Stage) (plan1 plan2 : List Effect)
    → Completes first plan1
    → Completes second plan2
    → Completes (and_then first second) (plan1 ++ plan2)
Completes-and_then first second plan1 plan2 h next done =
    ap (λ (r : Bool × List Effect). elim r.0 [ true ↦ second r.1 | false ↦ (false, r.1) ]) (h done)
    ∙ next (done ++ plan1)
    ∙ ap (λ t. (true, t)) (append_assoc done plan1 plan2)

module _ (m : Machine) (content : String → String) (works : IsWorking m content) where
  Completes-attempt : (e : Effect) → Completes (attempt m e) (e ∷ [])
  Completes-attempt e done = rw (works.0 done e, attempt) refl

  run_commands-Completes : (raw : List String) → Completes (run_commands m raw) (command_plan raw)
  unfolding run_commands
  run_commands-Completes [] done = ap (λ t. (true, t)) (sym (append-nil done))
  run_commands-Completes (raw ∷ more) done =
      Completes-and_then (attempt m (execute (split_at b' ' raw))) (run_commands m more)
        (execute (split_at b' ' raw) ∷ []) (command_plan more) (Completes-attempt _)
        (run_commands-Completes more) done

  install_asset-Completes :
      (dir command : String) (asset : Asset)
      → Completes (install_asset m dir command asset) (asset_plan m content dir command asset)
  unfolding install_asset number_eq
  install_asset-Completes dir command asset done =
      let file = m.join dir asset.name in
      let raw = split_at b';' (replace_braces file command) in
      rw (works.1 done asset.source_url, install_asset)
        (Completes-and_then (attempt m (create file)) _ (create file ∷ [])
            (write file (content asset.source_url) ∷ command_plan raw) (Completes-attempt _)
            (Completes-and_then (attempt m (write file (content asset.source_url)))
              (run_commands m raw) (write file (content asset.source_url) ∷ []) (command_plan raw)
              (Completes-attempt _) (run_commands-Completes raw))
            (done ++ (fetch asset.source_url ∷ []))
          ∙ ap (λ t. (true, t)) (append_assoc done (fetch asset.source_url ∷ []) _))

  install_assets-Completes :
      (dir command : String) (assets : List Asset)
      → Completes (install_assets m dir command assets) (assets_plan m content dir command assets)
  unfolding install_assets
  install_assets-Completes dir command [] done = ap (λ t. (true, t)) (sym (append-nil done))
  install_assets-Completes dir command (asset ∷ more) done =
      Completes-and_then (install_asset m dir command asset) (install_assets m dir command more)
        (asset_plan m content dir command asset) (assets_plan m content dir command more)
        (install_asset-Completes dir command asset) (install_assets-Completes dir command more) done

  -- On a machine on which nothing fails an installation reports success, with the whole plan done.
  pub install_release_works :
      (download_dir : String) (release : Release) (done : List Effect)
      → install_release m download_dir release done
        ≡ (true, done ++ release_plan m content download_dir release)
  unfolding install_release
  install_release_works download_dir release =
      let dir = m.join download_dir release.name in
      Completes-and_then (attempt m (make_dir dir)) _ (make_dir dir ∷ []) _ (Completes-attempt _)
        (install_assets-Completes dir release.install_command release.assets)
