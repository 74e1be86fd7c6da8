-- ===== src/Agent/Runs.antt =====
-- `installRelease` against the plan, whatever fails.
use mahogany.Base.{
  String, ◌≡◌, refl, sym, ◌∙◌, ap, Bool, true, false, none, some, List, [], ◌∷◌, ◌++◌, ok, err,
  ◌==◌, number_eq, Bool-cases, Result-cases, inl, inr, arith, if◌then◌else◌,
}
use mahogany.Schema.{Asset, Release}
use mahogany.Sources.Http.{Response, status_ok}
use mahogany.Agent.{
  Effect, make_dir, fetch, create, write, execute, Machine, split_at, replace_braces, Stage,
  and_then, attempt, run_commands, install_asset, install_assets, install_release,
}
use mahogany.Agent.Plan.{command_plan, asset_plan, assets_plan, release_plan}

-- What comes after a first part that gave this.
abbrev go_on : Stage → Bool × List Effect → Bool × List Effect
go_on second r = elim r.0 [ true ↦ second r.1 | false ↦ (false, r.1) ]

go_on_same :
    (second other : Stage) (r : Bool × List Effect)
    → ((done : List Effect) → second done ≡ other done)
    → go_on second r ≡ go_on other r
go_on_same second other (true, done) same = same done
go_on_same second other (false, done) same = refl

module _ (m : Machine) where
  -- Whether a step succeeds after others: a download brings an answer with the status 200, and any
  -- other effect no error.
  abbrev succeeds : List Effect → Effect → Bool
  succeeds done (fetch url) = elim (m.download done url) [
    | err _ ↦ false
    | ok resp ↦ resp.status_code == status_ok
  ]
  succeeds done (make_dir dir) = elim (m.fails done (make_dir dir)) [ none ↦ true | some _ ↦ false ]
  succeeds done (create file) = elim (m.fails done (create file)) [ none ↦ true | some _ ↦ false ]
  succeeds done (write file body) = elim (m.fails done (write file body)) [
    | none ↦ true
    | some _ ↦ false
  ]
  succeeds done (execute args) = elim (m.fails done (execute args)) [ none ↦ true | some _ ↦ false ]

  -- The steps of a plan, up to and with the first that fails, and whether none does.
  pub perform : List Effect → Stage
  perform [] done = (true, done)
  perform (e ∷ plan) done =
      let next = perform plan (done ++ (e ∷ [])) in
      if succeeds done e then next else (false, done ++ (e ∷ []))

  perform_success :
      (e : Effect) (plan done : List Effect)
      → succeeds done e ≡ true
      → perform (e ∷ plan) done ≡ perform plan (done ++ (e ∷ []))
  unfolding perform
  perform_success e plan done fine = rw fine refl

  perform_failure :
      (e : Effect) (plan done : List Effect)
      → succeeds done e ≡ false
      → perform (e ∷ plan) done ≡ (false, done ++ (e ∷ []))
  unfolding perform
  perform_failure e plan done bad = rw bad refl

  perform-append :
      (p q done : List Effect) → perform (p ++ q) done ≡ and_then (perform p) (perform q) done
  unfolding perform
  perform-append [] q done = refl
  perform-append (e ∷ p) q done = elim (Bool-cases (succeeds done e)) [
    | inl fine ↦
        perform_success e (p ++ q) done fine
        ∙ perform-append p q (done ++ (e ∷ []))
        ∙ sym (ap (go_on (perform q)) (perform_success e p done fine))
    | inr bad ↦
        perform_failure e (p ++ q) done bad
        ∙ sym (ap (go_on (perform q)) (perform_failure e p done bad))
  ]

  abbrev Follows : Stage → List Effect → Type 0
  Follows stage plan = (done : List Effect) → stage done ≡ perform plan done

  Follows-and_then :
      (first second : Stage) (p q : List Effect)
      → Follows first p
      → Follows second q
      → Follows (and_then first second) (p ++ q)
  Follows-and_then first second p q h next done =
      ap (go_on second) (h done)
      ∙ go_on_same second (perform q) (perform p done) next
      ∙ sym (perform-append p q done)

  Follows-make_dir : (dir : String) → Follows (attempt m (make_dir dir)) (make_dir dir ∷ [])
  unfolding perform
  Follows-make_dir dir done = ground arith

  Follows-create : (file : String) → Follows (attempt m (create file)) (create file ∷ [])
  unfolding perform
  Follows-create file done = ground arith

  Follows-write :
      (file body : String) → Follows (attempt m (write file body)) (write file body ∷ [])
  unfolding perform
  Follows-write file body done = ground arith

  Follows-execute : (args : List String) → Follows (attempt m (execute args)) (execute args ∷ [])
  unfolding perform
  Follows-execute args done = ground arith

  run_commands-Follows : (raw : List String) → Follows (run_commands m raw) (command_plan raw)
  unfolding run_commands perform
  run_commands-Follows [] done = refl
  run_commands-Follows (raw ∷ more) done =
      Follows-and_then (attempt m (execute (split_at b' ' raw))) (run_commands m more)
        (execute (split_at b' ' raw) ∷ []) (command_plan more) (Follows-execute _)
        (run_commands-Follows more) done

-- What is found at an address does not change, and `http.Get` finds it.
abbrev IsStable : Machine → (String → String) → Type 0
IsStable m content =
    (done : List Effect) (url : String) (resp : Response)
    → m.download done url ≡ ok resp
    → (resp.status_code == status_ok) ≡ true
    → resp.body ≡ content url

module _ (m : Machine) (content : String → String) (stable : IsStable m content) where
  -- The part of an asset's plan after the download.
  abbrev stored_plan : String → String → String → List Effect
  stored_plan file body command =
      create file ∷ write file body ∷ command_plan (split_at b';' (replace_braces file command))

  abbrev stored_stage : String → String → String → Stage
  stored_stage file body command = and_then (attempt m (create file)) (
      and_then (attempt m (write file body))
        (run_commands m (split_at b';' (replace_braces file command))))

  stored-Follows :
      (file body command : String)
      → Follows m (stored_stage file body command) (stored_plan file body command)
  stored-Follows file body command =
      Follows-and_then m (attempt m (create file)) _ (create file ∷ []) _ (Follows-create m _) (
        Follows-and_then m (attempt m (write file body)) _ (write file body ∷ []) _
          (Follows-write m _ _) (run_commands-Follows m _))

  install_asset-Follows :
      (dir command : String) (asset : Asset)
      → Follows m (install_asset m dir command asset) (asset_plan m content dir command asset)
  unfolding install_asset perform
  install_asset-Follows dir command asset done =
      let file = m.join dir asset.name in
      let opened = done ++ (fetch asset.source_url ∷ []) in
      elim (Result-cases (m.download done asset.source_url)) [
        | inr (_, failed) ↦
            let seen : succeeds m done (fetch asset.source_url) ≡ false =
              rw (failed, succeeds) refl in
            rw (failed, install_asset)
              (sym (
                perform_failure m (fetch asset.source_url)
                  (stored_plan file (content asset.source_url) command) done seen))
        | inl (resp, found) ↦ elim (Bool-cases (resp.status_code == status_ok)) [
          | inr bad ↦
              let seen : succeeds m done (fetch asset.source_url) ≡ false =
                rw (found, succeeds) bad in
              rw (found, bad, install_asset)
                (sym (
                  perform_failure m (fetch asset.source_url)
                    (stored_plan file (content asset.source_url) command) done seen))
          | inl good ↦
              let whole : perform m (asset_plan m content dir command asset) done
                  ≡ perform m (stored_plan file (content asset.source_url) command) opened =
                perform_success m (fetch asset.source_url)
                  (stored_plan file (content asset.source_url) command) done
                  (rw (found, succeeds) good) in
              rw (found, good, install_asset) (stored-Follows file resp.body command opened)
              ∙ ap (λ body. perform m (stored_plan file body command) opened)
                  (stable done asset.source_url resp found good)
              ∙ sym whole
        ]
      ]

  install_assets-Follows :
      (dir command : String) (assets : List Asset)
      → Follows m (install_assets m dir command assets) (assets_plan m content dir command assets)
  unfolding install_assets perform
  install_assets-Follows dir command [] done = refl
  install_assets-Follows dir command (asset ∷ more) done =
      Follows-and_then m (install_asset m dir command asset) (install_assets m dir command more)
        (asset_plan m content dir command asset) (assets_plan m content dir command more)
        (install_asset-Follows dir command asset) (install_assets-Follows dir command more) done

  -- Whatever fails, as long as an address keeps its content, an installation takes the steps that the
  -- release plans, one after another, up to the first that fails: a download that brings no answer
  -- or another status than 200, or an error of the directory, of a file or of a command. It ends with
  -- that step and reports the failure; if no step fails it takes them all and reports success.
  pub install_release-eq-perform :
      (download_dir : String) (release : Release) (done : List Effect)
      → install_release m download_dir release done
        ≡ perform m (release_plan m content download_dir release) done
  unfolding install_release
  install_release-eq-perform download_dir release =
      Follows-and_then m (attempt m (make_dir (m.join download_dir release.name))) _
        (make_dir (m.join download_dir release.name) ∷ []) _ (Follows-make_dir m _)
        (install_assets-Follows (m.join download_dir release.name) release.install_command
          release.assets)
