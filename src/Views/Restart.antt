-- ===== src/Views/Restart.antt =====
-- What a server that is started anew makes of the settings that were saved.
use mahogany.Base.{◌≡◌, none, [], arith, ok}
use mahogany.Database.{Database}
use mahogany.Database.Settings.{UpdateSettingParams}
use mahogany.Views.{World, ViewFinder}
use mahogany.Views.Index.{unset_finder, new_view_finder}
use mahogany.Views.Settings.{post_settings}
use mahogany.Views.PostSettings.{
  configured, posted, with_setting, reload_lem, post_settings-eq-posted,
}

-- A new view finder is the one that the table of settings calls for.
pub new_view_finder-configured :
    (w : World) (db : Database)
    → db.faults ≡ []
    → new_view_finder w none db ≡ (configured w db.settings (unset_finder db), db)
unfolding new_view_finder
new_view_finder-configured w db fine = ground (arith, reload_lem w (unset_finder db) db fine)

new_view_finder-posted :
    (w : World) (params : UpdateSettingParams) (v : ViewFinder)
    → v.database.faults ≡ []
    → (posted w params v).0 ≡ none
    → new_view_finder w none (posted w params v).1.database ≡ (
      ok (record (posted w params v).1 { open_transactions = 0 }),
      (posted w params v).1.database,
    )
new_view_finder-posted w params v fine saved =
    ground (arith, new_view_finder-configured w (with_setting params v.database) fine)

-- A setting that was saved without an error survives a restart: if no statement fails and
-- Docker's client can be had, then a view finder that is made anew from the tables is the one that
-- the running server went on with, but for the count of open transactions.
pub new_view_finder-post_settings :
    (w : World) (params : UpdateSettingParams) (v : ViewFinder)
    → v.database.faults ≡ []
    → (post_settings w params v).0 ≡ none
    → new_view_finder w none (post_settings w params v).1.database ≡ (
      ok (record (post_settings w params v).1 { open_transactions = 0 }),
      (post_settings w params v).1.database,
    )
new_view_finder-post_settings w params v fine saved =
    let same = post_settings-eq-posted w params v fine in
    rw same (new_view_finder-posted w params v fine (rw⁻¹ same saved))
