-- ===== src/Server/Saving.antt =====
-- What `HandlePostSettings` reports as saved.
use mahogany.Base.{
  String, ◌≡◌, refl, false, none, some, List, [], ◌∷◌, map, arith, ok, any, ◌==◌, string_eq,
}
use mahogany.Database.{Setting}
use mahogany.Database.Settings.{UpdateSettingParams, assign}
use mahogany.Views.{World, ViewFinder}
use mahogany.Views.PostSettings.{configured, post_settings-eq-posted}
use mahogany.Server.{handle_post_settings}

map-assign_unknown :
    (params : UpdateSettingParams) (rows : List Setting)
    → any (λ s. s.name == params.name) rows ≡ false
    → map (assign params) rows ≡ rows
map-assign_unknown params [] h = refl
map-assign_unknown params (s ∷ rows) h = ground (arith, map-assign_unknown params rows)

-- A setting that the table lacks is reported as saved, and the tables stay as they are: if the
-- templates work, the form can be parsed, no statement fails, and the settings that are there
-- configure the clients.
pub handle_post_settings_unknown :
    (w : World) (name value : String) (v v' : ViewFinder)
    → v.database.faults ≡ []
    → any (λ s. s.name == name) v.database.settings ≡ false
    → configured w v.database.settings v ≡ ok v'
    → handle_post_settings none (λ _ _. none) w name value none v ≡ (
      record { code = 200; headers = []; template = some ("settings-toast", "saved") },
      record v' { database = v.database },
    )
unfolding handle_post_settings
handle_post_settings_unknown w name value v v' fine unknown good = ground (
  arith,
  post_settings-eq-posted w (record { value = value; name = name }) v fine,
  map-assign_unknown (record { value = value; name = name }) v.database.settings unknown,
  good,
)
