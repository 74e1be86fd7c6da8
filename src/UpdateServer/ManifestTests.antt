-- ===== src/UpdateServer/ManifestTests.antt =====
-- Some services that are watched, one of them twice and one no more.
use mahogany.Base.{◌≡◌, [], ◌∷◌}
use mahogany.Database.Watched.{adds, removes, listed, abstract_of, performed, stated}
use mahogany.UpdateServer.ServicesStream.{register_manifest}
use mahogany.UpdateServer.TrackingTests.{with_device}
use mahogany.UpdateServer.Manifest.{told, register_manifest-performed}

register_manifest-performed_example :
    let changes = adds "web" ∷ adds "cron" ∷ adds "web" ∷ adds "mail" ∷ removes "mail" ∷ [] in
    let (answers, db) = stated changes with_device in
    let (expected, names) = performed changes (abstract_of with_device) in
    (answers ≡ expected) × ((register_manifest db).0.subscribe_to_services ≡ told (listed names))
register_manifest-performed_example =
    register_manifest-performed
      (adds "web" ∷ adds "cron" ∷ adds "web" ∷ adds "mail" ∷ removes "mail" ∷ []) with_device
