-- ===== src/UpdateServer/Manifest.antt =====
-- `RegisterManifest` against the collection of the services that are watched.
use mahogany.Base.{String, ◌≡◌, ap, sym, ◌∙◌, List, [], Result, ok, err, arith}
use mahogany.Database.{Database}
use mahogany.Database.Watched.{
  Change, listed, abstract_of, performed, stated, stated-performed, list_watched_services-listed,
}
use mahogany.UpdateServer.ServicesStream.{register_manifest}

-- A list that fails is logged, and the agent is told of no service.
abbrev pub told : Result (List String) → List String
told (ok names) = names
told (err e) = []

register_manifest-listed :
    (db : Database)
    → (register_manifest db).0.subscribe_to_services ≡ told (listed (abstract_of db))
unfolding register_manifest
register_manifest-listed db = ground (arith, list_watched_services-listed db)

-- The watched services behave as a collection of names without an order, from which an agent is
-- told a sorted list: after any additions and deletions, each of which and also the list may fail,
-- the statements answered as they do on the collection, and an agent that registers gets the sorted
-- names of what the collection has become, or none if the list fails.
pub register_manifest-performed :
    (changes : List Change) (db : Database)
    → let (answers, db') = stated changes db in
      let (expected, names) = performed changes (abstract_of db) in
      (answers ≡ expected) × ((register_manifest db').0.subscribe_to_services ≡ told (listed names))
register_manifest-performed changes db =
    let same = stated-performed changes db in
    (
      sym (ap (λ r. r.0) same),
      register_manifest-listed (stated changes db).1 ∙ ap (λ r. told (listed r.1)) (sym same),
    )
