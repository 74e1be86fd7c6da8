-- ===== src/UpdateServer/History.antt =====
-- The history of a service: what a report makes of what the table says of it.
pub mod Streams
use mahogany.Base.{
  ℕ, String, ◌≡◌, ◌≢◌, refl, ap, ◌∙◌, true, false, Bool, Option, none, some, List, [], ◌∷◌, ◌++◌,
  map, arith, Result, ok, err, any, find_first, ◌==◌, string_eq, number_eq, if◌then◌else◌,
  Option-cases, inl, inr,
}
use mahogany.Base.Dict.{lookup, lookup-insert}
use mahogany.Schema.{ServiceStatus, ServicesStreamRequest}
use mahogany.Database.{TrackedService, Database}
use mahogany.Database.Services.{
  is_service, new_tracked, refresh, add_tracked_service, update_tracked_service,
  get_tracked_service_id,
}
use mahogany.Database.Unique.{IsUnique}
use mahogany.UpdateServer.ServicesStream.{
  status_of, update_of, row_of, find_device, Stream, report_service, report_services,
  receive_reports, services_stream,
}
use mahogany.UpdateServer.Tracking.{stored, any-find, report_service-IsUnique}
use mahogany.UpdateServer.Tracking.Rows.{find-append, find-refresh, ids_differ}

-- What is known of one service: its status in the table, and whether this stream has reported it.
pub record Watch : Type 0 where
  pub status : Option String
  pub seen : Bool

-- What a report of the service makes of it.
abbrev saw : String → Watch → Watch
saw status w = record {
  status =
      if w.seen then some status else (elim w.status [ none ↦ some status | some old ↦ some old ]);
  seen = true;
}

abbrev pub watch_report : String → ServiceStatus → Watch → Watch
watch_report name svc w = if svc.name == name then saw (status_of svc.service) w else w

abbrev is_some : Option ℕ → Bool
is_some none = false
is_some (some id) = true

abbrev pub watch : ℕ → String → Stream → Watch
watch device name s = record {
  status = stored device name s.database;
  seen = is_some (lookup name s.tracked);
}

-- The stream knows the rows of the services that it has reported, and no statement is going to fail.
pub record Follows (device : ℕ) (s : Stream) : Type 0 where
  pub fine : s.database.faults ≡ []
  pub unique : IsUnique s.database
  pub row :
      (name : String) (id : ℕ)
      → lookup name s.tracked ≡ some id
      → (t : TrackedService) × (find_first (is_service device name) s.database.tracked_services
          ≡ some t)
        × (t.id ≡ id)

module _ (now device : ℕ) (svc : ServiceStatus) (s : Stream) (h : Follows device s) where
  abbrev rows : List TrackedService
  rows = s.database.tracked_services

  -- After the update, every service of the device is found as before, with its id.
  watch_known :
      (id : ℕ) (name : String)
      → lookup svc.name s.tracked ≡ some id
      → watch device name (report_service now device svc s)
        ≡ watch_report name svc (watch device name s)
  unfolding report_service update_tracked_service
  watch_known id name known =
      let (t, found, same) = h.row svc.name id known in
      let moved = find-refresh (update_of now id svc) device name rows in
      elim (Option-cases (find_first (is_service device name) rows)) [
        | inl e ↦ ground (arith, moved, h.fine)
        | inr (u, e) ↦ ground (
          arith,
          moved,
          h.fine,
          ids_differ device name svc.name rows u t (h.unique.service_ids u.id),
        )
      ]

  known-Follows :
      (id : ℕ)
      → lookup svc.name s.tracked ≡ some id
      → Follows device (report_service now device svc s)
  unfolding report_service update_tracked_service
  known-Follows id known = record {
    fine = ground (arith, h.fine);
    unique = report_service-IsUnique now device svc s h.unique;
    row = λ name i e.
        let (t, found, same) = h.row name i (ground (arith, h.fine)) in
        (
          refresh (update_of now id svc) t,
          ground (arith, h.fine, found, find-refresh (update_of now id svc) device name rows),
          ground (arith, same),
        );
  }

  -- The first report of a service that the table knows: only the row's id is looked up.
  module _ (t : TrackedService) (new : lookup svc.name s.tracked ≡ none)
      (found : find_first (is_service device svc.name) rows ≡ some t) where
    watch_found :
        (name : String)
        → watch device name (report_service now device svc s)
          ≡ watch_report name svc (watch device name s)
    unfolding report_service get_tracked_service_id
    watch_found name =
        ground (arith, new, found, h.fine, lookup-insert name svc.name t.id s.tracked)

    found-Follows : Follows device (report_service now device svc s)
    unfolding report_service get_tracked_service_id
    found-Follows = record {
      fine = ground (arith, h.fine);
      unique = report_service-IsUnique now device svc s h.unique;
      row = λ name i e.
          let after = lookup-insert name svc.name t.id s.tracked in
          elim (string_eq.dec name svc.name) [
            | yes same ↦ (t, ground arith, ground arith)
            | no other ↦
                let (u, at, is) = h.row name i (ground arith) in (u, ground (arith, at), is)
          ];
    }

  -- The first report of a service that is new to the table.
  module _ (new : lookup svc.name s.tracked ≡ none)
      (missing : find_first (is_service device svc.name) rows ≡ none) where
    abbrev row : TrackedService
    row = new_tracked (row_of now device svc) rows

    watch_added :
        (name : String)
        → watch device name (report_service now device svc s)
          ≡ watch_report name svc (watch device name s)
    unfolding report_service get_tracked_service_id add_tracked_service
    watch_added name = ground (
      arith,
      h.fine,
      any-find (is_service device svc.name) rows,
      find-append (is_service device name) rows row,
      lookup-insert name svc.name row.id s.tracked,
    )

    added-Follows : Follows device (report_service now device svc s)
    unfolding report_service get_tracked_service_id add_tracked_service
    added-Follows = record {
      fine = ground (arith, h.fine, any-find (is_service device svc.name) rows);
      unique = report_service-IsUnique now device svc s h.unique;
      row = λ name i e.
          let after = lookup-insert name svc.name row.id s.tracked in
          let there = any-find (is_service device svc.name) rows in
          let now_rows = find-append (is_service device name) rows row in
          elim (string_eq.dec name svc.name) [
            | yes same ↦ (row, ground arith, ground arith)
            | no other ↦
                let (u, at, is) = h.row name i (ground arith) in (u, ground (arith, at), is)
          ];
    }

  abbrev Goes : Type 0
  Goes =
      ((name : String)
        → watch device name (report_service now device svc s)
          ≡ watch_report name svc (watch device name s))
      × Follows device (report_service now device svc s)

  pub report_service-Goes : Goes
  report_service-Goes = elim (Option-cases (lookup svc.name s.tracked)) [
    | inr (id, known) ↦ (λ name. watch_known id name known, known-Follows id known)
    | inl new ↦ elim (Option-cases (find_first (is_service device svc.name) rows)) [
      | inr (t, found) ↦ (watch_found t new found, found-Follows t new found)
      | inl missing ↦ (watch_added new missing, added-Follows new missing)
    ]
  ]

  pub report_service-device_id : (report_service now device svc s).device_id ≡ s.device_id
  unfolding report_service
  report_service-device_id = ground arith
