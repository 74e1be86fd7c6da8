-- ===== src/UpdateServer/Tracking.antt =====
-- What a stream of reports leaves in the table of tracked services.
pub mod Rows
use mathlib.Core.Path.{subst}
use mahogany.Base.{
  Result-cases, ℕ, String, ◌≡◌, refl, true, false, Bool, Option, none, some, List, [], ◌∷◌, ◌++◌,
  map, arith, Result, ok, err, any, find_first, string_eq, number_eq, if◌then◌else◌, Option-cases,
  inl, inr,
}
use mahogany.Base.Dict.{lookup, lookup-insert}
use mahogany.Schema.{ServiceStatus, ServicesStreamRequest}
use mahogany.Database.{TrackedService, Database}
use mahogany.Database.Services.{
  is_service, new_tracked, UpdateTrackedServiceParams, refresh, add_tracked_service,
  update_tracked_service, get_tracked_service_id,
}
use mahogany.Database.Unique.{
  IsUnique, get_device-IsUnique, get_tracked_service_id-IsUnique, add_tracked_service-IsUnique,
  update_tracked_service-IsUnique,
}
use mahogany.UpdateServer.Tracking.Rows.{find-append, find-refresh}
use mahogany.UpdateServer.ServicesStream.{
  status_of, update_of, row_of, find_device, Stream, report_service, report_services,
  receive_reports, services_stream,
}

pub report_service-IsUnique :
    (now device : ℕ) (svc : ServiceStatus) (s : Stream)
    → IsUnique s.database
    → IsUnique (report_service now device svc s).database
unfolding report_service
report_service-IsUnique now device svc s h = elim (Option-cases (lookup svc.name s.tracked)) [
  | inr (id, e) ↦
      subst IsUnique (ground arith)
        (update_tracked_service-IsUnique s.database h (update_of now id svc))
  | inl e ↦
      let read = get_tracked_service_id-IsUnique s.database h svc.name device in
      elim (Result-cases (get_tracked_service_id svc.name device s.database).0) [
        | inl (id, f) ↦ subst IsUnique (ground arith) read
        | inr (_, f) ↦ subst IsUnique (ground arith) (
            add_tracked_service-IsUnique (get_tracked_service_id svc.name device s.database).1 read
              (row_of now device svc))
      ]
]

report_services-IsUnique :
    (now : ℕ) (hostname : String) (services : List ServiceStatus) (s : Stream)
    → IsUnique s.database
    → IsUnique (report_services now hostname services s).database
unfolding report_services
report_services-IsUnique now hostname [] s h = h
report_services-IsUnique now hostname (svc ∷ more) s h = elim (Option-cases s.device_id) [
  | inr (device, e) ↦
      rw (e, report_services)
        (report_services-IsUnique now hostname more (report_service now device svc s)
          (report_service-IsUnique now device svc s h))
  | inl e ↦
      let read = get_device-IsUnique s.database h hostname in
      elim (Result-cases (find_device hostname s.database).0) [
        | inr (_, f) ↦ rw (e, f, report_services) read
        | inl (id, f) ↦
            let s' : Stream = record s {
              device_id = some id;
              database = (find_device hostname s.database).1;
            } in
            rw (e, f, report_services)
              (report_services-IsUnique now hostname more (report_service now id svc s')
                (report_service-IsUnique now id svc s' read))
      ]
]

receive_reports-IsUnique :
    (messages : List (ℕ × Result ServicesStreamRequest)) (s : Stream)
    → IsUnique s.database
    → IsUnique (receive_reports messages s).database
unfolding receive_reports
receive_reports-IsUnique [] s h = h
receive_reports-IsUnique ((now, err e) ∷ more) s h = h
receive_reports-IsUnique ((now, ok msg) ∷ more) s h =
    receive_reports-IsUnique more _ (report_services-IsUnique now msg.hostname msg.services s h)

-- Whatever a stream reports, and whichever statements fail, it keeps what the UNIQUE columns
-- promise: if no device had two rows for one service and no two rows shared an id, then so it is
-- after the stream.
services_stream-IsUnique :
    (messages : List (ℕ × Result ServicesStreamRequest)) (db : Database)
    → IsUnique db
    → IsUnique (services_stream messages db)
unfolding services_stream
services_stream-IsUnique messages db h = receive_reports-IsUnique messages _ h

-- The status that the table has for a service of a device.
abbrev pub stored : ℕ → String → Database → Option String
stored device name db = elim (find_first (is_service device name) db.tracked_services) [
  | none ↦ none
  | some t ↦ some t.status
]

pub any-find :
    (p : TrackedService → Bool) (rows : List TrackedService)
    → any p rows ≡ elim (find_first p rows) [ none ↦ false | some t ↦ true ]
any-find p [] = refl
any-find p (t ∷ rows) = ground (arith, any-find p rows)

-- The stream knows the row of a service, and no statement is going to fail.
abbrev Knows : ℕ → String → Stream → Type 0
Knows device name s =
    (t : TrackedService) × (find_first (is_service device name) s.database.tracked_services
      ≡ some t)
    × (lookup name s.tracked ≡ some t.id)
    × (s.database.faults ≡ [])

module _ (now device : ℕ) (svc : ServiceStatus) (s : Stream) (fine : s.database.faults ≡ []) where
  report_service-Knows :
      lookup svc.name s.tracked ≡ none → Knows device svc.name (report_service now device svc s)
  unfolding report_service get_tracked_service_id add_tracked_service
  report_service-Knows new =
      let rows = s.database.tracked_services in
      let row = new_tracked (row_of now device svc) rows in
      elim (Option-cases (find_first (is_service device svc.name) rows)) [
        | inr (t, e) ↦ (
          t,
          ground arith,
          ground (arith, lookup-insert svc.name svc.name t.id s.tracked),
          ground arith,
        )
        | inl e ↦ (
          row,
          ground (
            arith,
            any-find (is_service device svc.name) rows,
            find-append (is_service device svc.name) rows row,
          ),
          ground (
            arith,
            any-find (is_service device svc.name) rows,
            lookup-insert svc.name svc.name row.id s.tracked,
          ),
          ground (arith, any-find (is_service device svc.name) rows),
        )
      ]

stored-report_known_row :
    (now device : ℕ) (svc : ServiceStatus) (s : Stream)
    → Knows device svc.name s
    → stored device svc.name (report_service now device svc s).database
      ≡ some (status_of svc.service)
unfolding report_service update_tracked_service
stored-report_known_row now device svc s (t, found, known, fine) =
    ground
      (arith, find-refresh (update_of now t.id svc) device svc.name s.database.tracked_services)

-- Two reports of a service, the first of them its first on this stream, leave the second's status
-- in the table, whether or not the table knew the service before, if no statement fails.
stored-report_twice :
    (now later device : ℕ) (first second : ServiceStatus) (s : Stream)
    → second.name ≡ first.name
    → lookup first.name s.tracked ≡ none
    → s.database.faults ≡ []
    → stored device second.name
        (report_service later device second (report_service now device first s)).database
      ≡ some (status_of second.service)
stored-report_twice now later device first second s same new fine =
    stored-report_known_row later device second _
      (rw same (report_service-Knows now device first s fine new))

-- If no statement fails, a service that the table knows keeps its old status at its first report on
-- a stream: the handler remembers the row's id and drops the reported status.
stored-report_known :
    (now device : ℕ) (svc : ServiceStatus) (s : Stream) (t : TrackedService)
    → find_first (is_service device svc.name) s.database.tracked_services ≡ some t
    → lookup svc.name s.tracked ≡ none
    → s.database.faults ≡ []
    → stored device svc.name (report_service now device svc s).database ≡ some t.status
unfolding report_service get_tracked_service_id
stored-report_known now device svc s t known new fine = ground arith
