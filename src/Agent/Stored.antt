-- ===== src/Agent/Stored.antt =====
-- From an agent's services to the server's table: `reportServices` at one end of the stream and
-- `ServicesStream` at the other.
use mathlib.Core.Path.{sym, subst}
use mahogany.Base.{
  ℕ, String, ◌≡◌, refl, ap, ◌∙◌, Bool, true, Option, none, some, List, [], ◌∷◌, ◌++◌, arith, All,
  Error, Result, ok, err, ◌==◌, string_eq, find_first, ◌⊎◌, inl, inr,
}
use mahogany.Schema.{ServiceStatus, ServicesStreamRequest, RegisterManifestResponse}
use mahogany.Database.{Device, Database}
use mahogany.Database.Unique.{IsUnique}
use mahogany.UpdateServer.ServicesStream.{
  Stream, report_services as handle_services, receive_reports, services_stream,
}
use mahogany.UpdateServer.Tracking.{stored}
use mahogany.UpdateServer.History.Streams.{
  heard, reporter, statuses, final_status, stored-services_stream,
}
use mahogany.Agent.Report.{report_round, Round, report_loop, report_services}
use mahogany.Agent.Reporting.{AsksAll, named_lists, observed, statuses-append, report_round-Says}

-- The requests that the server receives before the stream ends.
abbrev pub contents : List (ℕ × Result ServicesStreamRequest) → List ServicesStreamRequest
contents [] = []
contents ((now, err _) ∷ more) = []
contents ((now, ok msg) ∷ more) = msg ∷ contents more

-- All the reports of some requests.
abbrev all_services : List ServicesStreamRequest → List ServiceStatus
all_services [] = []
all_services (req ∷ more) = req.services ++ all_services more

heard-contents :
    (messages : List (ℕ × Result ServicesStreamRequest))
    → heard messages ≡ all_services (contents messages)
heard-contents [] = refl
heard-contents ((now, err e) ∷ more) = refl
heard-contents ((now, ok msg) ∷ more) = ap (λ rest. msg.services ++ rest) (heard-contents more)

-- A stream whose requests all come from one host is that host's, or reports nothing.
message_reporter :
    (hostname host : String) (services : List ServiceStatus)
    (more : List (ℕ × Result ServicesStreamRequest))
    → host ≡ hostname
    → (reporter more ≡ some hostname) ⊎ (heard more ≡ [])
    → ((elim services [ [] ↦ reporter more | _ ∷ _ ↦ some host ]) ≡ some hostname)
      ⊎ (services ++ heard more ≡ [])
message_reporter hostname host [] more from rest = rest
message_reporter hostname host (svc ∷ services) more from rest = inl (ap some from)

reporter-cases :
    (hostname : String) (messages : List (ℕ × Result ServicesStreamRequest))
    → All (λ req. req.hostname ≡ hostname) (contents messages)
    → (reporter messages ≡ some hostname) ⊎ (heard messages ≡ [])
reporter-cases hostname [] from = inr refl
reporter-cases hostname ((now, err e) ∷ more) from = inr refl
reporter-cases hostname ((now, ok msg) ∷ more) from =
    message_reporter hostname msg.hostname msg.services more from.0
      (reporter-cases hostname more from.1)

-- A stream that reports nothing changes nothing.
report_services-silent :
    (now : ℕ) (hostname : String) (services rest : List ServiceStatus) (s : Stream)
    → services ++ rest ≡ []
    → (handle_services now hostname services s ≡ s) × (rest ≡ [])
unfolding handle_services
report_services-silent now hostname [] rest s quiet = (refl, quiet)
report_services-silent now hostname (svc ∷ services) rest s quiet = absurd (ground arith)

receive_reports-silent :
    (messages : List (ℕ × Result ServicesStreamRequest)) (s : Stream)
    → heard messages ≡ []
    → receive_reports messages s ≡ s
unfolding receive_reports
receive_reports-silent [] s quiet = refl
receive_reports-silent ((now, err e) ∷ more) s quiet = refl
receive_reports-silent ((now, ok msg) ∷ more) s quiet =
    let (same, rest) = report_services-silent now msg.hostname msg.services (heard more) s quiet in
    ap (receive_reports more) same ∙ receive_reports-silent more s rest

module _ (hostname name : String) (registration : RegisterManifestResponse)
    (asked : AsksAll registration) (cancelled : Bool) where
  abbrev sent : List Round → List ServicesStreamRequest
  sent rounds = (report_loop hostname registration cancelled rounds).1

  statuses-sent :
      (rounds : List Round)
      → named_lists rounds ≡ true
      → statuses name (all_services (sent rounds)) ≡ observed name rounds
  unfolding report_loop
  statuses-sent [] h = refl
  statuses-sent (r ∷ more) h =
      let says =
        report_round-Says hostname name registration asked r.containers r.units r.send
          (ground arith) in
      ground (
        arith,
        says.sends,
        says.shows,
        statuses-append name says.request.services (all_services (sent more)),
        statuses-sent more,
      )

  abbrev kept :
      Option Error → ServicesStreamRequest → List ServicesStreamRequest → List ServicesStreamRequest
  kept none req rest = req ∷ rest
  kept (some e) req rest = rest

  sent-kept :
      (r : Round) (more : List Round) (req : ServicesStreamRequest)
      → report_round hostname registration r.containers r.units ≡ some req
      → kept r.send req (sent more) ≡ sent (r ∷ more)
  unfolding report_loop
  sent-kept r more req e = ground arith

  abbrev FromHost : List ServicesStreamRequest → Type 0
  FromHost = All (λ req. req.hostname ≡ hostname)

  kept-FromHost :
      (send : Option Error) (req : ServicesStreamRequest) (rest : List ServicesStreamRequest)
      → req.hostname ≡ hostname
      → FromHost rest
      → FromHost (kept send req rest)
  kept-FromHost none req rest h k = (h, k)
  kept-FromHost (some e) req rest h k = k

  sent-FromHost : (rounds : List Round) → named_lists rounds ≡ true → FromHost (sent rounds)
  unfolding report_loop
  sent-FromHost [] h = tt
  sent-FromHost (r ∷ more) h =
      let says =
        report_round-Says hostname name registration asked r.containers r.units r.send
          (ground arith) in
      subst FromHost (sent-kept r more says.request says.sends) (
        kept-FromHost r.send says.request (sent more) says.named
          (sent-FromHost more (ground arith)))

  final-nothing : (old : Option String) → final_status old [] ≡ old
  final-nothing none = refl
  final-nothing (some old) = refl

  -- What an agent sees of a service in its rounds decides what the server's table says of it: if the
  -- registration asks for both kinds of services, the connections open, each container has a name, the
  -- server receives exactly the requests that were sent, at whatever times, the host has a device and
  -- no statement fails, then the table has the status that was seen last; but where it had
  -- the service before, the first status does not count, and with none seen the old one stays.
  pub stored-report_services :
      (rounds : List Round) (messages : List (ℕ × Result ServicesStreamRequest)) (d : Device)
      (db : Database)
      → named_lists rounds ≡ true
      → contents messages
        ≡ (report_services hostname registration none none none cancelled rounds).1
      → db.faults ≡ []
      → IsUnique db
      → find_first (λ d. d.hostname == hostname) db.devices ≡ some d
      → stored d.id name (services_stream messages db)
        ≡ final_status (stored d.id name db) (observed name rounds)
  unfolding report_services services_stream
  stored-report_services rounds messages d db named received fine unique found =
      let same : contents messages ≡ sent rounds = ground arith in
      let from : FromHost (contents messages) = rw same (sent-FromHost rounds named) in
      let seen : statuses name (heard messages) ≡ observed name rounds =
        ap (statuses name) (heard-contents messages ∙ ap all_services same)
        ∙ statuses-sent rounds named in
      elim (reporter-cases hostname messages from) [
        | inl by_host ↦
            stored-services_stream messages hostname name d db fine unique by_host found
            ∙ ap (final_status (stored d.id name db)) seen
        | inr quiet ↦
            let s : Stream = record { device_id = none; tracked = []; database = db } in
            ap (λ (s : Stream). stored d.id name s.database)
              (receive_reports-silent messages s quiet)
            ∙ sym (final-nothing (stored d.id name db))
            ∙ ap (λ services. final_status (stored d.id name db) (statuses name services))
                (sym quiet)
            ∙ ap (final_status (stored d.id name db)) seen
      ]
