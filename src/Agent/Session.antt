-- ===== src/Agent/Session.antt =====
-- `Run` of pkg/mahogany/agent.go: the agent registers, opens its stream of releases and installs
-- what comes. What registering, the set-up of the metrics and the opening of the stream give are
-- arguments; the reports of services run beside it, on a stream of their own.
use mathlib.Core.List.{append-nil, append_assoc}
use mathlib.Core.Path.{sym}
use mahogany.Base.{
  String, ◌≡◌, refl, ◌∙◌, ap, Bool, Option, none, some, List, [], ◌∷◌, ◌++◌, Error, Result, ok, err,
  keep,
}
use mahogany.Schema.{Release, RegisterManifestResponse}
use mahogany.UpdateServer.{UpdateServer, is_entitled}
use mahogany.UpdateServer.ReleaseStream.{
  Outcome, waiting, returned, Ending, messages_of, outcome_of, release_stream,
  release_stream-eq-keep,
}
use mahogany.Agent.{Effect, Machine, install_release}
use mahogany.Agent.Plan.{release_plan}
use mahogany.Agent.Completion.{IsWorking, install_release_works}

-- What `Recv` gives: a release, the end of the stream, or another error.
pub data Received : Type 0 where
  message : Release → Received
  end_of_stream : Received
  failed : Error → Received

-- The two `go` statements of `Run`: `Collect` of the metrics, and `reportServices`.
pub data Goroutine : Type 0 where
  collecting reporting : Goroutine

pub record Running : Type 0 where
  pub registration : Option RegisterManifestResponse
  pub started : List Goroutine
  pub outcome : Outcome
  pub effects : List Effect

abbrev ended : Error → Option RegisterManifestResponse → List Goroutine → Running
ended e registration started = record {
  registration = registration;
  started = started;
  outcome = returned (some e);
  effects = [];
}

module _ (m : Machine) (download_dir : String) where
  -- The `for` loop of `Run`; what an installation reports is not looked at.
  unfoldable run_stream : List Received → List Effect → Outcome × List Effect
  run_stream [] done = (waiting, done)
  run_stream (end_of_stream ∷ more) done = (returned none, done)
  run_stream (failed e ∷ more) done = (returned (some e), done)
  run_stream (message release ∷ more) done =
      run_stream more (install_release m download_dir release done).1

  -- `Run`: the registration that it keeps, the goroutines that it starts, and how it goes on.
  unfoldable pub run :
      Result RegisterManifestResponse → Option Error → Option Error → List Received → Running
  unfolding run_stream
  run registered metrics stream messages = elim registered [
    | err e ↦ ended e none []
    | ok registration ↦ elim metrics [
      | some e ↦ ended e (some registration) []
      | none ↦
          let started = collecting ∷ reporting ∷ [] in
          elim stream [
            | some e ↦ ended e (some registration) started
            | none ↦
                let (outcome, effects) = run_stream messages [] in
                record {
                  registration = some registration;
                  started = started;
                  outcome = outcome;
                  effects = effects;
                }
          ]
    ]
  ]

  -- The registration, and what comes of the stream.
  pub run_agent :
      Result RegisterManifestResponse
      → Option Error
      → Option Error
      → List Received
      → Option RegisterManifestResponse × (Outcome × List Effect)
  unfolding run
  run_agent registered metrics stream messages =
      let r = run registered metrics stream messages in (r.registration, (r.outcome, r.effects))

-- What gRPC gives the client of a handler that has sent some releases and stands so.
abbrev ending : Outcome → List Received
ending waiting = []
ending (returned none) = end_of_stream ∷ []
ending (returned (some e)) = failed e ∷ []

abbrev messages_then : List Release → List Received → List Received
messages_then [] tail = tail
messages_then (release ∷ more) tail = message release ∷ messages_then more tail

abbrev pub received : Outcome × List Release → List Received
received (o, sent) = messages_then sent (ending o)

abbrev pub plans : Machine → (String → String) → String → List Release → List Effect
plans m content download_dir [] = []
plans m content download_dir (release ∷ more) =
    release_plan m content download_dir release ++ plans m content download_dir more

module _ (m : Machine) (content : String → String) (works : IsWorking m content)
    (download_dir : String) where
  run_stream-ending :
      (o : Outcome) (done : List Effect) → run_stream m download_dir (ending o) done ≡ (o, done)
  unfolding run_stream
  run_stream-ending waiting done = refl
  run_stream-ending (returned none) done = refl
  run_stream-ending (returned (some e)) done = refl

  run_stream-messages_then :
      (sent : List Release) (o : Outcome) (done : List Effect)
      → run_stream m download_dir (messages_then sent (ending o)) done
        ≡ (o, done ++ plans m content download_dir sent)
  unfolding run_stream
  run_stream-messages_then [] o done =
      run_stream-ending o done ∙ ap (λ t. (o, t)) (sym (append-nil done))
  run_stream-messages_then (release ∷ more) o done =
      ap (λ (r : Bool × List Effect). run_stream m download_dir (messages_then more (ending o)) r.1)
        (install_release_works m content works download_dir release done)
      ∙ run_stream-messages_then more o (done ++ release_plan m content download_dir release)
      ∙ ap (λ t. (o, t)) (append_assoc done (release_plan m content download_dir release) _)

  -- From the broker to the machine: if no send and nothing on the machine fails, an agent that is
  -- registered carries out the plans of exactly those releases on its host's channel that the host
  -- is entitled to, one after another in the order of the channel; it then waits for more if the
  -- channel is open, and returns without an error if it was closed.
  pub run_agent-release_stream :
      (s : UpdateServer) (hostname : String) (send : List Release → Release → Option Error)
      (registration : RegisterManifestResponse)
      → ((sent : List Release) (release : Release) → send sent release ≡ none)
      → (releases : List Release) (end : Ending)
      → run_agent m download_dir
          (ok registration)
          none
          none
          (received (release_stream s hostname send (some (messages_of releases end))))
        ≡ (
          some registration,
          (
            outcome_of end,
            plans m content download_dir (keep (λ r. is_entitled s hostname r.name) releases),
          ),
        )
  unfolding run_agent
  run_agent-release_stream s hostname send registration reliable releases end =
      ap (λ r. (some registration, run_stream m download_dir (received r) []))
        (release_stream-eq-keep s hostname send reliable releases end)
      ∙ ap (λ t. (some registration, t))
          (run_stream-messages_then (keep (λ r. is_entitled s hostname r.name) releases)
            (outcome_of end) [])
