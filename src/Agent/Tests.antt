-- ===== src/Agent/Tests.antt =====
-- An agent on a small machine.
use mahogany.Base.{
  false, count_if, ◌+◌, String, ◌<>◌, ◌≡◌, refl, true, Option, none, some, List, [], ◌∷◌, Error, ok,
  err, keep, number_eq, ap, sym, Result, ◌==◌,
}
use mahogany.Schema.{Release, RegisterManifestResponse}
use mahogany.Sources.Http.{Response, status_ok}
use mahogany.UpdateServer.{UpdateServer, new_update_server, is_entitled}
use mahogany.UpdateServer.ReleaseStream.{closed_end, messages_of, outcome_of, release_stream}
use mahogany.Agent.{Effect, Machine, install_release, replace_braces, split_at}
use mahogany.Agent.Plan.{release_plan}
use mahogany.Agent.Runs.{perform, install_release-eq-perform}
use mahogany.Agent.Supervisor.{Attempt, idle, is_set_up, supervise, collectors-supervise}
use mahogany.Agent.Session.{run, run_agent, received, plans, run_agent-release_stream}

abbrev pub content : String → String
content url = "contents of " <> url

-- Every download succeeds.
abbrev pub working : Machine
working = record {
  fails = λ done e. none;
  download = λ done url. ok (record { status_code = 200; status = "200 OK"; body = content url });
  join = λ dir name. dir <> ("/" <> name);
}

abbrev full_disk : Machine
full_disk = record working { fails = λ done e. some "no space left on device" }

abbrev release : Release
release = record {
  name = "tool";
  version = "v1";
  repository_name = "me/tool";
  assets = record { name = "tool.tar"; source_url = "https://github.com/me/tool/tool.tar" } ∷ [];
  install_command = "tar xf {};echo done";
}

commands :
    split_at b';' (replace_braces "/tmp/tool.tar" release.install_command)
    ≡ "tar xf /tmp/tool.tar" ∷ "echo done" ∷ []
unfolding number_eq
commands = refl

content_is_stable :
    (done : List Effect) (url : String) (resp : Response)
    → full_disk.download done url ≡ ok resp
    → (resp.status_code == status_ok) ≡ true
    → resp.body ≡ content url
content_is_stable done url resp e good =
    sym (ap (λ (r : Result Response). elim r [ ok x ↦ x.body | err _ ↦ "" ]) e)

install_release-eq-perform_example :
    install_release full_disk "/tmp" release []
    ≡ perform full_disk (release_plan full_disk content "/tmp" release) []
install_release-eq-perform_example =
    install_release-eq-perform full_disk content content_is_stable "/tmp" release []

abbrev server : UpdateServer
server = new_update_server (record {
  baseline = [];
  host_packages = record { host_name = "alpha"; packages = []; skipped = "tool" ∷ [] } ∷ [];
})

abbrev sends_all : List Release → Release → Option Error
sends_all sent r = none

abbrev pub registration : RegisterManifestResponse
registration = record {
  subscribe_to_docker = true;
  subscribe_to_systemd = true;
  subscribe_to_services = [];
}

run_agent-release_stream_example :
    run_agent working "/tmp" (ok registration) none none (
      received
        (release_stream server "alpha" sends_all (some (messages_of (release ∷ []) closed_end))))
    ≡ (
      some registration,
      (
        outcome_of closed_end,
        plans working content "/tmp" (keep (λ r. is_entitled server "alpha" r.name) (release ∷ [])),
      ),
    )
run_agent-release_stream_example =
    run_agent-release_stream working content ((λ done e. refl), (λ done url. refl)) "/tmp" server
      "alpha" sends_all registration (λ sent r. refl) (release ∷ []) closed_end

-- The server registers the agent, but does not open its stream.
abbrev pub refused : Attempt
refused = record {
  registered = ok (record {
    subscribe_to_docker = true;
    subscribe_to_systemd = true;
    subscribe_to_services = [];
  });
  metrics = none;
  stream = some "unavailable";
  messages = [];
  cancelled = false;
}

collectors-supervise_example :
    (supervise working "/tmp" (refused ∷ refused ∷ []) (idle false)).collectors
    ≡ (idle false).collectors + count_if is_set_up (refused ∷ refused ∷ [])
unfolding run
collectors-supervise_example =
    collectors-supervise working "/tmp" (refused ∷ refused ∷ []) (idle false) refl refl
