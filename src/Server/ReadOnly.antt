-- ===== src/Server/ReadOnly.antt =====
-- Requests by GET and HEAD over the whole server.
use mahogany.Base.{ℕ, String, ◌≡◌, refl, Option, none, some, List, Error, Result, true, arith, ◌⊎◌}
use mahogany.Sources.Docker.{Docker}
use mahogany.Views.{World, ViewFinder}
use mahogany.Server.{Viewer, new_handler}
use mahogany.Server.Routes.{
  Method, get, Verb, verb, head, Route, index, container_page, container_inspect, container_logs,
  container_logs_stream, registry, watchtower, github_webhook, control_plane, settings, devices,
  device, packages, static, Pattern, pattern_of, matches_verb, matches, Dispatch, serves, redirects,
  not_allowed, not_found, dispatch,
}
use mahogany.Server.Routes.Disjoint.{dispatch-serves}
use mahogany.Server.Reads.{
  SameFinder, SameFinder-refl, get_status-SameFinder, get_control_plane-SameFinder,
  get_settings-SameFinder, get_packages-SameFinder, get_registry-SameFinder, get_index-SameFinder,
  get_devices-SameFinder, get_device_view-SameFinder,
}
use mahogany.Server.Site.Pages.{Page}
use mahogany.Server.Site.Requests.{Request}
use mahogany.Server.Site.{
  Templates, Site, through_finder, through_daemon, through_both, on_finder, on_daemon, handle,
  serve, served,
}

-- A handler changes the state as its view does, or not at all.
new_handler-state :
    {Data State : Type 0} (load : Option Error) (execute : String → Data → Option Error)
    (view : State → Option (Viewer Data) × State) (P : State → Type 0) (s : State)
    → P s
    → P (view s).1
    → P (new_handler load execute view s).1
unfolding new_handler
new_handler-state (some e) execute view P s h k = h
new_handler-state none execute view P s h k = k

-- The method of a request that only looks.
abbrev Looks : Verb → Type 0
Looks v = (v ≡ verb get) ⊎ (v ≡ head)

matches_verb-get : (m : Method) (v : Verb) → Looks v → matches_verb m v ≡ true → m ≡ get
matches_verb-get m v looks h = ground arith

matches-get :
    (v : Verb) (path : List String) (p : Pattern)
    → Looks v
    → matches v path p ≡ true
    → p.method ≡ get
matches-get v path p looks h = matches_verb-get p.method v looks (ground arith)

module _ {Info Daemon : Type 0} (docker : Docker Info Daemon) (w : World)
    (parse_id : String → Result ℕ) (templates : Templates Info) where
  abbrev Keeps : Site Daemon → Site Daemon → Type 0
  Keeps s t = SameFinder s.finder t.finder

  on_finder-Keeps :
      (view : ViewFinder → Page Info × ViewFinder) (s : Site Daemon)
      → SameFinder s.finder (view s.finder).1
      → Keeps s (on_finder docker w parse_id templates view s).1
  unfolding on_finder
  on_finder-Keeps view s h =
      new_handler-state templates.load templates.execute (through_finder view) (Keeps s) s
        (SameFinder-refl s.finder) h

  on_daemon-Keeps :
      (view : Daemon → Page Info × Daemon) (s : Site Daemon)
      → Keeps s (on_daemon docker w parse_id templates view s).1
  unfolding on_daemon
  on_daemon-Keeps view s =
      new_handler-state templates.load templates.execute (through_daemon view) (Keeps s) s
        (SameFinder-refl s.finder) (SameFinder-refl s.finder)

  handle-Keeps :
      (route : Route) (r : Request) (s : Site Daemon)
      → (pattern_of route).method ≡ get
      → Keeps s (handle docker w parse_id templates route r s).1
  unfolding handle
  handle-Keeps index r s e =
      new_handler-state templates.load templates.execute (through_both docker w) (Keeps s) s
        (SameFinder-refl s.finder) (get_index-SameFinder docker w s.finder s.daemon)
  handle-Keeps registry r s e = on_finder-Keeps _ s (get_registry-SameFinder w s.finder)
  handle-Keeps watchtower r s e = on_finder-Keeps _ s (get_status-SameFinder w s.finder)
  handle-Keeps control_plane r s e = on_finder-Keeps _ s (get_control_plane-SameFinder w s.finder)
  handle-Keeps settings r s e = on_finder-Keeps _ s (get_settings-SameFinder w s.finder)
  handle-Keeps devices r s e = on_finder-Keeps _ s (get_devices-SameFinder w s.finder)
  handle-Keeps device r s e = on_finder-Keeps _ s (get_device_view-SameFinder w _ s.finder)
  handle-Keeps packages r s e = on_finder-Keeps _ s (get_packages-SameFinder w s.finder)
  handle-Keeps container_page r s e = on_daemon-Keeps _ s
  handle-Keeps container_inspect r s e = on_daemon-Keeps _ s
  handle-Keeps container_logs r s e = on_daemon-Keeps _ s
  handle-Keeps container_logs_stream r s e = SameFinder-refl s.finder
  handle-Keeps github_webhook r s e = SameFinder-refl s.finder
  handle-Keeps static r s e = SameFinder-refl s.finder
  handle-Keeps route r s e = absurd (ground arith)

  -- A request by GET or HEAD, whatever its path and whichever statements, templates and services
  -- fail, leaves the clients and the tables of the packages, assets, settings, watched services and
  -- tracked services as they were, and opens no transaction.
  pub serve-SameFinder :
      (r : Request) (s : Site Daemon)
      → Looks r.verb
      → SameFinder s.finder (serve docker w parse_id templates r s).1.finder
  unfolding serve
  serve-SameFinder r s looks = serve_by (dispatch r.verb r.path) refl
    where
      serve_by :
          (d : Dispatch)
          → dispatch r.verb r.path ≡ d
          → SameFinder s.finder (served docker w parse_id templates d r s).1.finder
      serve_by (serves route) e = handle-Keeps route r s (
          matches-get r.verb r.path (pattern_of route) looks
            ((dispatch-serves r.verb r.path route).0 e))
      serve_by redirects e = SameFinder-refl s.finder
      serve_by not_allowed e = SameFinder-refl s.finder
      serve_by not_found e = SameFinder-refl s.finder
