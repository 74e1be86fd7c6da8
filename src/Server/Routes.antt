-- ===== src/Server/Routes.antt =====
-- The routes that `NewServer` of pkg/mahogany/server.go registers, and how `http.ServeMux` chooses
-- among them. A path is given by its segments after the first slash, clean and decoded; a path that
-- ends in a slash has an empty last segment.
pub mod Disjoint
use mahogany.Base.{
  ℕ, String, Bool, true, false, Option, none, some, List, [], ◌∷◌, ◌++◌, keep, not, ◌&&◌, ◌||◌,
  ◌==◌, string_eq, if◌then◌else◌,
}

-- A literal, a wildcard in braces, `{$}`, and the slash at the end of a subtree.
pub data Segment : Type 0 where
  lit : String → Segment
  param end subtree : Segment

pub data Method : Type 0 where
  get post delete : Method

-- The method of a request.
pub data Verb : Type 0 where
  verb : Method → Verb
  head : Verb
  other : String → Verb

-- A pattern for GET serves HEAD too.
abbrev pub matches_verb : Method → Verb → Bool
matches_verb get (verb get) = true
matches_verb get head = true
matches_verb post (verb post) = true
matches_verb delete (verb delete) = true
matches_verb m v = false

-- A wildcard takes one segment, which is not empty; `{$}` takes the slash at the end of the path.
abbrev pub matches_path : List Segment → List String → Bool
matches_path [] [] = true
matches_path [] (s ∷ path) = false
matches_path (lit text ∷ more) (s ∷ path) = text == s && matches_path more path
matches_path (param ∷ more) (s ∷ path) = not (s == "") && matches_path more path
matches_path (end ∷ more) (s ∷ path) = s == "" && matches_path [] path
matches_path (subtree ∷ more) (s ∷ path) = true
matches_path (seg ∷ more) [] = false

pub data Route : Type 0 where
  index container_page container_inspect container_start container_stop container_restart : Route
  container_remove container_logs container_logs_stream registry registry_delete : Route
  watchtower watchtower_update github_webhook control_plane settings settings_post : Route
  service_post service_delete devices device packages package_post package_delete static : Route

pub record Pattern : Type 0 where
  pub method : Method
  pub path : List Segment

abbrev pub pattern_of : Route → Pattern
pattern_of index = record { method = get; path = end ∷ [] }
pattern_of container_page = record { method = get; path = lit "container" ∷ param ∷ [] }
pattern_of container_inspect = record {
  method = get;
  path = lit "container" ∷ param ∷ lit "inspect" ∷ [];
}
pattern_of container_start = record {
  method = post;
  path = lit "container" ∷ param ∷ lit "start" ∷ [];
}
pattern_of container_stop = record {
  method = post;
  path = lit "container" ∷ param ∷ lit "stop" ∷ [];
}
pattern_of container_restart = record {
  method = post;
  path = lit "container" ∷ param ∷ lit "restart" ∷ [];
}
pattern_of container_remove = record {
  method = delete;
  path = lit "container" ∷ param ∷ lit "delete" ∷ [];
}
pattern_of container_logs = record {
  method = get;
  path = lit "container" ∷ param ∷ lit "logs" ∷ [];
}
pattern_of container_logs_stream = record {
  method = get;
  path = lit "container" ∷ param ∷ lit "logs" ∷ lit "stream" ∷ [];
}
pattern_of registry = record { method = get; path = lit "registry" ∷ [] }
pattern_of registry_delete = record {
  method = delete;
  path = lit "registry" ∷ lit "image" ∷ param ∷ param ∷ [];
}
pattern_of watchtower = record { method = get; path = lit "watchtower" ∷ [] }
pattern_of watchtower_update = record { method = post; path = lit "watchtower" ∷ lit "update" ∷ [] }
pattern_of github_webhook = record { method = post; path = lit "github" ∷ lit "webhook" ∷ [] }
pattern_of control_plane = record { method = get; path = lit "control-plane" ∷ [] }
pattern_of settings = record { method = get; path = lit "settings" ∷ [] }
pattern_of settings_post = record { method = post; path = lit "settings" ∷ [] }
pattern_of service_post = record { method = post; path = lit "settings" ∷ lit "service" ∷ [] }
pattern_of service_delete = record {
  method = delete;
  path = lit "settings" ∷ lit "service" ∷ param ∷ [];
}
pattern_of devices = record { method = get; path = lit "devices" ∷ [] }
pattern_of device = record { method = get; path = lit "device" ∷ param ∷ [] }
pattern_of packages = record { method = get; path = lit "packages" ∷ [] }
pattern_of package_post = record { method = post; path = lit "package" ∷ [] }
pattern_of package_delete = record { method = delete; path = lit "package" ∷ param ∷ [] }
pattern_of static = record { method = get; path = lit "static" ∷ subtree ∷ [] }

-- The routes in the order in which they are registered.
pub routes : List Route
routes =
    index ∷ container_page ∷ container_inspect ∷ container_start ∷ container_stop
    ∷ container_restart ∷ container_remove ∷ container_logs ∷ container_logs_stream ∷ registry
    ∷ registry_delete ∷ watchtower ∷ watchtower_update ∷ github_webhook ∷ control_plane ∷ settings
    ∷ settings_post ∷ service_post ∷ service_delete ∷ devices ∷ device ∷ packages ∷ package_post
    ∷ package_delete ∷ static ∷ []

abbrev pub matches : Verb → List String → Pattern → Bool
matches v path p = matches_verb p.method v && matches_path p.path path

-- What the mux makes of a request: a route, a redirection to the subtree, 405 or 404. Where several
-- routes match, this takes the first.
pub data Dispatch : Type 0 where
  serves : Route → Dispatch
  redirects not_allowed not_found : Dispatch

abbrev pub with_route : Dispatch → List Route → Dispatch
with_route default [] = default
with_route default (r ∷ rs) = serves r

abbrev ends_in_slash : List String → Bool
ends_in_slash [] = false
ends_in_slash (s ∷ []) = s == ""
ends_in_slash (s ∷ t ∷ path) = ends_in_slash (t ∷ path)

-- A route for the path, or for the path with a slash behind it, whatever its method.
abbrev is_path : List String → Route → Bool
is_path path r =
    matches_path (pattern_of r).path path
    || (not (ends_in_slash path) && matches_path (pattern_of r).path (path ++ ("" ∷ [])))

-- No route matches: from those that match the path with a slash behind it, and those for the path.
abbrev pub unserved : Bool → List Route → List Route → Dispatch
unserved true slashed known = elim known [ [] ↦ not_found | r ∷ rs ↦ not_allowed ]
unserved false [] known = elim known [ [] ↦ not_found | r ∷ rs ↦ not_allowed ]
unserved false (r ∷ rs) known = redirects

unfoldable pub dispatch : Verb → List String → Dispatch
dispatch v path =
    with_route
      (unserved (ends_in_slash path)
        (keep (λ r. matches v (path ++ ("" ∷ [])) (pattern_of r)) routes)
        (keep (is_path path) routes))
      (keep (λ r. matches v path (pattern_of r)) routes)
