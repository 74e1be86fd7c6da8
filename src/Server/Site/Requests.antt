-- ===== src/Server/Site/Requests.antt =====
-- What the handlers of pkg/mahogany/server.go read of a request.
use mahogany.Base.{
  ℕ, zero, suc, String, Option, none, some, List, [], ◌∷◌, Error, Result, ◌==◌, string_eq,
  if◌then◌else◌,
}
use mahogany.Database.Packages.{AddPackageParams}
use mahogany.UpdateServer.Propagate.{GithubReleaseEvent}
use mahogany.Server.Routes.{Segment, param, Verb, Route, pattern_of}

-- A request, by what the handlers read of it. `form` is `FormValue`, and `event` the body as the JSON
-- decoder reads it.
pub record Request : Type 0 where
  pub verb : Verb
  pub path : List String
  pub query_name : String
  pub form : String → String
  pub parse_form : Option Error
  pub event : Result GithubReleaseEvent

-- `PathValue`: what the wildcards of the route's pattern took, by their positions.
abbrev captures : List Segment → List String → List String
captures [] path = []
captures (seg ∷ more) [] = []
captures (param ∷ more) (s ∷ path) = s ∷ captures more path
captures (seg ∷ more) (s ∷ path) = captures more path

abbrev value_at : ℕ → List String → String
value_at n [] = ""
value_at zero (s ∷ more) = s
value_at (suc n) (s ∷ more) = value_at n more

abbrev pub path_value : ℕ → Route → Request → String
path_value n route r = value_at n (captures (pattern_of route).path r.path)

-- The parameters of `POST /package`.
abbrev pub package_params : Request → AddPackageParams
package_params r = record {
  name = r.form "Name";
  install_cmd = r.form "InstallCmd";
  update_cmd = r.form "UpdateCmd";
  remove_cmd = if r.form "RemoveCmd" == "" then none else some (r.form "RemoveCmd");
}
