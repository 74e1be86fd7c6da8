-- ===== src/Server/Tests.antt =====
-- A server with nothing configured, and the theorems of its requests at it.
use mahogany.Base.{
  ℕ, String, ◌≡◌, refl, ◌↔◌, true, none, [], ◌∷◌, Result, ok, err, inl, string_eq, ◌+◌,
}
use mahogany.Sources.Docker.{Docker}
use mahogany.Views.Tests.{world, finder}
use mahogany.Server.Routes.{get, verb, head, device, pattern_of, matches, serves, dispatch}
use mahogany.Server.Routes.Disjoint.{dispatch-serves}
use mahogany.Server.Reads.{SameFinder}
use mahogany.Server.Site.Requests.{Request}
use mahogany.Server.Site.{Templates, Site, serve}
use mahogany.Server.ReadOnly.{serve-SameFinder}

-- A daemon that counts the calls, and knows nothing else.
abbrev docker : Docker ℕ ℕ
docker = record {
  container_list = λ all d. (ok [], d + 1);
  container_stop = λ id d. (none, d + 1);
  container_start = λ id d. (none, d + 1);
  container_restart = λ id d. (none, d + 1);
  container_inspect = λ id d. ((d, none), d + 1);
  container_remove = λ id d. (none, d + 1);
  container_logs = λ id d. (ok [], d + 1);
}

abbrev templates : Templates ℕ
templates = record { load = none; execute = λ name page. none; execute_toast = λ name text. none }

abbrev site : Site ℕ
site = record { finder = finder; daemon = 0 }

abbrev no_id : String → Result ℕ
no_id text = err "invalid syntax"

abbrev look_at_settings : Request
look_at_settings = record {
  verb = verb get;
  path = "settings" ∷ [];
  query_name = "";
  form = λ name. "";
  parse_form = none;
  event = err "EOF";
}

serve-SameFinder_example :
    SameFinder finder (serve docker world no_id templates look_at_settings site).1.finder
serve-SameFinder_example =
    serve-SameFinder docker world no_id templates look_at_settings site (inl refl)

dispatch-serves_example :
    (dispatch head ("device" ∷ "n1" ∷ []) ≡ serves device)
    ↔ (matches head ("device" ∷ "n1" ∷ []) (pattern_of device) ≡ true)
dispatch-serves_example = dispatch-serves head ("device" ∷ "n1" ∷ []) device
