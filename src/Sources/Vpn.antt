-- ===== src/Sources/Vpn.antt =====
-- pkg/vpn: the client of the Tailscale API, and its data as far as the program reads it.
use mahogany.Base.{
  String, ◌<>◌, none, List, [], ◌∷◌, Result, ok, err, ◌>>=◌, ◌==◌, number_eq, if◌then◌else◌, Bool,
}
use mahogany.Sources.Http.{Method, get, Request, Response, Network, status_ok, send}

pub record Device : Type 0 where
  pub addresses : List String
  pub id : String
  pub node_id : String
  pub user : String
  pub name : String
  pub hostname : String
  pub client_version : String
  pub is_update_available : Bool
  pub os : String
  pub created : String
  pub last_seen : String
  pub is_key_expiry_disabled : Bool
  pub expires_at : String
  pub is_authorized : Bool
  pub is_external : Bool
  pub machine_key : String
  pub node_key : String
  pub blocks_incoming_connections : Bool
  pub tailnet_lock_key : String
  pub tailnet_lock_error : String
  pub tags : List String

pub record Acl : Type 0 where
  pub action : String
  pub source : List String
  pub destination : List String
  pub users : List String

pub record NetPolicy : Type 0 where
  pub groups : List (String × List String)
  pub tag_owners : List (String × List String)
  pub hosts : List (String × String)
  pub acls : List Acl
  pub ssh_acls : List Acl

pub record TailscaleClient : Type 0 where
  pub api_key : String
  pub tailnet : String

pub record Decoders : Type 0 where
  pub devices : String → Result (List Device)
  pub device : String → Result Device
  pub policy : String → Result NetPolicy

-- `newRequest`, with no limit of its own on the time.
abbrev new_request : TailscaleClient → Method → String → Request
new_request tc method path = record {
  method = method;
  url = "https://api.tailscale.com/api/v2/" <> path;
  headers = ("Authorization", "Bearer " <> tc.api_key) ∷ ("Accept", "application/json") ∷ [];
  timeout = none;
}

module _ (net : Network) (decode : Decoders) (tc : TailscaleClient) where
  -- What the three calls share: the answer's body, if its status is 200.
  abbrev body_of : Response → Result String
  body_of resp =
      if resp.status_code == status_ok
      then ok resp.body
      else err ("tailscale request failed: " <> resp.status)

  abbrev pub list_devices : Result (List Device)
  unfolding send
  list_devices = do
    resp ← send net (new_request tc get ("tailnet/" <> (tc.tailnet <> "/devices")))
    body ← body_of resp
    decode.devices body

  unfoldable pub get_device : String → Result Device
  unfolding send
  get_device device_id = do
    resp ← send net (new_request tc get ("device/" <> device_id))
    body ← body_of resp
    decode.device body

  abbrev pub get_acl : Result NetPolicy
  unfolding send
  get_acl = do
    resp ← send net (new_request tc get ("/tailnet/" <> (tc.tailnet <> "/acl")))
    body ← body_of resp
    decode.policy body
