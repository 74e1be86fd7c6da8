-- ===== src/Sources/Watchtower.antt =====
-- pkg/mahogany/sources/watchtower.go: the client of the updater.
use mahogany.Base.{
  ℤ, pos, String, ◌<>◌, ◌≡◌, ◌≢◌, refl, Option, none, some, [], ◌∷◌, arith, Error, ok, err, ◌==◌,
  number_eq, if◌then◌else◌,
}
use mahogany.Sources.Http.{get, Request, Network, status_ok, send}

pub record Watchtower : Type 0 where
  pub addr : String
  pub token : String
  pub timeout : ℤ

-- `NewWatchtower` leaves the field `timeout` at its zero value.
pub new_watchtower : String → String → ℤ → Watchtower
new_watchtower addr token timeout = record { addr = addr; token = token; timeout = pos 0 }

abbrev request : Watchtower → String → Request
request w path = record {
  method = get;
  url = "http://" <> (w.addr <> path);
  headers = ("authorization", "Bearer " <> w.token) ∷ [];
  timeout = some w.timeout;
}

module _ (net : Network) (w : Watchtower) where
  -- `Status`: any answer will do
  pub status : Option Error
  unfolding send
  status = elim (send net (request w "/v1/")) [ err e ↦ some e | ok resp ↦ none ]

  -- `Update`
  pub update : Option Error
  unfolding send
  update = elim (send net (request w "/v1/update")) [
    | err e ↦ some e
    | ok resp ↦ if resp.status_code == status_ok then none else some resp.status
  ]

-- A context with no time left makes every request fail.
abbrev EndsInTime : Network → Type 0
EndsInTime net =
    (req : Request) → req.timeout ≡ some (pos 0) → (e : Error) × (net.answer req ≡ err e)

-- Over a network that fails requests with no time left, both calls of a client that `NewWatchtower`
-- makes always fail, whatever timeout it was asked for.
pub new_watchtower_fails :
    (net : Network) (addr token : String) (timeout : ℤ)
    → EndsInTime net
    → (status net (new_watchtower addr token timeout) ≢ none)
      × (update net (new_watchtower addr token timeout) ≢ none)
unfolding new_watchtower status update
new_watchtower_fails net addr token timeout ends = (
  ground (arith, (ends (request (new_watchtower addr token timeout) "/v1/") refl).1),
  ground (arith, (ends (request (new_watchtower addr token timeout) "/v1/update") refl).1),
)
