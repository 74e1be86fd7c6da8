-- ===== src/Sources/Tests.antt =====
-- The updater's client over a network that cancels what is out of time.
use mahogany.Base.{zero, suc, pos, negsuc, ◌≢◌, refl, none, some, ok, err}
use mahogany.Sources.Http.{Network, Request}
use mahogany.Sources.Watchtower.{new_watchtower, status, update, new_watchtower_fails}

abbrev net : Network
net = record {
  refuses = λ url. none;
  answer = λ (req : Request). elim req.timeout [
    | some (pos zero) ↦ err "context deadline exceeded"
    | some (pos (suc n)) ↦ ok (record { status_code = 200; status = "200 OK"; body = "" })
    | some (negsuc n) ↦ err "context deadline exceeded"
    | none ↦ ok (record { status_code = 200; status = "200 OK"; body = "" })
  ];
}

new_watchtower_fails_example :
    (status net (new_watchtower "updater:8080" "token" (pos 5)) ≢ none)
    × (update net (new_watchtower "updater:8080" "token" (pos 5)) ≢ none)
new_watchtower_fails_example =
    new_watchtower_fails net "updater:8080" "token" (pos 5)
      (λ req late. ("context deadline exceeded", rw late refl))
