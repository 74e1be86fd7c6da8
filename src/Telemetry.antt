-- ===== src/Telemetry.antt =====
-- pkg/mahogany/otel.go: the set-up of the telemetry and the clean-up that it gives back. The exporter
-- and the provider are OpenTelemetry's, so they are parameters; a context is known by whether it is
-- done. `errors.Join` is the list of the errors that it holds, with nil for the empty list.
use mathlib.Core.List.{append-nil, append_assoc}
use mahogany.Base.{
  Bool, String, ◌≡◌, refl, sym, ◌∙◌, Option, none, some, List, [], ◌∷◌, ◌++◌, map, Error, Result,
  ok, err,
}

-- What one set-up holds: the clean-ups that are registered, and the provider that it made the global
-- one; and the calls of clean-ups, each with the state of the context that it got.
pub record Telemetry (K : Type 0) : Type 0 where
  pub shutdown_funcs : List K
  pub provider : Option K
  pub calls : List (K × Bool)

abbrev join : Option Error → List Error → List Error
join none errors = errors
join (some e) errors = errors ++ (e ∷ [])

abbrev start : {K : Type 0} → Telemetry K
start = record { shutdown_funcs = []; provider = none; calls = [] }

module _ {K : Type 0} (answer : List (K × Bool) → K → Bool → Option Error) where
  -- The loop of `shutdown`: the errors so far, and the calls so far.
  unfoldable pub call_all :
      Bool → List K → List Error → List (K × Bool) → List Error × List (K × Bool)
  call_all done [] errors calls = (errors, calls)
  call_all done (k ∷ more) errors calls =
      call_all done more (join (answer calls k done) errors) (calls ++ ((k, done) ∷ []))

  unfoldable pub shutdown : Bool → Telemetry K → List Error × Telemetry K
  unfolding call_all
  shutdown done t =
      let (errors, calls) = call_all done t.shutdown_funcs [] t.calls in
      (errors, record t { shutdown_funcs = []; calls = calls })

  module _ {X : Type 0} (new_exporter : String → Result X) (provider_of : X → K) where
    unfoldable pub new_meter_provider : String → Result K
    new_meter_provider endpoint = elim (new_exporter endpoint) [
      | err e ↦ err e
      | ok exporter ↦ ok (provider_of exporter)
    ]

    -- `SetupOTelSDK`, under a context that is done or not.
    unfoldable pub set_up_otel_sdk : Bool → String → List Error × Telemetry K
    unfolding new_meter_provider shutdown
    set_up_otel_sdk done endpoint = elim (new_meter_provider endpoint) [
      | err e ↦ let (errors, t) = shutdown done start in (e ∷ errors, t)
      | ok k ↦ ([], record start { shutdown_funcs = k ∷ []; provider = some k })
    ]

  call_all-calls :
      (done : Bool) (funcs : List K) (errors : List Error) (calls : List (K × Bool))
      → (call_all done funcs errors calls).1 ≡ calls ++ map (λ k. (k, done)) funcs
  unfolding call_all
  call_all-calls done [] errors calls = sym (append-nil calls)
  call_all-calls done (k ∷ more) errors calls =
      call_all-calls done more (join (answer calls k done) errors) (calls ++ ((k, done) ∷ []))
      ∙ append_assoc calls ((k, done) ∷ []) (map (λ k. (k, done)) more)

  -- A shutdown calls every clean-up that is registered once, in the order of registration, whatever
  -- the errors; every later shutdown calls nothing, returns nil and changes nothing.
  shutdown_once :
      (first later : Bool) (t : Telemetry K)
      → let t' = (shutdown first t).1 in
        (t'.calls ≡ t.calls ++ map (λ k. (k, first)) t.shutdown_funcs)
        × (shutdown later t' ≡ ([], t'))
  unfolding shutdown call_all
  shutdown_once first later t = (call_all-calls first t.shutdown_funcs [] t.calls, refl)
