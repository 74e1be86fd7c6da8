-- ===== src/Sources/Http.antt =====
-- The network, as the clients of pkg/mahogany/sources and pkg/vpn use it. What answers a request is
-- a parameter; a request carries the time that its context leaves it, in nanoseconds, which a duration below 0 may be
-- too.
use mahogany.Base.{ℕ, String, Option, none, some, List, Error, Result, err, ℤ}

pub data Method : Type 0 where
  get delete : Method

pub record Request : Type 0 where
  pub method : Method
  pub url : String
  pub headers : List (String × String)
  pub timeout : Option ℤ

pub record Response : Type 0 where
  pub status_code : ℕ
  pub status : String
  pub body : String

-- `http.NewRequestWithContext` refuses some addresses, and `http.DefaultClient.Do` may fail.
pub record Network : Type 0 where
  pub refuses : String → Option Error
  pub answer : Request → Result Response

abbrev pub status_ok : ℕ
status_ok = 200

abbrev pub status_accepted : ℕ
status_accepted = 202

-- `NewRequestWithContext`, the headers that are added to it, and `Do`.
unfoldable pub send : Network → Request → Result Response
send net req = elim (net.refuses req.url) [ some e ↦ err e | none ↦ net.answer req ]
