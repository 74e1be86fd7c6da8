-- ===== src/Server.antt =====
-- The handlers of pkg/mahogany/server.go, between the request and the answer. Loading the templates
-- and executing one are parameters: the error that they give, if any.
pub mod Saving
pub mod Routes
pub mod Site
pub mod Reads
pub mod ReadOnly
pub mod Lifecycle
pub mod New
pub mod Main
pub mod Templates
pub mod LastSeen
mod TemplatesTests
mod MainTests
mod Tests
use mahogany.Base.{ℕ, String, ◌<>◌, Option, none, some, List, [], ◌∷◌, ◌++◌, Error, Result, ok, err}
use mahogany.Database.Settings.{UpdateSettingParams}
use mahogany.Views.{World, ViewFinder}
use mahogany.Views.Settings.{post_settings}

-- What a handler writes: the status, the headers that it adds, and the template with its data.
pub record Answer (Data : Type 0) : Type 0 where
  pub code : ℕ
  pub headers : List (String × String)
  pub template : Option (String × Data)

abbrev success : ℕ
success = 200

abbrev server_error : ℕ
server_error = 500

abbrev failure : {Data : Type 0} → List (String × String) → Answer Data
failure headers = record { code = server_error; headers = headers; template = none }

-- `Viewer`: a view with its name and its headers, each of which may have several values.
record Viewer (Data : Type 0) : Type 0 where
  pub name : String
  pub headers : List (String × List String)
  pub contents : Data

-- The loops over `view.Headers()`.
abbrev each_value : String → List String → List (String × String)
each_value name [] = []
each_value name (value ∷ more) = (name, value) ∷ each_value name more

abbrev all_headers : List (String × List String) → List (String × String)
all_headers [] = []
all_headers ((name, values) ∷ more) = each_value name values ++ all_headers more

module _ {Data State : Type 0} (load_templates : Option Error)
    (execute_template : String → Data → Option Error) where
  -- `newHandler`: a nil view is `none`.
  unfoldable new_handler : (State → Option (Viewer Data) × State) → State → Answer Data × State
  new_handler view_func s = elim load_templates [
    | some _ ↦ (failure [], s)
    | none ↦
        let (view, s') = view_func s in
        (
          elim view [
            | none ↦ failure []
            | some view ↦ elim (execute_template view.name view.contents) [
              | some _ ↦ failure (all_headers view.headers)
              | none ↦ record {
                code = success;
                headers = all_headers view.headers;
                template = some (view.name, view.contents);
              }
            ]
          ],
          s',
        )
  ]

-- `HandlePostSettings`, from the setting's name in the query, its value in the form and the outcome
-- of `ParseForm`.
module _ (load_templates : Option Error) (execute_template : String → String → Option Error) where
  pub handle_post_settings :
      World → String → String → Option Error → ViewFinder → Answer String × ViewFinder
  handle_post_settings w name value parse_form v = elim load_templates [
    | some _ ↦ (failure [], v)
    | none ↦
        let (failed, v') = post_settings w (record { value = value; name = name }) v in
        let result : String = elim failed [
          | some e ↦ e
          | none ↦ elim parse_form [ some _ ↦ "error" | none ↦ "saved" ]
        ] in
        (
          elim (execute_template "settings-toast" result) [
            | some _ ↦ failure []
            | none ↦ record {
              code = success;
              headers = [];
              template = some ("settings-toast", result);
            }
          ],
          v',
        )
  ]

-- `HandleContainerLogsStream`: the texts that it writes, from what `GetContainerLogs` gives, as the
-- lines of the log.
abbrev log_event : String → String
log_event line = "event: log\n" <> ("data: <p>" <> (line <> "</p>\n\n"))

unfoldable stream_logs : Result (List String) → List String
stream_logs (err e) = ("event: log\n" <> ("data: Error: " <> (e <> "\n\n"))) ∷ []
stream_logs (ok []) = []
stream_logs (ok (line ∷ more)) = log_event line ∷ stream_logs (ok more)
