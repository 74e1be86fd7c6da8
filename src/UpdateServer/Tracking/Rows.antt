-- ===== src/UpdateServer/Tracking/Rows.antt =====
-- The rows of the tracked services: what a refreshed row and an added row leave of the others.
use mahogany.Base.{
  ℕ, String, ◌≤◌, ◌≡◌, ◌≢◌, refl, true, Bool, none, some, List, [], ◌∷◌, ◌++◌, map, arith,
  find_first, count_if, ◌==◌, string_eq, number_eq, if◌then◌else◌,
}
use mahogany.Database.{TrackedService}
use mahogany.Database.Services.{is_service, UpdateTrackedServiceParams, refresh}

pub find-append :
    (p : TrackedService → Bool) (rows : List TrackedService) (t : TrackedService)
    → find_first p (rows ++ (t ∷ []))
      ≡ elim (find_first p rows) [ none ↦ if p t then some t else none | some r ↦ some r ]
find-append p [] t = ground arith
find-append p (r ∷ rows) t = ground (arith, find-append p rows t)

pub find-refresh :
    (arg : UpdateTrackedServiceParams) (device : ℕ) (name : String) (rows : List TrackedService)
    → find_first (is_service device name) (map (refresh arg) rows)
      ≡ elim (find_first (is_service device name) rows) [
        | none ↦ none
        | some t ↦ some (refresh arg t)
      ]
find-refresh arg device name [] = refl
find-refresh arg device name (t ∷ rows) = ground (arith, find-refresh arg device name rows)

find-holds :
    (p : TrackedService → Bool) (rows : List TrackedService) (t : TrackedService)
    → find_first p rows ≡ some t
    → p t ≡ true
find-holds p [] t e = ground arith
find-holds p (r ∷ rows) t e = ground (arith, find-holds p rows t)

count-find :
    (p : TrackedService → Bool) (rows : List TrackedService) (t : TrackedService)
    → find_first p rows ≡ some t
    → 1 ≤ count_if (λ u. u.id == t.id) rows
count-find p [] t e = ground arith
count-find p (r ∷ rows) t e = ground (arith, count-find p rows t)

-- Two rows with one id are the same row.
same_row :
    (p q : TrackedService → Bool) (rows : List TrackedService) (t u : TrackedService)
    → count_if (λ r. r.id == t.id) rows ≤ 1
    → find_first p rows ≡ some t
    → find_first q rows ≡ some u
    → t.id ≡ u.id
    → t ≡ u
same_row p q [] t u one ft fu same = ground arith
same_row p q (r ∷ rows) t u one ft fu same =
    ground (arith, same_row p q rows t u, count-find p rows t, count-find q rows u)

-- The rows of two services of a device have different ids.
pub ids_differ :
    (device : ℕ) (name other : String) (rows : List TrackedService) (t u : TrackedService)
    → count_if (λ r. r.id == t.id) rows ≤ 1
    → name ≢ other
    → find_first (is_service device name) rows ≡ some t
    → find_first (is_service device other) rows ≡ some u
    → t.id ≢ u.id
ids_differ device name other rows t u one differ ft fu same =
    let t-u = same_row (is_service device name) (is_service device other) rows t u one ft fu same in
    let holds_t = find-holds (is_service device name) rows t ft in
    let holds_u = find-holds (is_service device other) rows u fu in differ (ground arith)
