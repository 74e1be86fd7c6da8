-- ===== src/Database/Watched.antt =====
-- The table `watched_services` as what it stands for: a collection of names, with no order. Adding
-- and deleting are specified on the collection, and the statements of Database.Services do that.
use mathlib.Core.HLevel.{hedberg}
use mathlib.Core.Bool.{Bool-set}
use mathlib.Core.List.{foldr, is_set}
use mathlib.Core.List.Perm
use mathlib.Core.Quot
use mathlib.Core.Quot.{Quot, Quot-set}
use mathlib.Mathlib.Data.Multiset.Defs.{Multiset, of_list}
use mahogany.Base.{
  String, ◌≡◌, refl, ap, ◌∙◌, Bool, false, not, ◌||◌, List, [], ◌∷◌, ◌++◌, map, Result, ok, err,
  any, keep, sort_by, ◌==◌, string_eq, if◌then◌else◌, arith, Bool-cases, inl, inr, Option, none,
  some, Error,
}
use mahogany.Base.Sorting.{sort_by-Perm}
use mahogany.Database.{Database, WatchedService, Query, run, not_unique, text_le}
use mahogany.Database.Order.{text_le-IsOrder}
use mahogany.Database.Services.{
  list_watched_services, add_watched_service, delete_watched_service, new_watched,
}

abbrev Names : Type 0
Names = Multiset String

abbrev String_set : IsSet String
String_set = hedberg string_eq.dec

-- The functions of the specification, each with the proof that it does not see an order.
pub put : String → Names → Names
put name = Quot.lift Quot-set (λ xs. of_list (name ∷ xs)) (λ xs ys h. Quot.sound (Perm.cons name h))

put_comm : (a b : String) (q : Names) → put a (put b q) ≡ put b (put a q)
unfolding put
put_comm a b = Quot.ind (λ q. Quot-set _ _) (λ xs. Quot.sound (Perm.swap b a xs))

abbrev has_step : String → String → Bool → Bool
has_step name x rest = x == name || rest

pub has_step_comm :
    (name a b : String) (q : Bool)
    → has_step name a (has_step name b q) ≡ has_step name b (has_step name a q)
has_step_comm name a b q = ground arith

unfoldable pub has : String → Names → Bool
has name =
    Quot.lift Bool-set (foldr (has_step name) false)
      (λ xs ys h. Perm.foldr-eq Bool-set (has_step name) (has_step_comm name) h false)

abbrev drop_step : String → String → Names → Names
drop_step name x rest = if x == name then rest else put x rest

drop_step_comm :
    (name a b : String) (q : Names)
    → drop_step name a (drop_step name b q) ≡ drop_step name b (drop_step name a q)
drop_step_comm name a b q = ground (arith, put_comm a b q)

pub drop : String → Names → Names
drop name =
    Quot.lift Quot-set (foldr (drop_step name) (of_list []))
      (λ xs ys h. Perm.foldr-eq Quot-set (drop_step name) (drop_step_comm name) h (of_list []))

unfoldable pub sorted : Names → List String
sorted =
    Quot.lift (is_set String_set) (sort_by text_le)
      (λ xs ys h. sort_by-Perm text_le text_le-IsOrder String_set h)

-- What one statement does to the table.
pub data Change : Type 0 where
  adds removes : String → Change

abbrev change : Change → Names → Result (Unit {0}) × Names
change (adds name) q = if has name q then (err not_unique, q) else (ok tt, put name q)
change (removes name) q = (ok tt, drop name q)

-- The names, and which of the next statements fail.
abbrev Abstract : Type 0
Abstract = Names × List (Option Error)

abbrev perform : Change → Abstract → Result (Unit {0}) × Abstract
perform c (q, []) = let (r, q') = change c q in (r, (q', []))
perform c (q, none ∷ later) = let (r, q') = change c q in (r, (q', later))
perform c (q, some e ∷ later) = (err e, (q, later))

abbrev pub listed : Abstract → Result (List String)
listed (q, []) = ok (sorted q)
listed (q, none ∷ later) = ok (sorted q)
listed (q, some e ∷ later) = err e

abbrev names_of : List WatchedService → List String
names_of = map (λ (w : WatchedService). w.name)

abbrev pub abstract_of : Database → Abstract
abstract_of db = (of_list (names_of db.watched_services), db.faults)

abbrev statement : Change → Query (Unit {0})
statement (adds name) = add_watched_service name
statement (removes name) = delete_watched_service name

put-append :
    (name : String) (xs : List String) → of_list (xs ++ (name ∷ [])) ≡ put name (of_list xs)
unfolding put
put-append name [] = refl
put-append name (x ∷ xs) = ap (put x) (put-append name xs) ∙ put_comm x name (of_list xs)

has-names_of :
    (name : String) (rows : List WatchedService)
    → has name (of_list (names_of rows)) ≡ any (λ w. w.name == name) rows
unfolding has
has-names_of name [] = refl
has-names_of name (w ∷ rows) = ap (has_step name w.name) (has-names_of name rows)

drop-names_of :
    (name : String) (rows : List WatchedService)
    → drop name (of_list (names_of rows))
      ≡ of_list (names_of (keep (λ w. not (w.name == name)) rows))
unfolding drop put
drop-names_of name [] = refl
drop-names_of name (w ∷ rows) = elim (Bool-cases (w.name == name)) [
  | inl same ↦ rw same (drop-names_of name rows)
  | inr other ↦ rw other (ap (put w.name) (drop-names_of name rows))
]

names_of-append :
    (rows : List WatchedService) (w : WatchedService)
    → names_of (rows ++ (w ∷ [])) ≡ names_of rows ++ (w.name ∷ [])
names_of-append [] w = refl
names_of-append (v ∷ rows) w = ap (λ xs. v.name ∷ xs) (names_of-append rows w)

added :
    (name : String) (rows : List WatchedService)
    → of_list (names_of (rows ++ (new_watched name rows ∷ []))) ≡ put name (of_list (names_of rows))
added name rows =
    ap of_list (names_of-append rows (new_watched name rows)) ∙ put-append name (names_of rows)

statement-perform :
    (c : Change) (db : Database)
    → perform c (abstract_of db) ≡ ((statement c db).0, abstract_of (statement c db).1)
unfolding add_watched_service delete_watched_service run
statement-perform (adds name) db =
    ground (arith, added name db.watched_services, has-names_of name db.watched_services)
statement-perform (removes name) db = ground (arith, drop-names_of name db.watched_services)

pub list_watched_services-listed :
    (db : Database) → (list_watched_services db).0 ≡ listed (abstract_of db)
unfolding list_watched_services run sorted
list_watched_services-listed db = ground arith

-- Several statements, one after another, and what they are on the collection.
abbrev pub performed : List Change → Abstract → List (Result (Unit {0})) × Abstract
performed [] a = ([], a)
performed (c ∷ more) a =
    let (r, a') = perform c a in let (rs, last) = performed more a' in (r ∷ rs, last)

abbrev pub stated : List Change → Database → List (Result (Unit {0})) × Database
stated [] db = ([], db)
stated (c ∷ more) db =
    let (r, db') = statement c db in let (rs, last) = stated more db' in (r ∷ rs, last)

pub stated-performed :
    (cs : List Change) (db : Database)
    → performed cs (abstract_of db) ≡ ((stated cs db).0, abstract_of (stated cs db).1)
stated-performed [] db = refl
stated-performed (c ∷ more) db =
    ap (λ step. (step.0 ∷ (performed more step.1).0, (performed more step.1).1))
      (statement-perform c db)
    ∙ ap (λ rest. ((statement c db).0 ∷ rest.0, rest.1)) (stated-performed more (statement c db).1)
