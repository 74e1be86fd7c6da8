-- ===== src/Server/Routes/Disjoint.antt =====
-- No two routes match the same request.
use mahogany.Base.{
  String, ◌≡◌, ◌≢◌, refl, ap, ◌⊎◌, inl, inr, ◌↔◌, Bool, true, false, List, [], ◌∷◌, arith, keep,
  not, ◌&&◌, ◌||◌, ◌==◌, string_eq,
}
use mahogany.Server.Routes.{
  Segment, lit, param, end, Method, get, post, delete, Verb, matches_verb, matches_path, Route,
  Pattern, pattern_of, routes, matches, dispatch, Dispatch, serves, with_route, unserved,
}

-- Two patterns that no request can match both.
abbrev apart_path : List Segment → List Segment → Bool
apart_path [] [] = false
apart_path [] (q ∷ qs) = true
apart_path (p ∷ ps) [] = true
apart_path (lit a ∷ ps) (lit b ∷ qs) = not (a == b) || apart_path ps qs
apart_path (lit a ∷ ps) (param ∷ qs) = a == "" || apart_path ps qs
apart_path (param ∷ ps) (lit b ∷ qs) = b == "" || apart_path ps qs
apart_path (param ∷ ps) (param ∷ qs) = apart_path ps qs
apart_path (lit a ∷ ps) (end ∷ qs) = not (a == "")
apart_path (end ∷ ps) (lit b ∷ qs) = not (b == "")
apart_path (param ∷ ps) (end ∷ qs) = true
apart_path (end ∷ ps) (param ∷ qs) = true
apart_path (p ∷ ps) (q ∷ qs) = false

abbrev apart_method : Method → Method → Bool
apart_method get get = false
apart_method post post = false
apart_method delete delete = false
apart_method m n = true

abbrev apart : Pattern → Pattern → Bool
apart p q = apart_method p.method q.method || apart_path p.path q.path

apart_path_lem :
    (ps qs : List Segment) (path : List String)
    → apart_path ps qs ≡ true
    → matches_path ps path ≡ true
    → matches_path qs path ≡ false
apart_path_lem [] [] path a m = ground arith
apart_path_lem [] (q ∷ qs) [] a m = ground arith
apart_path_lem [] (q ∷ qs) (s ∷ path) a m = ground arith
apart_path_lem (p ∷ ps) [] [] a m = ground arith
apart_path_lem (p ∷ ps) [] (s ∷ path) a m = ground arith
apart_path_lem (p ∷ ps) (q ∷ qs) [] a m = ground arith
apart_path_lem (p ∷ ps) (q ∷ qs) (s ∷ path) a m = ground (arith, apart_path_lem ps qs path)

apart_method_lem :
    (m n : Method) (v : Verb)
    → apart_method m n ≡ true
    → matches_verb m v ≡ true
    → matches_verb n v ≡ false
apart_method_lem m n v a h = ground arith

apart_lem :
    (v : Verb) (path : List String) (p q : Pattern)
    → apart p q ≡ true
    → matches v path p ≡ true
    → matches v path q ≡ false
apart_lem v path p q a m =
    ground (arith, apart_path_lem p.path q.path path, apart_method_lem p.method q.method v)

-- No two of some things are in conflict.
abbrev apart_from : {A : Type 0} → (A → A → Bool) → A → List A → Bool
apart_from apart r [] = true
apart_from apart r (x ∷ xs) = apart r x && apart_from apart r xs

abbrev all_apart : {A : Type 0} → (A → A → Bool) → List A → Bool
all_apart apart [] = true
all_apart apart (r ∷ rs) = apart_from apart r rs && all_apart apart rs

abbrev In : {A : Type 0} → A → List A → Type 0
In r [] = ⊥
In r (x ∷ xs) = (r ≡ x) ⊎ In r xs

module _ {A : Type 0} (apart : A → A → Bool) (takes : A → Bool)
    (excludes : (x y : A) → apart x y ≡ true → takes x ≡ true → takes y ≡ false) where
  keep-apart :
      (r : A) (rs : List A) → apart_from apart r rs ≡ true → takes r ≡ true → keep takes rs ≡ []
  keep-apart r [] a t = refl
  keep-apart r (x ∷ xs) a t = ground (arith, excludes r x, keep-apart r xs)

  takes-apart :
      (x r : A) (xs : List A)
      → apart_from apart x xs ≡ true
      → takes r ≡ true
      → In r xs
      → takes x ≡ false
  takes-apart x r [] a t h = elim h [ ]
  takes-apart x r (y ∷ ys) a t (inl same) = ground (arith, excludes x y, ap takes same)
  takes-apart x r (y ∷ ys) a t (inr more) = ground (arith, takes-apart x r ys)

  keep_one :
      (r : A) (rs : List A)
      → all_apart apart rs ≡ true
      → takes r ≡ true
      → In r rs
      → keep takes rs ≡ r ∷ []
  keep_one r [] a t h = elim h [ ]
  keep_one r (x ∷ xs) a t (inl same) = ground (arith, ap takes same, keep-apart x xs, same)
  keep_one r (x ∷ xs) a t (inr more) = ground (arith, takes-apart x r xs, keep_one r xs)

  -- What comes first among those that are taken is taken.
  takes-first : (rs : List A) (r : A) (more : List A) → keep takes rs ≡ r ∷ more → takes r ≡ true
  takes-first [] r more e = ground arith
  takes-first (x ∷ xs) r more e = ground (arith, takes-first xs r more)

listed : (r : Route) → In r routes
unfolding routes
listed r = ground arith

routes-apart : all_apart (λ r s. apart (pattern_of r) (pattern_of s)) routes ≡ true
unfolding string_eq routes
routes-apart = refl

unserved-ne-serves :
    (slash : Bool) (slashed known : List Route) (r : Route)
    → unserved slash slashed known ≢ serves r
unserved-ne-serves true slashed [] r e = ground arith
unserved-ne-serves true slashed (x ∷ xs) r e = ground arith
unserved-ne-serves false [] [] r e = ground arith
unserved-ne-serves false [] (x ∷ xs) r e = ground arith
unserved-ne-serves false (y ∷ ys) known r e = ground arith

serves_first :
    (d : Dispatch) (rs : List Route) (r : Route)
    → (d ≢ serves r)
    → with_route d rs ≡ serves r
    → (more : List Route) × (rs ≡ r ∷ more)
serves_first d [] r n e = absurd (n e)
serves_first d (x ∷ xs) r n e = (xs, ground arith)

-- A request is served by a route exactly when its method and its path match the route's pattern: no
-- two routes match the same request, so the order in which they are registered does not matter.
pub dispatch-serves :
    (v : Verb) (path : List String) (r : Route)
    → (dispatch v path ≡ serves r) ↔ (matches v path (pattern_of r) ≡ true)
unfolding dispatch
dispatch-serves v path r =
    let test : Route → Bool = λ r. matches v path (pattern_of r) in
    let clash : Route → Route → Bool = λ r s. apart (pattern_of r) (pattern_of s) in
    let excludes = λ (x y : Route). apart_lem v path (pattern_of x) (pattern_of y) in
    (
      λ e.
          let (more, first) = serves_first _ (keep test routes) r (unserved-ne-serves _ _ _ r) e in
          takes-first clash test excludes routes r more first,
      λ t. ap (with_route _) (keep_one clash test excludes r routes routes-apart t (listed r)),
    )
