-- ===== src/Server/Templates.antt =====
-- The functions that the pages' templates call (`loadTemplates` of pkg/mahogany/server.go). A text is
-- the list of its bytes, `none` is a panic, and a time is the nanoseconds since the year 0, where the
-- years that `time.Parse` reads begin. Parsing a time is a parameter.
use mathlib.Core.List.{append-nil, append_assoc}
use mahogany.Base.{
  ℕ, zero, suc, ◌-◌, ◌≡◌, refl, ap, Bool, true, false, ◌&&◌, Option, none, some, List, [], ◌∷◌,
  ◌++◌, Result, ℤ, pos, negsuc, length, leb, ◌==◌, number_eq, if◌then◌else◌, arith, String, ◌>>=◌,
  Bool-cases, inl, inr, ◌∙◌, sym, ◌⊎◌,
}
use mahogany.Metrics.{has_prefix}

abbrev take {ℓ} : {A : Type ℓ} → ℕ → List A → List A
take zero xs = []
take (suc n) [] = []
take (suc n) (x ∷ xs) = x ∷ take n xs

-- `truncate`: `min(len(str), maxLen)` bytes, which may end inside a character.
abbrev pub truncate : List ℕ → ℤ → Option (List ℕ)
truncate str (negsuc n) = none
truncate str (pos n) = some (take (if leb (length str) n then length str else n) str)

abbrev drop {ℓ} : {A : Type ℓ} → ℕ → List A → List A
drop zero xs = xs
drop (suc n) [] = []
drop (suc n) (x ∷ xs) = drop n xs

-- `strings.TrimPrefix`
abbrev trim_prefix : List ℕ → List ℕ → List ℕ
trim_prefix str prefix = if has_prefix str prefix then drop (length prefix) str else str

abbrev between : ℕ → ℕ → ℕ → Bool
between low high c = leb low c && leb c high

-- Whether three, and four, bytes are a character; the ranges leave out long forms and surrogates.
abbrev three : ℕ → ℕ → ℕ → Bool
three a b c =
    between 224 239 a
    && (between (if a == 224 then 160 else 128) (if a == 237 then 159 else 191) b
        && between 128 191 c)

abbrev four : ℕ → ℕ → ℕ → ℕ → Bool
four a b c d =
    between 240 244 a
    && (between (if a == 240 then 144 else 128) (if a == 244 then 143 else 191) b
        && (between 128 191 c && between 128 191 d))

-- The bytes of the first character, as UTF-8 is read; a byte that begins none counts alone.
abbrev width : List ℕ → ℕ
width [] = 0
width (a ∷ []) = 1
width (a ∷ b ∷ []) = if between 194 223 a && between 128 191 b then 2 else 1
width (a ∷ b ∷ c ∷ []) =
    if between 194 223 a && between 128 191 b then 2 else if three a b c then 3 else 1
width (a ∷ b ∷ c ∷ d ∷ str) =
    if between 194 223 a && between 128 191 b
    then 2
    else if three a b c
    then 3
    else if four a b c d
    then 4
    else 1

-- `strings.Split` by the empty text: the characters, behind the bytes that are still to be skipped.
abbrev explode : ℕ → List ℕ → List (List ℕ)
explode skip [] = []
explode zero (c ∷ str) =
    let w = width (c ∷ str) in let rest = explode (w - 1) str in take w (c ∷ str) ∷ rest
explode (suc skip) (c ∷ str) = explode skip str

-- `strings.Split` by another text, with the part that is read so far.
abbrev split_from : List ℕ → ℕ → List ℕ → List ℕ → List (List ℕ)
split_from delim skip part [] = part ∷ []
split_from delim zero part (c ∷ str) =
    let next = split_from delim (length delim - 1) [] str in
    let more = split_from delim 0 (part ++ (c ∷ [])) str in
    if has_prefix (c ∷ str) delim then part ∷ next else more
split_from delim (suc skip) part (c ∷ str) = split_from delim skip part str

abbrev split_by : List ℕ → List ℕ → List (List ℕ)
split_by str [] = explode 0 str
split_by str (d ∷ delim) = split_from (d ∷ delim) 0 [] str

abbrev first : List (List ℕ) → Option (List ℕ)
first [] = none
first (part ∷ parts) = some part

-- `cutOn`
abbrev pub cut_on : List ℕ → List ℕ → Option (List ℕ)
cut_on str delim = first (split_by str delim)

-- `loadTemplates`, from the empty template with the functions above: the pages, then the parts.
-- `path.Join` and the parser of the files that a pattern names are parameters.
unfoldable load_templates :
    {Plate : Type 0}
    → (String → String → String)
    → (Plate → String → Result Plate)
    → Plate
    → String
    → Result Plate
load_templates path_join parse_glob plate base_dir =
    parse_glob plate (path_join base_dir "views/*.html") >>= λ pages.
    parse_glob pages (path_join base_dir "templates/*.html")

-- No occurrence of the delimiter begins inside the part.
abbrev Avoids : List ℕ → List ℕ → List ℕ → Type 0
Avoids delim [] rest = Unit
Avoids delim (c ∷ part) rest =
    (has_prefix ((c ∷ part) ++ rest) delim ≡ false) × Avoids delim part rest

-- By a delimiter that is not empty, `cutOn` never panics, and gives what stands before the first
-- occurrence, or all of the text if there is none.
first-split_from :
    (d : ℕ) (delim part str : List ℕ)
    → (piece rest : List ℕ) × (first (split_from (d ∷ delim) 0 part str) ≡ some (part ++ piece))
      × (str ≡ piece ++ rest)
      × ((rest ≡ []) ⊎ (has_prefix rest (d ∷ delim) ≡ true))
      × Avoids (d ∷ delim) piece rest
first-split_from d delim part [] = ([], [], ap some (sym (append-nil part)), refl, inl refl, tt)
first-split_from d delim part (c ∷ str) = elim (Bool-cases (has_prefix (c ∷ str) (d ∷ delim))) [
  | inl here ↦ ([], c ∷ str, rw here (ap some (sym (append-nil part))), refl, inr here, tt)
  | inr later ↦
      let (piece, rest, cut, whole, ends, avoids) =
        first-split_from d delim (part ++ (c ∷ [])) str in
      (
        c ∷ piece,
        rest,
        rw later (cut ∙ ap some (append_assoc part (c ∷ []) piece)),
        ap (λ xs. c ∷ xs) whole,
        ends,
        (ap (λ xs. has_prefix (c ∷ xs) (d ∷ delim)) (sym whole) ∙ later, avoids),
      )
]

has_prefix-append : (prefix str : List ℕ) → has_prefix (prefix ++ str) prefix ≡ true
has_prefix-append [] str = refl
has_prefix-append (p ∷ prefix) str = ground (arith, has_prefix-append prefix str)

drop-append : (prefix str : List ℕ) → drop (length prefix) (prefix ++ str) ≡ str
drop-append [] str = refl
drop-append (p ∷ prefix) str = drop-append prefix str

-- `trimPrefix` undoes a prefix.
trim_prefix-append : (prefix str : List ℕ) → trim_prefix (prefix ++ str) prefix ≡ str
trim_prefix-append prefix str = rw (has_prefix-append prefix str) (drop-append prefix str)
