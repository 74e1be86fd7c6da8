-- ===== src/Metrics/Decimal.antt =====
-- `ParseUint64` against decimal notation.
use mahogany.Base.{
  ℕ, ◌+◌, ◌-◌, ◌*◌, ◌%◌, ◌<◌, ◌≤◌, ◌≡◌, refl, ◌∙◌, ◌≢◌, false, some, none, List, [], ◌∷◌, ◌++◌,
  arith, ap, All, All-append,
}
use mahogany.Metrics.{
  word, digit_value, parse_loop, parse_uint64, is_digit, drop_until_digit, keep_to_digit,
  find_and_parse, split, cpu_usage,
}

-- The number that decimal digits stand for, with no bound.
abbrev pub IsDigit : ℕ → Type 0
IsDigit c = (48 ≤ c) × (c ≤ 57)

unfoldable pub decimal_value : ℕ → List ℕ → ℕ
decimal_value res [] = res
decimal_value res (c ∷ raw) = decimal_value (res * 10 + (c - 48)) raw

step_mod :
    (a b c : ℕ)
    → a ≡ b % word
    → IsDigit c
    → (a * 10 % word + digit_value c) % word ≡ (b * 10 + (c - 48)) % word
step_mod a b c h d = omega arith

parse_loop-decimal :
    (res value : ℕ) (raw : List ℕ)
    → res ≡ value % word
    → All IsDigit raw
    → parse_loop res raw ≡ decimal_value value raw % word
unfolding parse_loop decimal_value
parse_loop-decimal res value [] h ds = h
parse_loop-decimal res value (c ∷ raw) h ds =
    parse_loop-decimal ((res * 10 % word + digit_value c) % word) (value * 10 + (c - 48)) raw
      (step_mod res value c h ds.0) ds.1

-- `ParseUint64` of decimal digits is the number that they stand for, modulo 2^64.
parse_uint64-decimal :
    (raw : List ℕ) → All IsDigit raw → parse_uint64 raw ≡ decimal_value 0 raw % word
unfolding parse_uint64
parse_uint64-decimal raw ds = parse_loop-decimal 0 0 raw (omega arith) ds

-- No byte of a text is a digit.
abbrev NoDigit : ℕ → Type 0
NoDigit c = is_digit c ≡ false

drop_until_digit-append :
    (before rest : List ℕ)
    → All NoDigit before
    → drop_until_digit (before ++ rest) ≡ drop_until_digit rest
drop_until_digit-append [] rest h = refl
drop_until_digit-append (c ∷ before) rest h =
    ground (arith, h.0, drop_until_digit-append before rest h.1)

keep_to_digit_none : (after : List ℕ) → All NoDigit after → keep_to_digit after ≡ []
keep_to_digit_none [] h = refl
keep_to_digit_none (c ∷ after) h = ground (arith, h.0, keep_to_digit_none after h.1)

drop_until_digit_none : (after : List ℕ) → All NoDigit after → drop_until_digit after ≡ []
drop_until_digit_none [] h = refl
drop_until_digit_none (c ∷ after) h = ground (arith, h.0, drop_until_digit_none after h.1)

keep_to_digit-append :
    (c : ℕ) (digits after : List ℕ)
    → All IsDigit (c ∷ digits)
    → All NoDigit after
    → keep_to_digit ((c ∷ digits) ++ after) ≡ c ∷ digits
keep_to_digit-append c [] after d h = ground (arith, d.0, keep_to_digit_none after h)
keep_to_digit-append c (e ∷ digits) after d h =
    ground (arith, keep_to_digit-append e digits after d.1 h)

drop_until_digit_here : (c : ℕ) (rest : List ℕ) → IsDigit c → drop_until_digit (c ∷ rest) ≡ c ∷ rest
drop_until_digit_here c rest d = ground (arith, d)

-- A line of /proc/meminfo, a label, a number and a unit with no other digits, gives the number,
-- modulo 2^64; a line with no digit at all panics.
find_and_parse-decimal :
    (before : List ℕ) (c : ℕ) (digits after : List ℕ)
    → All NoDigit before
    → All IsDigit (c ∷ digits)
    → All NoDigit after
    → (find_and_parse (before ++ ((c ∷ digits) ++ after))
        ≡ some (decimal_value 0 (c ∷ digits) % word))
      × (find_and_parse (before ++ after) ≡ none)
unfolding find_and_parse
find_and_parse-decimal before c digits after h d k = (
  ground (
    arith,
    drop_until_digit-append before ((c ∷ digits) ++ after) h,
    drop_until_digit_here c (digits ++ after) d.0,
    keep_to_digit-append c digits after d k,
    parse_uint64-decimal (c ∷ digits) d,
  ),
  ground (arith, drop_until_digit-append before after h, drop_until_digit_none after k),
)

-- No byte of a text is a space or a line's end.
abbrev IsPlain : ℕ → ℕ → Type 0
IsPlain sep c = c ≢ sep

split-append :
    (sep : ℕ) (part rest : List ℕ)
    → All (IsPlain sep) part
    → split sep (part ++ (sep ∷ rest)) ≡ part ∷ split sep rest
split-append sep [] rest h = ground arith
split-append sep (c ∷ part) rest h = ground (arith, h.0, split-append sep part rest h.1)

IsDigit-IsPlain : (sep : ℕ) (raw : List ℕ) → sep < 48 → All IsDigit raw → All (IsPlain sep) raw
IsDigit-IsPlain sep [] small d = tt
IsDigit-IsPlain sep (c ∷ raw) small d = (ground arith, IsDigit-IsPlain sep raw small d.1)

-- The first line of /proc/stat: four counters in decimal, and what comes after them.
abbrev pub cpu_fields : List ℕ → List ℕ → List ℕ → List ℕ → List ℕ → List ℕ
cpu_fields user nice system idle more =
    user ++ (b' ' ∷ (nice ++ (b' ' ∷ (system ++ (b' ' ∷ (idle ++ (b' ' ∷ more)))))))

module _ (user nice system idle more : List ℕ) (du : All IsDigit user) (dn : All IsDigit nice)
    (ds : All IsDigit system) (di : All IsDigit idle) (line_more : All (IsPlain b'\n') more) where
  split-cpu_fields :
      split b' ' (cpu_fields user nice system idle more)
      ≡ user ∷ nice ∷ system ∷ idle ∷ split b' ' more
  split-cpu_fields =
      split-append b' ' user _ (IsDigit-IsPlain b' ' user (omega arith) du)
      ∙ ap (λ ps. user ∷ ps)
          (split-append b' ' nice _ (IsDigit-IsPlain b' ' nice (omega arith) dn)
            ∙ ap (λ ps. nice ∷ ps)
                (split-append b' ' system _ (IsDigit-IsPlain b' ' system (omega arith) ds)
                  ∙ ap (λ ps. system ∷ ps)
                      (split-append b' ' idle more (IsDigit-IsPlain b' ' idle (omega arith) di))))

  space : IsPlain b'\n' b' '
  space = omega arith

  fields_line : All (IsPlain b'\n') (cpu_fields user nice system idle more)
  fields_line = All-append (IsPlain b'\n') user _ (IsDigit-IsPlain b'\n' user (omega arith) du) (
    space,
    All-append (IsPlain b'\n') nice _ (IsDigit-IsPlain b'\n' nice (omega arith) dn) (
      space,
      All-append (IsPlain b'\n') system _ (IsDigit-IsPlain b'\n' system (omega arith) ds) (
        space,
        All-append (IsPlain b'\n') idle _ (IsDigit-IsPlain b'\n' idle (omega arith) di)
            (space, line_more),
      ),
    ),
  )

  -- The counters of the aggregate line, after a label of five bytes, are the numbers that its first
  -- four fields stand for, modulo 2^64, whatever the fields and lines behind them are.
  pub cpu_usage-cpu_fields :
      (a b c d e : ℕ) (lines : List ℕ)
      → All (IsPlain b'\n') (a ∷ b ∷ c ∷ d ∷ e ∷ [])
      → cpu_usage ((a ∷ b ∷ c ∷ d ∷ e ∷ cpu_fields user nice system idle more) ++ (b'\n' ∷ lines))
        ≡ some (record {
          num = 0;
          user = decimal_value 0 user % word;
          nice = decimal_value 0 nice % word;
          system = decimal_value 0 system % word;
          idle = decimal_value 0 idle % word;
        })
  unfolding cpu_usage
  cpu_usage-cpu_fields a b c d e lines label = ground (
    arith,
    split-append b'\n' (a ∷ b ∷ c ∷ d ∷ e ∷ cpu_fields user nice system idle more) lines
        (All-append (IsPlain b'\n') (a ∷ b ∷ c ∷ d ∷ e ∷ []) _ label fields_line),
    split-cpu_fields,
    parse_uint64-decimal user du,
    parse_uint64-decimal nice dn,
    parse_uint64-decimal system ds,
    parse_uint64-decimal idle di,
  )
