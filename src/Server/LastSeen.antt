-- ===== src/Server/LastSeen.antt =====
-- How `lastSeen` of pkg/mahogany/server.go tells a time: the numbers and durations that `fmt` writes.
-- A time is the nanoseconds since the year 0, where the years that `time.Parse` reads begin; parsing
-- one is a parameter.
use mahogany.Base.{
  ℕ, zero, suc, ◌+◌, ◌-◌, ◌*◌, ◌/◌, ◌%◌, ◌^◌, ◌<◌, ◌≤◌, ◌≡◌, ◌≢◌, refl, ap, ◌∙◌, Bool, true, false,
  List, [], ◌∷◌, ◌++◌, Result, ok, err, ℤ, pos, negsuc, ltb, leb, ◌==◌, number_eq, if◌then◌else◌,
  arith, ◌||◌, not, ◌↔◌, sym, Bool-cases, inl, inr,
}
use mahogany.Metrics.{codes}
use mahogany.Metrics.Decimal.{decimal_value}

-- How many bytes `fmt` writes at most for a number; a duration has fewer than 20 digits.
abbrev most_digits : ℕ
most_digits = 20

-- The decimal digits of a number, before those that are there.
unfoldable pub digits : ℕ → ℕ → List ℕ → List ℕ
digits zero n behind = behind
digits (suc fuel) n behind =
    let more = digits fuel (n / 10) ((48 + n % 10) ∷ behind) in
    if ltb n 10 then (48 + n) ∷ behind else more

abbrev decimal : ℕ → List ℕ
decimal n = digits most_digits n []

digits-decimal_value :
    (fuel n : ℕ) (behind : List ℕ)
    → n < 10 ^ fuel
    → decimal_value 0 (digits fuel n behind) ≡ decimal_value n behind
unfolding digits decimal_value
digits-decimal_value zero n behind h = ap (λ k. decimal_value k behind) (omega (arith, h))
digits-decimal_value (suc fuel) n behind h =
    let same : n / 10 * 10 + (48 + n % 10 - 48) ≡ n = omega arith in
    let one : 0 * 10 + (48 + n - 48) ≡ n = omega arith in
    let below : n / 10 < 10 ^ fuel = omega (arith, h) in
    elim (Bool-cases (ltb n 10)) [
      | inl small ↦ rw small (ap (λ k. decimal_value k behind) one)
      | inr large ↦ rw large (
          digits-decimal_value fuel (n / 10) ((48 + n % 10) ∷ behind) below
          ∙ ap (λ k. decimal_value k behind) same)
    ]

abbrev pub minute : ℕ
minute = 60_000_000_000

abbrev day : ℕ
day = 86_400_000_000_000

-- The longest `time.Duration`.
abbrev longest : ℕ
longest = 9_223_372_036_854_775_807

abbrev bounded : ℕ → ℕ
bounded n = if leb n longest then n else longest

-- `Time.Sub`, which stops at the limits of a duration.
abbrev sub : ℕ → ℕ → ℤ
sub now t = if leb t now then pos (bounded (now - t)) else negsuc (bounded (t - now - 1))

-- The decimals of a duration without the zeros at their end, and the point if there is one left.
unfoldable pub fraction : ℕ → ℕ → Bool → List ℕ → List ℕ
fraction zero v print behind = if print then b'.' ∷ behind else behind
fraction (suc places) v print behind =
    let written = print || not (v % 10 == 0) in
    fraction places (v / 10) written (if written then (48 + v % 10) ∷ behind else behind)

-- `Duration.String`, of a second or more.
unfoldable pub show_duration : ℕ → List ℕ
unfolding fraction digits
show_duration n =
    let seconds = n / 1_000_000_000 in
    let with_seconds = digits most_digits (seconds % 60) (fraction 9 n false (codes "s")) in
    let minutes = seconds / 60 in
    let with_minutes = digits most_digits (minutes % 60) (b'm' ∷ with_seconds) in
    let hours = minutes / 60 in
    if minutes == 0
    then with_seconds
    else if hours == 0
    then with_minutes
    else digits most_digits hours (b'h' ∷ with_minutes)

-- What `lastSeen` writes for the time that has gone by.
unfoldable pub tell : ℤ → List ℕ
unfolding show_duration digits
tell (negsuc _) = codes "Connected"
tell (pos n) =
    let days = decimal (n / day) ++ codes " days ago" in
    let hours = show_duration n ++ codes " ago" in
    if ltb n minute then codes "Connected" else if ltb day n then days else hours

-- `lastSeen`
unfoldable pub last_seen : (List ℕ → Result ℕ) → ℕ → List ℕ → List ℕ
unfolding tell
last_seen parse now str = elim (parse str) [ err _ ↦ str | ok t ↦ tell (sub now t) ]

last_byte : List ℕ → ℕ
last_byte [] = 0
last_byte (c ∷ []) = c
last_byte (c ∷ d ∷ str) = last_byte (d ∷ str)

last_byte-append :
    (str more : List ℕ) (d : ℕ) → last_byte (str ++ (d ∷ more)) ≡ last_byte (d ∷ more)
unfolding last_byte
last_byte-append [] more d = refl
last_byte-append (c ∷ []) more d = refl
last_byte-append (c ∷ e ∷ str) more d = last_byte-append (e ∷ str) more d

not_connected :
    (str : List ℕ) (d : ℕ) (more : List ℕ)
    → last_byte (d ∷ more) ≡ b'o'
    → (str ++ (d ∷ more)) ≢ codes "Connected"
unfolding last_byte
not_connected str d more ends same =
    omega (arith, ends, last_byte-append str more d, ap last_byte same)

tell_old : (n : ℕ) → ltb n minute ≡ false → tell (pos n) ≢ codes "Connected"
unfolding tell last_byte
tell_old n old = elim (Bool-cases (ltb day n)) [
  | inl days ↦ rw (old, days) (not_connected (decimal (n / day)) b' ' (codes "days ago") refl)
  | inr hours ↦ rw (old, hours) (not_connected (show_duration n) b' ' (codes "ago") refl)
]

recent_lt :
    (now t : ℕ) → leb t now ≡ true → ltb (bounded (now - t)) minute ≡ true → now < t + minute
recent_lt now t past recent = ground arith

old_le : (now t : ℕ) → leb t now ≡ true → ltb (bounded (now - t)) minute ≡ false → t + minute ≤ now
old_le now t past old = ground arith

later_lt : (now t : ℕ) → leb t now ≡ false → now < t + minute
later_lt now t later = ground arith

last_seen-tell :
    (parse : List ℕ → Result ℕ) (now t : ℕ) (str : List ℕ)
    → parse str ≡ ok t
    → leb t now ≡ true
    → last_seen parse now str ≡ tell (pos (bounded (now - t)))
unfolding last_seen
last_seen-tell parse now t str read past = rw (read, last_seen, past) refl

-- A device whose time can be read is shown as connected exactly if the time is less than a minute
-- ago, or to come.
pub last_seen-connected :
    (parse : List ℕ → Result ℕ) (now t : ℕ) (str : List ℕ)
    → parse str ≡ ok t
    → (last_seen parse now str ≡ codes "Connected") ↔ (now < t + minute)
unfolding last_seen tell
last_seen-connected parse now t str read = elim (Bool-cases (leb t now)) [
  | inr later ↦ (λ same. later_lt now t later, λ soon. rw (read, last_seen, later) refl)
  | inl past ↦ elim (Bool-cases (ltb (bounded (now - t)) minute)) [
    | inl recent ↦
        (λ same. recent_lt now t past recent, λ soon. rw (read, last_seen, past, tell, recent) refl)
    | inr old ↦ (
      λ same. absurd (
          tell_old (bounded (now - t)) old (sym (last_seen-tell parse now t str read past) ∙ same)),
      λ soon. absurd (omega (arith, soon, old_le now t past old)),
    )
  ]
]
