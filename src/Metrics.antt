-- ===== src/Metrics.antt =====
-- pkg/mahogany/metrics.go: the parsers of the kernel's statistics and the counters that they fill.
-- A text is the list of its bytes. `none` is a panic: an index or a slice out of range.
pub mod Decimal
pub mod Collect
pub mod New
pub mod Disk
mod Tests
use Prim.Native.Char.{code}
use Prim.Native.String.{String}
use mahogany.Base.{
  ℕ, zero, suc, ◌+◌, ◌-◌, ◌*◌, ◌%◌, ◌^◌, Bool, true, false, ◌&&◌, Option, none, some, List, [], ◌∷◌,
  ◌++◌, ltb, leb, ◌==◌, number_eq, if◌then◌else◌,
}

-- The bytes of a text.
abbrev pub codes : String → List ℕ
codes String.[] = []
codes (String.◌∷◌ c s) = code c ∷ codes s

-- A `uint64` and a `byte` wrap around.
abbrev pub word : ℕ
word = 2 ^ 64

-- `n - 48` on a byte.
abbrev pub digit_value : ℕ → ℕ
digit_value n = (n + 256 - 48) % 256

-- The loop of `ParseUint64`.
pub parse_loop : ℕ → List ℕ → ℕ
parse_loop res [] = res
parse_loop res (n ∷ raw) = parse_loop ((res * 10 % word + digit_value n) % word) raw

-- `ParseUint64`
pub parse_uint64 : List ℕ → ℕ
unfolding parse_loop
parse_uint64 raw = parse_loop 0 raw

-- `unicode.IsDigit` on a byte below 128, as all bytes of these files are.
abbrev pub is_digit : ℕ → Bool
is_digit c = leb b'0' c && leb c b'9'

-- `raw[start:]` from the first digit, and then up to the last one; `none` where there is no digit,
-- and the slice begins at -1.
abbrev pub drop_until_digit : List ℕ → List ℕ
drop_until_digit [] = []
drop_until_digit (c ∷ raw) = let rest = drop_until_digit raw in if is_digit c then c ∷ raw else rest

abbrev pub keep_to_digit : List ℕ → List ℕ
keep_to_digit [] = []
keep_to_digit (c ∷ raw) = elim (keep_to_digit raw) [
  | [] ↦ if is_digit c then c ∷ [] else []
  | d ∷ rest ↦ c ∷ d ∷ rest
]

-- `FindAndParseUint64`
pub find_and_parse : List ℕ → Option ℕ
unfolding parse_uint64
find_and_parse raw = elim (keep_to_digit (drop_until_digit raw)) [
  | [] ↦ none
  | c ∷ rest ↦ some (parse_uint64 (c ∷ rest))
]

-- `bytes.Split` by one byte.
abbrev extend : ℕ → List (List ℕ) → List (List ℕ)
extend c [] = (c ∷ []) ∷ []
extend c (part ∷ parts) = (c ∷ part) ∷ parts

abbrev pub split : ℕ → List ℕ → List (List ℕ)
split sep [] = [] ∷ []
split sep (c ∷ raw) = let parts = split sep raw in if c == sep then [] ∷ parts else extend c parts

pub record CpuStat : Type 0 where
  pub num : ℕ
  pub user : ℕ
  pub nice : ℕ
  pub system : ℕ
  pub idle : ℕ

-- `TotalBusy`
pub total_busy : CpuStat → ℕ
total_busy cpu = ((cpu.user + cpu.nice) % word + cpu.system) % word

-- `line[5:]`
abbrev pub from_fifth : List ℕ → Option (List ℕ)
from_fifth (a ∷ b ∷ c ∷ d ∷ e ∷ rest) = some rest
from_fifth _ = none

abbrev pub first_four : List (List ℕ) → Option CpuStat
first_four (a ∷ b ∷ c ∷ d ∷ rest) = some (record {
  num = 0;
  user = parse_uint64 a;
  nice = parse_uint64 b;
  system = parse_uint64 c;
  idle = parse_uint64 d;
})
first_four _ = none

-- The counters of a line.
abbrev pub line_stat : List ℕ → Option CpuStat
line_stat line = elim (from_fifth line) [ none ↦ none | some rest ↦ first_four (split b' ' rest) ]

abbrev pub first_line : List (List ℕ) → Option CpuStat
first_line [] = none
first_line (line ∷ lines) = line_stat line

-- `cpuUsage`, on the text of /proc/stat
pub cpu_usage : List ℕ → Option CpuStat
unfolding parse_uint64
cpu_usage raw = first_line (split b'\n' raw)

pub record MemStat : Type 0 where
  pub mem_total : ℕ
  pub mem_free : ℕ
  pub mem_available : ℕ

-- `bytes.HasPrefix`
abbrev pub has_prefix : List ℕ → List ℕ → Bool
has_prefix raw [] = true
has_prefix [] (p ∷ ps) = false
has_prefix (c ∷ raw) (p ∷ ps) = c == p && has_prefix raw ps

abbrev no_mem : MemStat
no_mem = record { mem_total = 0; mem_free = 0; mem_available = 0 }

-- The body of the loop of `memUsage`.
abbrev read_line : MemStat → List ℕ → Option MemStat
read_line stat line =
    if has_prefix line (codes "MemTotal")
    then (elim (find_and_parse line) [
      | none ↦ none
      | some n ↦ some (record stat { mem_total = n })
    ])
    else if has_prefix line (codes "MemFree")
    then (elim (find_and_parse line) [ none ↦ none | some n ↦ some (record stat { mem_free = n }) ])
    else if has_prefix line (codes "MemAvailable")
    then (elim (find_and_parse line) [
      | none ↦ none
      | some n ↦ some (record stat { mem_available = n })
    ])
    else some stat

unfoldable read_lines : MemStat → List (List ℕ) → Option MemStat
unfolding find_and_parse
read_lines stat [] = some stat
read_lines stat (line ∷ lines) = elim (read_line stat line) [
  | none ↦ none
  | some stat' ↦ read_lines stat' lines
]

-- `memUsage`, on the text of /proc/meminfo
pub mem_usage : List ℕ → Option MemStat
unfolding read_lines
mem_usage raw = read_lines no_mem (split b'\n' raw)
