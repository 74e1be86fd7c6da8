-- ===== src/Metrics/Collect/Percent.antt =====
-- When the recorded values are percentages.
use mathlib.Core.Path.{subst}
use mathlib.Core.Option.{some-injective}
use mahogany.Base.{
  ℕ, ◌≤◌, ◌<◌, ◌+◌, ◌*◌, ◌%◌, ◌≡◌, refl, ◌↔◌, Bool, true, ◌&&◌, Option, none, some, List, [], ◌∷◌,
  ◌++◌, Result, ok, err, arith, All, All-append, ltb, leb, Option-cases, inl, inr,
}
use mahogany.Metrics.{
  word, CpuStat, total_busy, cpu_usage, MemStat, mem_usage, parse_uint64, parse_loop, first_four,
  from_fifth, line_stat, first_line, digit_value, split,
}
use mahogany.Metrics.Collect.{
  DiskStat, minus, Ratio, Gauge, Reading, panics, fails, reads, read_with, cpu_ratio, Sample,
  tick_cpu, tick_disk, tick_rest, tick, started, parsed, Standing, collect_loop, collect,
}

-- The quotient is a number, and it is at most a hundred percent; 0 divided by 0 is recorded as NaN.
abbrev pub IsPercent : Ratio → Type 0
IsPercent r = (0 < r.whole) × (r.part ≤ r.whole)

-- The time that passes between two readings, busy and idle, with the wrap-around of the counters.
unfoldable pub passed : CpuStat → CpuStat → ℕ
unfolding total_busy
passed last now = minus (total_busy now) (total_busy last) + minus now.idle last.idle

minus_sum :
    (busy now last : ℕ)
    → busy < word
    → now < word
    → last < word
    → ((0 < minus ((busy + now) % word) last) × (busy ≤ minus ((busy + now) % word) last))
      ↔ ((0 < busy + minus now last) × (busy + minus now last < word))
minus_sum busy now last b n l = (
  λ h. (omega (arith, h.0, h.1), omega (arith, h.0, h.1)),
  λ h. (omega (arith, h.0, h.1), omega (arith, h.0, h.1)),
)

pub cpu_ratio-IsPercent :
    (last now : CpuStat)
    → last.idle < word
    → now.idle < word
    → IsPercent (cpu_ratio last now) ↔ ((0 < passed last now) × (passed last now < word))
unfolding cpu_ratio passed total_busy
cpu_ratio-IsPercent last now l n =
    minus_sum (minus (total_busy now) (total_busy last)) now.idle last.idle (omega arith) n l

parse_loop-word : (res : ℕ) (raw : List ℕ) → res < word → parse_loop res raw < word
unfolding parse_loop
parse_loop-word res [] h = h
parse_loop-word res (n ∷ raw) h =
    parse_loop-word ((res * 10 % word + digit_value n) % word) raw (omega arith)

-- Whether the counters of a computer are in order: there are memory and blocks, those that are
-- available are at most all that there are, and some time passes between two readings, below 2^64.
abbrev next_cpu : Reading CpuStat → Option CpuStat
next_cpu panics = none
next_cpu fails = none
next_cpu (reads now) = some now

abbrev steady_cpu : Option CpuStat → Reading CpuStat → Bool
steady_cpu (some last) (reads now) = ltb 0 (passed last now) && ltb (passed last now) word
steady_cpu last m = true

abbrev steady_mem : Reading MemStat → Bool
steady_mem (reads m) = ltb 0 m.mem_total && leb m.mem_available m.mem_total
steady_mem m = true

abbrev steady_disk : Result DiskStat → Bool
steady_disk (ok d) = ltb 0 d.blocks_total && leb d.blocks_available d.blocks_total
steady_disk (err e) = true

unfoldable pub steady : Option CpuStat → List Sample → Bool
unfolding passed cpu_usage mem_usage
steady last [] = true
steady last (s ∷ more) =
    steady_cpu last (read_with cpu_usage s.stat)
    && (steady_mem (read_with mem_usage s.meminfo)
        && (steady_disk s.disk && steady (next_cpu (read_with cpu_usage s.stat)) more))

abbrev pub AllPercent : List (Gauge × Ratio) → Type 0
AllPercent = All (λ g. IsPercent g.1)

abbrev Fits : Option CpuStat → Type 0
Fits none = Unit
Fits (some c) = c.idle < word

first_four-word : (parts : List (List ℕ)) (c : CpuStat) → first_four parts ≡ some c → c.idle < word
unfolding parse_uint64
first_four-word (x ∷ y ∷ z ∷ idle ∷ rest) c e =
    subst (λ (c : CpuStat). c.idle < word) (some-injective _ _ e)
      (parse_loop-word 0 idle (omega arith))
first_four-word parts c e = absurd (ground arith)

line-word : (line : List ℕ) (c : CpuStat) → line_stat line ≡ some c → c.idle < word
line-word line c e = elim (Option-cases (from_fifth line)) [
  | inl short ↦ absurd (ground arith)
  | inr (rest, long) ↦ first_four-word (split b' ' rest) c (ground arith)
]

-- An idle counter that is read is a `uint64`.
cpu_usage-word : (raw : List ℕ) (c : CpuStat) → cpu_usage raw ≡ some c → c.idle < word
unfolding cpu_usage
cpu_usage-word raw c e = by_lines (split b'\n' raw) e
  where
    by_lines : (lines : List (List ℕ)) → first_line lines ≡ some c → c.idle < word
    by_lines [] e = absurd (ground arith)
    by_lines (line ∷ lines) e = line-word line c e

tick_cpu-AllPercent :
    (last : Option CpuStat) (now : CpuStat)
    → Fits last
    → now.idle < word
    → steady_cpu last (reads now) ≡ true
    → AllPercent (tick_cpu last now)
tick_cpu-AllPercent none now l n h = tt
tick_cpu-AllPercent (some last) now l n h =
    ((cpu_ratio-IsPercent last now l n).1 (ground arith, ground arith), tt)

tick_disk-AllPercent : (d : Result DiskStat) → steady_disk d ≡ true → AllPercent (tick_disk d)
tick_disk-AllPercent (err e) h = tt
tick_disk-AllPercent (ok d) h = ((ground arith, ground arith), tt)

module _ (cpu : List (Gauge × Ratio)) (disk : Result DiskStat)
    (later : Standing × List (Gauge × Ratio)) (c : AllPercent cpu) (d : steady_disk disk ≡ true)
    (l : AllPercent later.1) where
  behind : AllPercent (tick_disk disk ++ later.1)
  behind = All-append _ (tick_disk disk) later.1 (tick_disk-AllPercent disk d) l

  tick_rest-AllPercent :
      (m : Reading MemStat) → steady_mem m ≡ true → AllPercent (tick_rest cpu disk later m).1
  tick_rest-AllPercent panics h = c
  tick_rest-AllPercent fails h = All-append _ cpu _ c behind
  tick_rest-AllPercent (reads m) h = All-append _ cpu _ c ((ground arith, ground arith), behind)

parsed-Fits :
    (c : Option CpuStat)
    → ((now : CpuStat) → c ≡ some now → now.idle < word)
    → Fits (next_cpu (parsed c))
parsed-Fits none h = tt
parsed-Fits (some now) h = h now refl

reads-Fits : (raw : Result (List ℕ)) → Fits (next_cpu (read_with cpu_usage raw))
reads-Fits (err e) = tt
reads-Fits (ok raw) = parsed-Fits (cpu_usage raw) (cpu_usage-word raw)

module _ (cancelled : Bool) (last : Option CpuStat) (f : Fits last) (s : Sample)
    (more : List Sample)
    (later : (next : Option CpuStat)
      → Fits next
      → steady next more ≡ true
      → AllPercent (collect_loop cancelled next more).1)
    (mem_steady : steady_mem (read_with mem_usage s.meminfo) ≡ true)
    (disk_steady : steady_disk s.disk ≡ true) where
  tick-AllPercent :
      (m : Reading CpuStat)
      → Fits (next_cpu m)
      → steady_cpu last m ≡ true
      → steady (next_cpu m) more ≡ true
      → AllPercent (tick last s (λ next. collect_loop cancelled next more) m).1
  tick-AllPercent panics n c h = tt
  tick-AllPercent fails n c h =
      tick_rest-AllPercent [] s.disk _ tt disk_steady (later none tt h) _ mem_steady
  tick-AllPercent (reads now) n c h =
      tick_rest-AllPercent (tick_cpu last now) s.disk _ (tick_cpu-AllPercent last now f n c)
        disk_steady (later (some now) n h) _ mem_steady

collect_loop-AllPercent :
    (cancelled : Bool) (last : Option CpuStat) (samples : List Sample)
    → Fits last
    → steady last samples ≡ true
    → AllPercent (collect_loop cancelled last samples).1
unfolding collect_loop steady
collect_loop-AllPercent cancelled last [] f h = tt
collect_loop-AllPercent cancelled last (s ∷ more) f h =
    tick-AllPercent cancelled last f s more (λ next. collect_loop-AllPercent cancelled next more)
      (ground arith) (ground arith) (read_with cpu_usage s.stat) (reads-Fits s.stat) (ground arith)
      (ground arith)

-- If the computer's counters are in order, with some memory, some blocks and some time between two
-- readings, then every value that `Collect` records for the CPU, the memory and the disk is, before
-- rounding, a number of at most a hundred percent, however many ticks come and whichever of the
-- readings fail or end the goroutine by a panic.
pub collect-AllPercent :
    (cancelled : Bool) (stat : Result (List ℕ)) (samples : List Sample)
    → steady (next_cpu (read_with cpu_usage stat)) samples ≡ true
    → AllPercent (collect cancelled stat samples).1
unfolding collect
collect-AllPercent cancelled stat samples h = first (read_with cpu_usage stat) (reads-Fits stat) h
  where
    first :
        (m : Reading CpuStat)
        → Fits (next_cpu m)
        → steady (next_cpu m) samples ≡ true
        → AllPercent (started cancelled samples m).1
    first panics n h = tt
    first fails n h = collect_loop-AllPercent cancelled none samples n h
    first (reads now) n h = collect_loop-AllPercent cancelled (some now) samples n h
