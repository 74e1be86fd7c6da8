-- ===== src/Metrics/Collect.antt =====
-- `Collect` of pkg/mahogany/metrics.go. A value that is recorded is a hundred times the quotient of
-- two 64-bit numbers; the quotient itself, in floating point, is left out.
pub mod Percent
use mahogany.Base.{
  ℕ, ◌+◌, ◌-◌, ◌%◌, Bool, Option, none, some, List, [], ◌∷◌, ◌++◌, Error, Result, ok, err,
  if◌then◌else◌,
}
use mahogany.Metrics.{word, CpuStat, total_busy, cpu_usage, MemStat, mem_usage}

pub record DiskStat : Type 0 where
  pub blocks_total : ℕ
  pub blocks_free : ℕ
  pub blocks_available : ℕ
  pub block_size : ℕ

-- The difference of two `uint64`.
abbrev pub minus : ℕ → ℕ → ℕ
minus a b = (a + word - b) % word

pub record Ratio : Type 0 where
  pub part : ℕ
  pub whole : ℕ

pub data Gauge : Type 0 where
  cpu_gauge mem_gauge disk_gauge : Gauge

-- A call of `cpuUsage` or `memUsage`, from what reading its file gives: a panic, an error or a value.
pub data Reading (A : Type 0) : Type 0 where
  panics fails : Reading A
  reads : A → Reading A

abbrev pub parsed : {A : Type 0} → Option A → Reading A
parsed none = panics
parsed (some a) = reads a

abbrev pub read_with : {A : Type 0} → (List ℕ → Option A) → Result (List ℕ) → Reading A
read_with parse (err _) = fails
read_with parse (ok raw) = parsed (parse raw)

pub cpu_ratio : CpuStat → CpuStat → Ratio
unfolding total_busy
cpu_ratio last now =
    let busy : ℕ = minus (total_busy now) (total_busy last) in
    record { part = busy; whole = minus ((busy + now.idle) % word) last.idle }

abbrev mem_ratio : MemStat → Ratio
mem_ratio m = record { part = minus m.mem_total m.mem_available; whole = m.mem_total }

abbrev disk_ratio : DiskStat → Ratio
disk_ratio d = record { part = minus d.blocks_total d.blocks_available; whole = d.blocks_total }

-- What a tick finds: the two files, and what `diskUsage` gives.
pub record Sample : Type 0 where
  pub stat : Result (List ℕ)
  pub meminfo : Result (List ℕ)
  pub disk : Result DiskStat

-- The values of one tick for the CPU and the disk.
abbrev pub tick_cpu : Option CpuStat → CpuStat → List (Gauge × Ratio)
tick_cpu none now = []
tick_cpu (some last) now = (cpu_gauge, cpu_ratio last now) ∷ []

abbrev pub tick_disk : Result DiskStat → List (Gauge × Ratio)
tick_disk (err _) = []
tick_disk (ok d) = (disk_gauge, disk_ratio d) ∷ []

-- How the goroutine stands: waiting for its ticker, returned, or ended by a panic.
pub data Standing : Type 0 where
  waits done crashed : Standing

-- The memory and the disk of a tick, behind its CPU and before the later ticks.
abbrev pub tick_rest :
    List (Gauge × Ratio)
    → Result DiskStat
    → Standing × List (Gauge × Ratio)
    → Reading MemStat
    → Standing × List (Gauge × Ratio)
tick_rest cpu disk later panics = (crashed, cpu)
tick_rest cpu disk (standing, later) fails = (standing, cpu ++ (tick_disk disk ++ later))
tick_rest cpu disk (standing, later) (reads m) =
    (standing, cpu ++ ((mem_gauge, mem_ratio m) ∷ (tick_disk disk ++ later)))

-- The body of the loop, from what `cpuUsage` gives: `last` is `lastCpuStat`, where none is nil, and
-- `later` gives what the later ticks do by the value that it has then.
abbrev pub tick :
    Option CpuStat
    → Sample
    → (Option CpuStat → Standing × List (Gauge × Ratio))
    → Reading CpuStat
    → Standing × List (Gauge × Ratio)
tick last s later panics = (crashed, [])
tick last s later fails = tick_rest [] s.disk (later none) (read_with mem_usage s.meminfo)
tick last s later (reads now) =
    tick_rest (tick_cpu last now) s.disk (later (some now)) (read_with mem_usage s.meminfo)

-- The loop: `cancelled` tells whether the context is done after the last tick.
pub collect_loop : Bool → Option CpuStat → List Sample → Standing × List (Gauge × Ratio)
unfolding cpu_ratio mem_usage
collect_loop cancelled last [] = (if cancelled then done else waits, [])
collect_loop cancelled last (s ∷ more) =
    tick last s (λ next. collect_loop cancelled next more) (read_with cpu_usage s.stat)

-- `Collect`, with the text of /proc/stat before the first tick.
abbrev pub started : Bool → List Sample → Reading CpuStat → Standing × List (Gauge × Ratio)
started cancelled samples panics = (crashed, [])
started cancelled samples fails = collect_loop cancelled none samples
started cancelled samples (reads first) = collect_loop cancelled (some first) samples

pub collect : Bool → Result (List ℕ) → List Sample → Standing × List (Gauge × Ratio)
unfolding collect_loop
collect cancelled stat samples = started cancelled samples (read_with cpu_usage stat)
