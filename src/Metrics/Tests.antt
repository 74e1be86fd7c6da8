-- ===== src/Metrics/Tests.antt =====
-- The parsers on lines as the kernel writes them.
use mahogany.Base.{
  number_eq, Result, ok, false, [], refl, ℕ, ◌%◌, ◌≡◌, some, List, ◌∷◌, ◌++◌, arith, All,
}
use mahogany.Metrics.{CpuStat, word, codes, cpu_usage}
use mahogany.Metrics.Collect.{Sample, collect}
use mahogany.Metrics.Collect.Percent.{AllPercent, passed, steady, collect-AllPercent}
use mahogany.Metrics.Decimal.{IsDigit, decimal_value, cpu_fields, cpu_usage-cpu_fields}

abbrev digits : List ℕ
digits = codes "4096"

digits-IsDigit : All IsDigit digits
digits-IsDigit = ground arith

cpu_usage-cpu_fields_example :
    cpu_usage (
      (codes "cpu  " ++ cpu_fields digits digits digits digits (codes "0"))
      ++ (b'\n' ∷ codes "cpu0"))
    ≡ some (record {
      num = 0;
      user = decimal_value 0 digits % word;
      nice = decimal_value 0 digits % word;
      system = decimal_value 0 digits % word;
      idle = decimal_value 0 digits % word;
    })
cpu_usage-cpu_fields_example =
    cpu_usage-cpu_fields digits digits digits digits (codes "0") digits-IsDigit digits-IsDigit
      digits-IsDigit digits-IsDigit (ground arith) b'c' b'p' b'u' b' ' b' ' (codes "cpu0")
      (ground arith)

abbrev counters : ℕ → ℕ → CpuStat
counters busy idle = record { num = 0; user = busy; nice = 0; system = 0; idle = idle }

abbrev sample : Sample
sample = record {
  stat = ok (codes "cpu  14 2 3 45 0 0");
  meminfo = ok (codes "MemTotal: 8 kB\nMemAvailable: 5 kB");
  disk = ok (record { blocks_total = 9; blocks_free = 4; blocks_available = 3; block_size = 512 });
}

abbrev at_start : Result (List ℕ)
at_start = ok (codes "cpu  10 1 2 40 0 0")

collect-AllPercent_example : AllPercent (collect false at_start (sample ∷ [])).1
unfolding steady passed number_eq
collect-AllPercent_example = collect-AllPercent false at_start (sample ∷ []) refl
