-- ===== src/Metrics/New.antt =====
-- `NewMetrics` of pkg/mahogany/metrics.go. The meter is OpenTelemetry's, so what it gives for a gauge
-- is a parameter; the attributes come in the order in which the map yields them.
use mahogany.Base.{String, List, Result, ok, ◌>>=◌, ℤ}

record GaugeOptions : Type 0 where
  pub description : String
  pub unit : String

record Metrics (G : Type 0) : Type 0 where
  pub interval : ℤ
  pub cpu_gauge : G
  pub mem_gauge : G
  pub disk_gauge : G
  pub attributes : List (String × String)

abbrev percent : String → GaugeOptions
percent description = record { description = description; unit = "percent" }

module _ {G : Type 0} (float64_gauge : String → GaugeOptions → Result G) where
  unfoldable new_metrics : ℤ → List (String × String) → Result (Metrics G)
  new_metrics interval attributes = do
    cpu_usage ← float64_gauge "os.cpu.total" (percent "percent CPU utilization")
    mem_usage ← float64_gauge "os.memory.used" (percent "percent of memory used")
    disk_usage ← float64_gauge "os.disk.used" (percent "percent of disk used")
    ok (record {
      interval = interval;
      cpu_gauge = cpu_usage;
      mem_gauge = mem_usage;
      disk_gauge = disk_usage;
      attributes = attributes;
    })
