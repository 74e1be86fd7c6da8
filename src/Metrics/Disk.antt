-- ===== src/Metrics/Disk.antt =====
-- `diskUsage` of pkg/mahogany/metrics.go. The system call `statfs` is a parameter; its block size is
-- a signed number, which is converted.
use mahogany.Base.{ℕ, String, Result, ok, err, ℤ}
use mahogany.Config.{to_word}
use mahogany.Metrics.Collect.{DiskStat}

-- The fields of `unix.Statfs_t` that are read.
record Statfs : Type 0 where
  pub blocks : ℕ
  pub bfree : ℕ
  pub bavail : ℕ
  pub bsize : ℤ

unfoldable disk_usage : (String → Result Statfs) → Result DiskStat
disk_usage statfs = elim (statfs "/") [
  | err e ↦ err e
  | ok s ↦ ok (record {
    blocks_total = s.blocks;
    blocks_free = s.bfree;
    blocks_available = s.bavail;
    block_size = to_word s.bsize;
  })
]
