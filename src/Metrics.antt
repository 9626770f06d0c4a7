-- ===== src/Metrics.antt =====
-- internal/platform/metrics/metrics.go: counters over a day, histograms,
-- the most recent error texts, and the registry of them by their names.
pub mod Counter
pub mod TopN
pub mod Histogram
pub mod Registry
