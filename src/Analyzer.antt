-- ===== src/Analyzer.antt =====
-- compatibility/result_analyzer/analyzer.py
pub mod Report
pub mod Extract
pub mod Feature
pub mod Reconcile
pub mod Results
