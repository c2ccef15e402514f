-- ===== src/Splitter.antt =====
-- Package splitter: internal/splitter/binpack.go and internal/splitter/splitter.go.
pub mod BinPack
pub mod Selector
pub mod Recursion
