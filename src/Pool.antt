-- ===== src/Pool.antt =====
-- The lists of transactions of core/txpool/tx_list.go.
pub mod SortedMap
pub mod TxList
mod Examples
