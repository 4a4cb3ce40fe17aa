-- ===== src/Wallet/Monero.antt =====
-- xmrRefresh, xmrRescanFrom and xmrSend of web/wallet.js: the Monero side of the wallet. The worker and
-- the nodes are parameters, read at each call through the number of calls so far; an option is none
-- where a call throws.
pub mod Select
pub mod Scan
pub mod Spend
