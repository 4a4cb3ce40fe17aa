-- ===== src/Wallet.antt =====
-- web/wallet.js: the wallet of both coins on the page's side of its worker.
pub mod Amounts
pub mod Nano
pub mod Monero
