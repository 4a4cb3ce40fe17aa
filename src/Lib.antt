-- ===== src/Lib.antt =====
-- NearInstant: swaps of Nano (XNO) and Monero (XMR) between two browsers, without a server. The
-- models are of the JavaScript under web/. Sizes and amounts are integers of the least unit: raw for
-- XNO (10 ^ 30 to one), atomic units for XMR (10 ^ 12 to one).
--
-- A swap goes chunk by chunk, so that little is ever at risk. The parts, and how they interact:
--
-- - Schedule: `buildSchedule`, `scheduleTotal` and `maxAtRisk` of web/swap_machine.js cut the total
--   into chunks. The loop runs on `max_chunks + 2` rounds of fuel, and `none` is a loop out of fuel.
-- - Machine: the class `SwapMachine` of web/swap_machine.js, which Responder drives with
--   the events that it sees on the two ledgers; `handle` returns the next machine with the actions, or throws.
--   The amounts per chunk come from Schedule. Machine/Types has the enumerations.
-- - Deal: `dealFromOffer` and `makerValidateDeal` of web/two_party.js, which bind a deal to the offer.
--   A field that arrives as text is a numeral: its text and the integer that BigInt makes of it.
-- - Profit: `partyProfit`, `makerProfit` and `minViableXnoRaw` of web/two_party.js: what a deal leaves
--   each side after the fees, and the smallest deal that pays. The bisection makes 60 rounds, as in the
--   source. A price of the source's floating point is taken after `Math.round(mid * 1e18)`.
-- - Certify: `certify` and `gate` of web/two_party.js: the certificate that a deal is profitable, and the
--   gate before every irreversible step that asks for one. It uses the results of Profit.
-- - Mailbox: `derive`, `slotNonce`, `aad` and the class `MailboxWire` of web/mailbox.js: messages
--   sealed into numbered slots of relays that need not be trusted. WebCrypto is the record `Crypto`;
--   what it documents of its cipher is `IsCipher`. The polls of `recv` before the deadline are a list,
--   and so `recv` needs no fuel; a list that is over is the deadline.
-- - LedgerRelay: web/ledger_relay.js, a relay for the mailbox: `post` puts a message on the Nano ledger
--   as dust sends of 32 bytes each, `fetch` reads it back. A list of outcomes stands for the nodes'
--   answers, one for each round of the loop; `waiting` is a run whose list is over before the loop is.
-- - Beacon: `accountInfoQuorum` of web/beacon.js: the head of a Nano account, read from up to six nodes.
--   Every post to the ledger, and every settlement, signs on such a head.
-- - Book: `scanLive` of web/beacon.js, from the posts with their blocks' heights and times on: which
--   offers of a market side are live. A map by maker is an association list in insertion order.
-- - Settlement: `runA`, `runB`, `refundNow`, `recoverXmrFromRefund` and `waitJointXmrLock` of
--   web/two_party.js, with what they call: each side's run over its persisted store. An action
--   (Settlement/Exec) takes a world, which answers the n-th call of a node, a wallet or the peer, and
--   the state of the run, and returns, throws, or ends with the process; every call may be the last.
--   Settlement/Types has the world and the store, SideB and SideA the two drivers, the other modules
--   what both call. A trace has each effect with the store at its time. Settlement/Exec/Rules and Specs
--   are rules for what an action guarantees; Guard is the interface that a side's invariant fills for
--   the shared steps; SafeB and SafeA are the two sides' invariants. The loops that wait run for as many
--   rounds as the world gives and then the process ends; a scan has fuel for every block. The gate
--   before each step is the one of Certify.
-- - Responder: web/swap_responder.js, which feeds the machine of Machine with events and hands its actions
--   to an executor, a parameter whose functions may throw at any action; the calls that
--   are made are kept beside the log, which the source writes before a call.
-- - Rendezvous: how a taker and a maker meet on a public relay box, in web/two_party.js. The file itself
--   has `authMsg` before its hash; Hex `hx` and `hb`; Types the requests, replies and the calls of
--   others; Maker `makerPollTake`, `postDecline` and `peekTakes`; Taker `takerHandshake`; Meeting sets
--   the two against each other; Resume `stepSalt`, `stepWire` and `attachResume`. JSON and WebCrypto are
--   parameters, the relay's answers are inputs, and a deadline is a number of polls.
-- - Wallet: web/wallet.js on the page's side of its worker. Amounts prints and reads amounts; Nano has
--   `receive` and `send`; Monero has `xmrRefresh` and `xmrRescanFrom` in Scan, the choice of inputs in
--   Select, and `xmrSend` in Spend. The worker, the nodes and the address decoder are parameters; each
--   call of the Monero nodes has its own moment; saves succeed; chunks are at most 5000, as in the
--   source, and every loop over nodes goes once through their count.
-- - Custody: the vault of web/custody_core.js (`unlock_vault`, `sign_with`, `empty_vault`) behind the
--   message loop of web/custody-worker.js (`handle`, `run`); Calls the table of waiting calls in
--   web/custody.js (`call`, `on_message`). The wasm module and the type of seeds are parameters.
-- - Common: Boolean tests, lists and integers over native numbers, results that throw, decimal texts,
--   and the digits of a bitwise or. Tests: runs at concrete inputs, for the theorems with conditions too.
--
-- Numbers of the source are BigInt, or small counts: they have no width, except where a field of a
-- header has 12 or 16 bits or a slot number 8 bytes, and there the reduction is written out.
-- Subtraction that may go below zero is on integers, as in the profits, or guarded as in the source.
--
-- Not modelled: the network, clocks and waits (their answers are arguments); the wasm modules with the
-- ceremonies of keys and signatures; the ceremony of web/two_party.js; the wallet's worker,
-- the command line in integrations/, the work proxy of deploy/vercel/api and the pages; texts of errors
-- and notes.
pub mod Common
pub mod Schedule
pub mod Machine
pub mod Deal
pub mod Profit
pub mod Certify
pub mod LedgerRelay
pub mod Mailbox
pub mod Beacon
pub mod Book
pub mod Settlement
pub mod Responder
pub mod Rendezvous
pub mod Wallet
pub mod Custody
pub mod Tests
