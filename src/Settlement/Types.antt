-- ===== src/Settlement/Types.antt =====
-- What a settlement run reads and writes. Hashes, keys, signatures and accounts are numbers that tell
-- them apart, whatever the case of their text; the account 0 is an empty text.
use near_instant.Common.{ℕ, Bool, List, Option}
use near_instant.Common.Int.{ℤ}
use near_instant.Certify.{Terms, Certificate, Price}
use near_instant.Certify

-- How a call of another system ends: an answer, an exception, or the end of this process.
pub data Answer (A : Type 0) : Type 0 where
  got : A → Answer A
  threw crashed : Answer A

-- An output that a scan of the Monero chain finds.
pub record Hit : Type 0 where
  pub amount : ℕ
  pub block : ℕ
  pub output : ℕ

-- What `blocks_info` tells of a block of the joint account; a link 0 is none.
pub record Spent : Type 0 where
  pub signature : Option ℕ
  pub link : ℕ

-- The options of `deps`; times are milliseconds.
pub record Config : Type 0 where
  pub fee_atomic : Option ℤ
  pub max_unrealized_loss_bps : Option ℕ
  pub max_stress : Option ℕ
  pub fund_wait_ms : Option ℕ
  pub lock_wait_ms : Option ℕ
  pub claim_wait_ms : Option ℕ
  pub recover_wait_ms : Option ℕ
  pub conf_target : Option ℕ
  pub priced : Bool
  pub endpoints : ℕ

-- The systems around a run: what each call of them answers, by the number of calls before it; the
-- functions of the wasm modules; and for how many rounds the process lives in one loop.
pub record World : Type 0 where
  pub config : Config
  pub rounds : ℕ
  pub clock : ℕ → ℕ
  pub pause : ℕ → Answer (Unit {0})
  pub price : ℕ → Answer Price
  pub receivable : ℕ → Answer (List (ℕ × ℕ))
  pub account_info : ℕ → Answer (Option ℕ)
  pub blocks_info : ℕ → Answer (Option Spent)
  pub block_confirmed : ℕ → Answer Bool
  pub generate_work : ℕ → Answer (Unit {0})
  pub process_block : ℕ → Answer ℕ
  pub wallet_send : ℕ → Answer ℕ
  pub wallet_receive : ℕ → Answer ℕ
  pub xmr_send : ℕ → Answer ℕ
  pub xmr_address : ℕ → Answer ℕ
  pub connect : ℕ → Answer (Unit {0})
  pub height : ℕ → Answer ℕ
  pub scan_all : ℕ → ℕ → ℕ → Answer (List Hit)
  pub tx_height : ℕ → Answer (Option ℕ)
  pub sweep_sign : ℕ → ℕ → ℕ → ℕ → Answer (Unit {0})
  pub publish : ℕ → Answer ℕ
  pub wire_send : ℕ → Answer (Unit {0})
  pub wire_recv : ℕ → Answer (Unit {0})
  pub aggregate : ℕ → Answer ℕ
  pub state_block_hash : ℕ → ℕ → ℕ → ℕ → ℕ → ℕ
  pub nano_check : ℕ → ℕ → ℕ → Bool
  pub presig_verify : ℕ → ℕ → ℕ → Bool
  pub presig_complete : ℕ → ℕ → ℕ
  pub presig_extract : ℕ → ℕ → ℕ
  pub xmr_joint_secret : ℕ → ℕ → ℕ

-- A party's handle: `account` is the joint Nano account, `t` and `ta` the adaptor points.
pub record Party : Type 0 where
  pub role_is_a : Bool
  pub deal : Terms
  pub xmr_atomic : ℕ
  pub account : ℕ
  pub my_wallet_acct : ℕ
  pub peer_wallet_acct : ℕ
  pub my_xmr_share : ℕ
  pub t : ℕ
  pub ta : Option ℕ
  pub has_wire : Bool
  pub has_resume : Bool
  pub xmr_dest : Option ℕ

pub record Open : Type 0 where
  pub hash : ℕ
  pub balance : ℕ

pub record Refund : Type 0 where
  pub prev : ℕ
  pub dest : ℕ
  pub hash : ℕ
  pub presig : ℕ

-- The `lock` entry: a lock that was sent, with the height read after it, or one that was skipped.
pub data Lock : Type 0 where
  sent : ℕ → ℕ → Lock
  skipped : Lock

-- The result of a recovery: nothing was there, or a sweep.
pub data Recovery : Type 0 where
  nothing : Recovery
  swept : ℕ → Recovery

pub record Sweep : Type 0 where
  pub tx : ℕ
  pub locked_atomic : ℕ

-- What a side received and paid.
pub record Realized : Type 0 where
  pub received : ℕ
  pub paid : ℤ

-- The steps in the session's store. `presigned` has none inside for a session saved before the
-- pre-signature was.
pub record Core : Type 0 where
  pub open_block : Option Open
  pub refund : Option Refund
  pub lock : Option Lock
  pub claim : Option ℕ
  pub recovered : Option Recovery
  pub declined : Option Certificate
  pub realized : Option Realized
  pub fund : Option ℕ
  pub lock_scan_from : Option ℕ
  pub lock_seen : Option Hit
  pub presigned : Option (Option ℕ)
  pub x : Option ℕ
  pub sweep : Option Sweep
  pub refunded : Option ℕ

-- The rounds in which both sides sign.
pub data Round : Type 0 where
  open_round refund_round claim_round : Round

-- What leaves the process or decides over it, as it starts: the verdict of a gate, a transfer, a
-- share of a signature, a broadcast block. `funded` and `locked` are transfers that came back.
pub data Effect : Type 0 where
  checked : Bool → Effect
  funds funded locks locked : Effect
  shares : Round → ℕ → Effect
  opens claims refunds sweeps : ℕ → Effect

-- The state of a run. The trace has each effect, the newest first, with the store as it was then.
pub record Run : Type 0 where
  pub core : Core
  pub gates : Certify.Store
  pub attempts : Round → ℕ
  pub tick : ℕ
  pub trace : List (Effect × Core)

pub data Reason : Type 0 where
  gone : Certificate → Reason
  call_failed fund_timeout bad_signature no_wire no_adaptor no_wallet : Reason
  not_funder secured nothing_to_refund not_refunded_yet peer_offline : Reason

-- How a run ends.
pub data Ending : Type 0 where
  complete : Realized → Ending
  declined_for : Certificate → Ending
  recovered_xmr refunded_xno already_refunded : Ending
