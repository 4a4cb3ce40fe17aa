-- ===== src/Tests/Settlements.antt =====
-- Settlement runs in toy worlds.
use near_instant.Common.{
  ◌≤◌, ◌-◌, ◌==◌, if◌then◌else◌, arith, ℕ, ◌+◌, ◌≡◌, refl, Bool, true, false, List, [], ◌∷◌, Option,
  none, some, ◌⊎◌,
}
use near_instant.Common.Int.{pos, negsuc}
use mathlib.Core.Option.{some-injective}
use mathlib.Core.Path.{subst}
use near_instant.Certify.{Certificate}
use near_instant.Tests.Deals.{terms, price, accept}
use near_instant.Settlement.Types.{World, Config, Party, Core, Run, got, Hit, Spent, Open}
use near_instant.Settlement.Exec.{returns}
use near_instant.Settlement.Lock.{Wait, wait_joint_xmr_lock, scan_window, first_hit}
use near_instant.Settlement.SideB.{run_b}
use near_instant.Settlement.SideA.{run_a}
use near_instant.Settlement.Trail.{AllMeet, none_yet, RefundOk, RefundFor}
use near_instant.Settlement.SafeB.{MayB}
use near_instant.Settlement.SafeB.Whole.{run_b-safe}
use near_instant.Settlement.SafeA.{MayA, InOrder}
use near_instant.Settlement.SafeA.Whole.{run_a-safe}
use near_instant.Settlement.Scanning.{span, Scans, scan_window_lem}
use near_instant.Settlement.Waiting.{AtTip, wait_joint_xmr_lock-deep, wait_joint_xmr_lock-found}
use near_instant.Settlement.Locks.{Recorded, Failed, Interrupted, Lost, send_lock-ends}

abbrev config : Config
config = record {
  fee_atomic = none;
  max_unrealized_loss_bps = none;
  max_stress = none;
  fund_wait_ms = none;
  lock_wait_ms = none;
  claim_wait_ms = none;
  recover_wait_ms = none;
  conf_target = none;
  priced = true;
  endpoints = 1;
}

-- The lock stands in block 50 of 100.
abbrev outs : ℕ → List Hit
outs n = if n == 50 then record { amount = 1_520_000_000_000; block = 50; output = 3 } ∷ [] else []

-- Every call is answered; the joint account shows `frontier` with the block `spent`.
abbrev pub world : Option ℕ → Option Spent → World
world frontier spent = record {
  config = config;
  rounds = 2;
  clock = λ t. 1_000_000;
  pause = λ t. got tt;
  price = λ t. got price;
  receivable = λ t. got ((5, 100) ∷ []);
  account_info = λ t. got frontier;
  blocks_info = λ t. got spent;
  block_confirmed = λ t. got true;
  generate_work = λ t. got tt;
  process_block = λ t. got 77;
  wallet_send = λ t. got 8;
  wallet_receive = λ t. got 1;
  xmr_send = λ t. got 9;
  xmr_address = λ t. got 6;
  connect = λ t. got tt;
  height = λ t. got 100;
  scan_all = λ t from to. got (span outs from (to + 1 - from));
  tx_height = λ t. got none;
  sweep_sign = λ t a b c. got tt;
  publish = λ t. got 12;
  wire_send = λ t. got tt;
  wire_recv = λ t. got tt;
  aggregate = λ t. got 31;
  state_block_hash = λ account prev balance link kind. prev + link + kind + 1;
  nano_check = λ account hash sig. true;
  presig_verify = λ pre account hash. true;
  presig_complete = λ pre share. pre + share;
  presig_extract = λ pre sig. sig - pre;
  xmr_joint_secret = λ a b. a + b;
}

abbrev pub party : Bool → Party
party role_is_a = record {
  role_is_a = role_is_a;
  deal = terms;
  xmr_atomic = 1_520_000_000_000;
  account = 1;
  my_wallet_acct = 20;
  peer_wallet_acct = 30;
  my_xmr_share = 4;
  t = 2;
  ta = some 3;
  has_wire = true;
  has_resume = false;
  xmr_dest = none;
}

abbrev pub empty : Core
empty = record {
  open_block = none;
  refund = none;
  lock = none;
  claim = none;
  recovered = none;
  declined = none;
  realized = none;
  fund = none;
  lock_scan_from = none;
  lock_seen = none;
  presigned = none;
  x = none;
  sweep = none;
  refunded = none;
}

-- The deal was accepted, at a price that has not moved since.
abbrev pub accept_b : Certificate
accept_b = record accept {
  profit = some (record {
    gross_atomic = negsuc 15_999_999_999;
    fee_atomic = pos 80_000_000;
    net_atomic = negsuc 16_079_999_999;
    outlay_atomic = pos 1_520_000_000_000;
    net_bps = negsuc 104;
    xno_value_atomic = pos 1_504_000_000_000;
  });
}

abbrev pub start : Certificate → Core → Run
start baseline core = record {
  core = core;
  gates = record { accept_cert = some baseline; certs = [] };
  attempts = λ r. 0;
  tick = 0;
  trace = [];
}

-- The world in which A sees B's claim.
abbrev pub claimed : World
claimed = world (some 88) (some (record { signature = some 31; link = 30 }))

empty_ok : (w : World) (p : Party) → RefundOk w p empty
empty_ok w p = record { at = λ r e. absurd (grind arith) }

in_order : (w : World) (p : Party) → InOrder w p empty
in_order w p = record {
  refund_ok = empty_ok w p;
  seen_after = λ e. absurd (ground arith);
  presigned_after = λ e. absurd (ground arith);
  x_after = λ e. absurd (ground arith);
}

run_b-safe_example :
    let s = (run_b (party false) (world none none) (start accept_b empty)).1 in
    RefundOk (world none none) (party false) s.core
    × AllMeet (MayB (world none none) (party false)) s.trace
run_b-safe_example =
    run_b-safe (world none none) (party false) (start accept_b empty) (empty_ok _ _) none_yet

run_a-safe_example :
    let s = (run_a (party true) claimed (start accept empty)).1 in
    InOrder claimed (party true) s.core × AllMeet (MayA claimed (party true)) s.trace
run_a-safe_example = run_a-safe claimed (party true) (start accept empty) (in_order _ _) none_yet

-- A stopped after its refund was signed.
abbrev opened : Open
opened = record { hash = 7; balance = 100 }

abbrev refundable : Core
refundable = record empty {
  open_block = some opened;
  refund = some (record { prev = 7; dest = 20; hash = 29; presig = 31 });
}

refundable-InOrder : InOrder claimed (party true) refundable
refundable-InOrder = record {
  refund_ok = record {
    at = λ r e. (
      opened,
      (
        refl,
        subst (RefundFor claimed (party true) opened) (some-injective _ _ e)
            (record { follows = refl; pays_back = refl; block = refl; checks = refl }),
      ),
    );
  };
  seen_after = λ e. refl;
  presigned_after = λ e. absurd (ground arith);
  x_after = λ e. absurd (ground arith);
}

scans : Scans claimed outs
scans = record { at = λ t from to. refl }

scan_window_lem_example :
    (scan_window 101 1_520_000_000_000 0 100 claimed (start accept empty)).0
    ≡ returns (first_hit 1_520_000_000_000 (span outs 0 100))
scan_window_lem_example =
    scan_window_lem 101 1_520_000_000_000 0 100 claimed outs (start accept empty) (omega arith)
      scans

abbrev wait : Wait
wait = record {
  least = 1_520_000_000_000;
  since = none;
  deadline = none;
  lookback = 120;
  conf = 10;
  gated = true;
}

abbrev lock_hit : Hit
lock_hit = record { amount = 1_520_000_000_000; block = 50; output = 3 }

at_tip : AtTip claimed outs 100
at_tip = record { connects = λ t. refl; heights = λ t. refl; scans = scans }

first_found : first_hit 1_520_000_000_000 (span outs 0 100) ≡ some lock_hit
unfolding first_hit span
first_found = refl

wait_joint_xmr_lock-found_example :
    (wait_joint_xmr_lock (party true) wait claimed (start accept empty)).0
    ≡ returns (some (lock_hit, 100))
wait_joint_xmr_lock-found_example =
    wait_joint_xmr_lock-found claimed (party true) wait (start accept empty) outs 100 1 lock_hit
      at_tip refl first_found (omega arith)

wait_joint_xmr_lock-deep_example : (1_520_000_000_000 ≤ 1_520_000_000_000) × (50 + 10 ≤ 100)
wait_joint_xmr_lock-deep_example =
    wait_joint_xmr_lock-deep claimed (party true) wait (start accept empty) lock_hit 100
      wait_joint_xmr_lock-found_example

send_lock-ends_example :
    Recorded claimed (start accept_b empty)
    ⊎ (Failed claimed (start accept_b empty)
        ⊎ (Interrupted claimed (start accept_b empty) ⊎ Lost claimed (start accept_b empty)))
send_lock-ends_example = send_lock-ends claimed (start accept_b empty)
