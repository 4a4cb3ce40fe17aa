-- ===== src/Settlement/SafeA/Keeping.antt =====
-- A's invariant as the interface of the shared steps.
use near_instant.Common.{ℕ, ◌≡◌, ap, sym, ◌∙◌, refl, true, some}
use near_instant.Settlement.Types.{World, Party, Core, Open, shares, claim_round}
use near_instant.Settlement.Exec.Rules.{Trace}
use near_instant.Settlement.Exec.Steadiness.{Allows}
use near_instant.Settlement.Refunds.{is_some}
use near_instant.Settlement.Signing.{send_kind}
use near_instant.Settlement.Trail.{and_then, IsSecured}
use near_instant.Settlement.Guard.{Guard, first_open}
use near_instant.Settlement.SafeA.{
  KeepsA, checks_any, shares_open, shares_refund, shares_claim, opens_any,
}

pub Guard-a : (w : World) (p : Party) → Guard w p true (KeepsA w p)
Guard-a w p = record {
  checks = λ P b. record { at = λ c t h q. (h.0, and_then (checks_any b c t) h.1) };
  signs_open = λ P n. record { at = λ c t h q. (h.0, and_then (shares_open n c t) h.1) };
  broadcasts_open = λ P n e. record { at = λ c t h q. (h.0, and_then (opens_any n c t) h.1) };
  signs_refund =
      λ o n. record { at = λ c t h q. (h.0, and_then (shares_refund n c t (ap is_some q)) h.1) };
  has_refund = λ c t h. h.0.refund_ok;
  opens_first = λ c t o h e. (
    record {
      refund_ok = first_open w p c e h.0.refund_ok (some o);
      seen_after = h.0.seen_after;
      presigned_after = h.0.presigned_after;
      x_after = h.0.x_after;
    },
    h.1,
  );
  refund_first = λ c t r h ok. (
    record {
      refund_ok = ok;
      seen_after = λ _. refl;
      presigned_after = h.0.presigned_after;
      x_after = h.0.x_after;
    },
    h.1,
  );
}

module _ (w : World) (p : Party) where
  -- An entry that the order does not speak of leaves it as it is.
  pub other_entry :
      (c d : Core) (t : Trace)
      → c.open_block ≡ d.open_block
      → c.refund ≡ d.refund
      → c.lock_seen ≡ d.lock_seen
      → c.presigned ≡ d.presigned
      → c.x ≡ d.x
      → KeepsA w p c t
      → KeepsA w p d t
  other_entry c d t eo er el ep ex h = (
    record {
      refund_ok = record {
        at = λ r e. let (o, (at, good)) = h.0.refund_ok.at r (er ∙ e) in (o, (sym eo ∙ at, good));
      };
      seen_after = λ e. sym (ap is_some er) ∙ h.0.seen_after (ap is_some el ∙ e);
      presigned_after = λ e. sym (ap is_some el) ∙ h.0.presigned_after (ap is_some ep ∙ e);
      x_after = λ e. sym (ap is_some ep) ∙ h.0.x_after (ap is_some ex ∙ e);
    },
    h.1,
  )

  pub still-IsSecured :
      (o : Open) (c d : Core)
      → c.open_block ≡ d.open_block
      → c.refund ≡ d.refund
      → IsSecured w p o c
      → IsSecured w p o d
  still-IsSecured o c d eo er h = record {
    refund = h.refund;
    at_open = sym eo ∙ h.at_open;
    at_refund = sym er ∙ h.at_refund;
    good = h.good;
  }

  abbrev pub claim_hash : Open → ℕ
  claim_hash o = w.state_block_hash p.account o.hash 0 p.peer_wallet_acct send_kind

  -- Secured, and the lock was seen.
  abbrev pub HasSeen : Open → Core → Type 0
  HasSeen o c = IsSecured w p o c × (is_some c.lock_seen ≡ true)

  pub shares_now : (o : Open) → Allows (KeepsA w p) (HasSeen o) (shares claim_round (claim_hash o))
  shares_now o = record { at = λ c t j q. (j.0, and_then (shares_claim _ o c t refl q.0 q.1) j.1) }
