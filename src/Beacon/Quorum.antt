-- ===== src/Beacon/Quorum.antt =====
-- What one lying node can do to the head that an account is signed on.
use near_instant.Common.{
  ℕ, ◌≤◌, ◌<◌, ◌≡◌, ◌≢◌, refl, inl, inr, true, false, List, [], ◌∷◌, ◌++◌, none, some, ok, err,
  arith, length, take, get_elem?, ltb, ◌==◌, Bool-cases, Option-cases,
}
use mathlib.Core.List.{append_assoc, append-nil}
use near_instant.Beacon.{
  Vote, Reply, same_key, vote_of, two_agree, agree_from, QuorumError, poll_nodes,
  account_info_quorum,
}
use near_instant.Beacon.Votes.{Agreed, get_elem?-append, agree_from-Agreed, agree_from-none}

-- The votes that replies come to.
abbrev pub votes_of : List Reply → List Vote
votes_of [] = []
votes_of (reply ∷ replies) =
    let later = votes_of replies in elim (vote_of reply) [ none ↦ later | some v ↦ v ∷ later ]

two_agree-Agreed : (votes : List Vote) (v : Vote) → two_agree votes ≡ some v → Agreed v votes
unfolding two_agree
two_agree-Agreed votes v e = agree_from-Agreed [] votes v e

two_agree-none :
    (votes : List Vote) (i j : ℕ) (v w : Vote)
    → two_agree votes ≡ none
    → i < j
    → get_elem? votes i ≡ some v
    → get_elem? votes j ≡ some w
    → same_key v w ≡ false
unfolding two_agree
two_agree-none votes i j v w e lt gv gw = agree_from-none [] votes i j v w e lt (omega arith) gv gw

Agreed-append : (xs ys : List Vote) (v : Vote) → Agreed v xs → Agreed v (xs ++ ys)
Agreed-append xs ys v (i, j, w, lt, gv, gw, key) =
    (i, j, w, lt, get_elem?-append xs ys i gv, get_elem?-append xs ys j gw, key)

-- With two nodes or more, a head is only taken from two votes that agree.
poll_nodes-ok :
    (votes : List Vote) (replies : List Reply) (v : Vote)
    → poll_nodes false votes replies ≡ ok v
    → Agreed v (votes ++ votes_of replies)
unfolding poll_nodes
poll_nodes-ok votes [] v e = absurd (ground arith)
poll_nodes-ok votes (reply ∷ replies) v e = elim (Option-cases (vote_of reply)) [
  | inl p ↦ rw (votes_of, p) (poll_nodes-ok votes replies v (rw (poll_nodes, p) at e))
  | inr (x, p) ↦
      let parts = append_assoc votes (x ∷ []) (votes_of replies) in
      elim (Option-cases (two_agree (votes ++ x ∷ []))) [
        | inl q ↦
            rw (votes_of, p, ← parts)
              (poll_nodes-ok (votes ++ x ∷ []) replies v (rw (poll_nodes, p, q) at e))
        | inr (win, q) ↦
            let same : win ≡ v = ground arith in
            rw (votes_of, p, ← parts, ← same)
              (Agreed-append (votes ++ x ∷ []) (votes_of replies) win (two_agree-Agreed _ win q))
      ]
]

poll_nodes-err :
    (votes : List Vote) (replies : List Reply) (reason : QuorumError)
    → two_agree votes ≡ none
    → poll_nodes false votes replies ≡ err reason
    → two_agree (votes ++ votes_of replies) ≡ none
unfolding poll_nodes
poll_nodes-err votes [] reason alone e = rw (append-nil votes) alone
poll_nodes-err votes (reply ∷ replies) reason alone e = elim (Option-cases (vote_of reply)) [
  | inl p ↦ rw (votes_of, p) (poll_nodes-err votes replies reason alone (rw (poll_nodes, p) at e))
  | inr (x, p) ↦
      let parts = append_assoc votes (x ∷ []) (votes_of replies) in
      elim (Option-cases (two_agree (votes ++ x ∷ []))) [
        | inl q ↦
            rw (votes_of, p, ← parts)
              (poll_nodes-err (votes ++ x ∷ []) replies reason q (rw (poll_nodes, p, q) at e))
        | inr (win, q) ↦ absurd (ground arith)
      ]
]

two_agree-nil : two_agree [] ≡ none
unfolding two_agree agree_from
two_agree-nil = refl

same_key_trans : (u v w : Vote) → same_key u v ≡ true → same_key v w ≡ true → same_key u w ≡ true
unfolding same_key
same_key_trans none none w p q = q
same_key_trans none (some b) w p q = absurd (ground arith)
same_key_trans (some a) none w p q = absurd (ground arith)
same_key_trans (some a) (some b) none p q = absurd (ground arith)
same_key_trans (some a) (some b) (some c) p q = ground arith

-- One lying node cannot set the head: with two nodes or more configured, if all votes among the first
-- six replies but one, at position `liar`, have the frontier and the balance of `head`, then whatever
-- `accountInfoQuorum` returns has them too.
pub quorum_honest :
    (replies : List Reply) (head v : Vote) (liar : ℕ)
    → 2 ≤ length replies
    → ((i : ℕ) (w : Vote)
        → i ≢ liar
        → get_elem? (votes_of (take 6 replies)) i ≡ some w
        → same_key w head ≡ true)
    → account_info_quorum replies ≡ ok v
    → same_key v head ≡ true
unfolding account_info_quorum
quorum_honest replies head v liar enough honest e =
    let many : ltb (length replies) 2 ≡ false = ground arith in
    let (i, j, w, lt, gv, gw, key) = poll_nodes-ok [] (take 6 replies) v (rw many at e) in
    elim (Bool-cases (i == liar)) [
      | inr p ↦ honest i v (ground arith) gv
      | inl p ↦ same_key_trans v w head key (honest j w (ground arith) gw)
    ]

-- With two nodes or more, `accountInfoQuorum` throws exactly if no two votes among the first six
-- replies agree.
pub quorum-err :
    (replies : List Reply)
    → 2 ≤ length replies
    → ((reason : QuorumError) (i j : ℕ) (v w : Vote)
        → account_info_quorum replies ≡ err reason
        → i < j
        → get_elem? (votes_of (take 6 replies)) i ≡ some v
        → get_elem? (votes_of (take 6 replies)) j ≡ some w
        → same_key v w ≡ false)
      × ((v : Vote) → account_info_quorum replies ≡ ok v → Agreed v (votes_of (take 6 replies)))
unfolding account_info_quorum
quorum-err replies enough =
    let many : ltb (length replies) 2 ≡ false = ground arith in
    (
      (λ reason i j v w e lt gv gw.
          two_agree-none (votes_of (take 6 replies)) i j v w
            (poll_nodes-err [] (take 6 replies) reason two_agree-nil (rw many at e)) lt gv gw),
      λ v e. poll_nodes-ok [] (take 6 replies) v (rw many at e),
    )
