-- ===== src/Beacon.antt =====
-- web/beacon.js: reading an account's head from nodes of which some may lie or fail.
pub mod Votes
pub mod Quorum
use near_instant.Common.{
  ℕ, ◌+◌, Bool, true, false, ◌&&◌, not, List, [], ◌∷◌, ◌++◌, Option, none, some, Result, ok, err,
  length, take, ltb, ◌==◌, if◌then◌else◌,
}

-- The head of an account, as a node reports it: texts, as numbers that tell them apart.
pub record Info : Type 0 where
  pub frontier : ℕ
  pub balance : ℕ
  pub representative : ℕ

-- `none` is an account that is not opened yet.
abbrev pub Vote : Type 0
Vote = Option Info

-- What the call of one node comes to: an exception, a head, "not found", or another answer, such as a
-- refusal for too many requests.
pub data Reply : Type 0 where
  unreachable : Reply
  found : Info → Reply
  not_found other_answer : Reply

-- Two votes have the same key: the frontier with the balance, or unopened.
unfoldable pub same_key : Vote → Vote → Bool
same_key none none = true
same_key none (some b) = false
same_key (some a) none = false
same_key (some a) (some b) = a.frontier == b.frontier && a.balance == b.balance

unfoldable pub vote_of : Reply → Option Vote
vote_of unreachable = none
vote_of (found info) = some (some info)
vote_of not_found = some none
vote_of other_answer = none

-- The first vote of a group, `c[k][0]`.
unfoldable pub find_key : Vote → List Vote → Option Vote
find_key v [] = none
find_key v (u ∷ us) = let later = find_key v us in if same_key u v then some u else later

-- The loop of `twoAgree`, with the votes that are grouped already: the groups all have one vote.
unfoldable pub agree_from : List Vote → List Vote → Option Vote
agree_from seen [] = none
agree_from seen (v ∷ vs) =
    let later = agree_from (seen ++ v ∷ []) vs in
    elim (find_key v seen) [ none ↦ later | some u ↦ some u ]

unfoldable pub two_agree : List Vote → Option Vote
two_agree votes = agree_from [] votes

pub data QuorumError : Type 0 where
  no_answer disagree only_one : QuorumError

-- `new Set(votes.map(key)).size > 1`
unfoldable pub differ : List Vote → Bool
differ [] = false
differ (v ∷ []) = false
differ (v ∷ w ∷ ws) = let later = differ (w ∷ ws) in if same_key v w then later else true

-- The end of the loop without an agreeing pair.
unfoldable pub no_quorum : List Vote → QuorumError
no_quorum [] = no_answer
no_quorum (v ∷ vs) = if differ (v ∷ vs) then disagree else only_one

-- The loop over the nodes, with the votes so far.
unfoldable pub poll_nodes : Bool → List Vote → List Reply → Result QuorumError Vote
poll_nodes single votes [] = err (no_quorum votes)
poll_nodes single votes (reply ∷ replies) = elim (vote_of reply) [
  | none ↦ poll_nodes single votes replies
  | some v ↦
      let rest = poll_nodes single (votes ++ v ∷ []) replies in
      if single
      then ok v
      else elim (two_agree (votes ++ v ∷ [])) [ none ↦ rest | some win ↦ ok win ]
]

-- `accountInfoQuorum`, with what each configured node would reply.
unfoldable pub account_info_quorum : List Reply → Result QuorumError Vote
account_info_quorum replies = poll_nodes (ltb (length replies) 2) [] (take 6 replies)
