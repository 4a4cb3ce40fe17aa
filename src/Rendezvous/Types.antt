-- ===== src/Rendezvous/Types.antt =====
-- The data of a rendezvous on a public relay box: take-requests, the maker's replies, and the calls
-- of others. Texts are lists of code units.
use near_instant.Common.{ℕ, Bool, List, [], ◌∷◌, ◌++◌, Option}
use near_instant.Common.Int.{ℤ}
use near_instant.Deal.{Deal}
use near_instant.Certify.{Certificate}
use near_instant.Mailbox.{Crypto}

abbrev pub Text : Type 0
Text = List ℕ

-- The slots that both sides walk.
abbrev pub rv_slots : ℕ
rv_slots = 8

-- "take-v1:" and "resp-v1:" before the offer's hash, in lower case.
unfoldable pub rv_box : Text → Text
rv_box hash = (116 ∷ 97 ∷ 107 ∷ 101 ∷ 45 ∷ 118 ∷ 49 ∷ 58 ∷ []) ++ hash

unfoldable pub rv_resp_box : Text → Text
rv_resp_box hash = (114 ∷ 101 ∷ 115 ∷ 112 ∷ 45 ∷ 118 ∷ 49 ∷ 58 ∷ []) ++ hash

-- A take-request that parses. Its key may be missing, or no key at all.
pub record Request : Type 0 where
  pub deal : Deal
  pub key_text : Option Text
  pub iok : Bool
  pub mok : Bool

-- What a maker posts.
pub data Reply : Type 0 where
  accept : Text → Option ℕ → Option ℕ → Option Text → Reply
  decline : Text → Reply

-- A reply as it parses at the taker: a field that is falsy is none. `claims` holds the count of
-- confirmations if it is an integer, and `mid` a price if that is an integer.
pub data Instant : Type 0 where
  absent : Instant
  claims : Option ℤ → Instant

pub record RawReply : Type 0 where
  pub decline_text : Option Text
  pub key_text : Option Text
  pub instant : Instant
  pub mid : Option (Option ℤ)
  pub sig : Option Text

-- A fresh pair of an ephemeral key.
pub record KeyPair : Type 0 where
  pub public : List ℕ
  pub secret : List ℕ

-- WebCrypto and JSON: `agree` and the parsers have none where they throw.
pub record Platform : Type 0 where
  pub crypto : Crypto
  pub agree : List ℕ → List ℕ → Option (List ℕ)
  pub parse_request : List ℕ → Option Request
  pub parse_reply : List ℕ → Option RawReply
  pub print_request : Deal → Text → List ℕ
  pub print_reply : Reply → List ℕ

-- What `fetch` comes to.
pub data Fetched : Type 0 where
  unreachable vacant : Fetched
  blob : List ℕ → Fetched

-- What the relay answers at each moment, and whether a post to a slot returns.
pub record Relay : Type 0 where
  pub fetch : ℕ → Text → ℕ → Fetched
  pub post_returns : Text → ℕ → Bool

pub record Posting : Type 0 where
  pub box : Text
  pub slot : ℕ
  pub bytes : List ℕ

-- What the caller's certifier comes to: a certificate with the text of its reason (empty for none),
-- nothing, or an exception with its text.
pub data Verdict : Type 0 where
  certificate : Certificate → Text → Verdict
  nothing : Verdict
  raised : Text → Verdict
