-- ===== src/Gateway/Settlement.antt =====
-- roster/gateway/settlement.ts: the gate that reserves a payment's transaction hash for one call. The
-- runtime's string and hash functions are a parameter, and so is what a lookup on the chain
-- answers. `verifyAndReserve` awaits that lookup, so it is two steps here: `present`, up to the
-- await, and `settle`, after it. Amounts are OS, in ℤ as `bigint`.
pub mod ReservedSet
pub mod Paid
pub mod Exclusive
pub mod Overlapping
use dacs_agent_reference.Common.{
  String, Bool, true, false, not, ◌&&◌, ◌||◌, Option, none, some, List, [], ◌∷◌, any, find, is_some,
  if◌then◌else◌, str_eq,
}
use dacs_agent_reference.Common.Int.{ℤ, pos, ltb_ℤ, int_eq}

pub record TxContent : Type 0 where
  pub type_name : Option String
  pub from_address : Option String
  pub to_address : Option String
  pub amount : Option String
  pub data_kind : Option String

-- What the gate uses of the runtime.
pub record Runtime : Type 0 where
  -- `trim()`, without a leading 0x, in lower case
  pub bare_hash : String → String
  -- /^0x/ taken off and lower case
  pub lower_hash : String → String
  -- /^[0-9a-fA-F]{64}$/
  pub is_hex64 : String → Bool
  -- `BigInt(text)`, which throws on what is no integer
  pub big_int : String → Option ℤ
  -- SHA-256 of a text, in hex
  pub sha256_hex : String → String

-- `block_number` is `none` for what is no safe integer.
pub record DemTx : Type 0 where
  pub tx_hash : Option String
  pub status : Option String
  pub block_number : Option ℤ
  pub content : Option TxContent

-- The content, and its whole JSON text, whose other fields the gate does not read.
pub record PaymentInclusionProof : Type 0 where
  pub transaction_content : Option TxContent
  pub content_json : String
  pub block_number : Option ℤ

-- The answers of `getTransactionStatus`.
pub record ChainStatus : Type 0 where
  pub state : String
  pub block_number : Option ℤ

-- What the three lookups answer; one that fails or times out answers `none` or [].
pub record Reads : Type 0 where
  pub by_hash : Option DemTx
  pub history : List DemTx
  pub status : Option ChainStatus

pub data PaymentReason : Type 0 where
  not_a_hash already_used malformed_proof proof_mismatch lookup_failed not_found unconfirmed
        unreadable not_native wrong_recipient bad_amount underpaid no_block :
      PaymentReason

pub record Payment : Type 0 where
  pub payer : String
  pub amount_os : ℤ
  pub block_number : ℤ

pub data PaymentResult : Type 0 where
  paid : Payment → PaymentResult
  refused : PaymentReason → Bool → PaymentResult

-- `String(value)` of an optional text
abbrev pub text_of : Option String → String
text_of none = "undefined"
text_of (some s) = s

abbrev pub text_is : Option String → String → Bool
text_is none s = false
text_is (some t) s = str_eq t s

-- A status that is present, not empty, and not "confirmed".
abbrev pub is_pending : Option String → Bool
is_pending none = false
is_pending (some s) = not (str_eq s "") && not (str_eq s "confirmed")

-- `!(Number.isSafeInteger(n)) || n < 0` is false, and what n is.
abbrev pub block_of : Option ℤ → Option ℤ
block_of none = none
block_of (some n) = if ltb_ℤ n (pos 0) then none else some n

abbrev pub content_of : Option TxContent → TxContent
content_of (some c) = c
content_of none = record {
  type_name = none;
  from_address = none;
  to_address = none;
  amount = none;
  data_kind = none;
}

-- A transaction that shows a complete native transfer.
unfoldable pub is_complete : DemTx → Bool
is_complete tx =
    let c = content_of tx.content in
    text_is tx.status "confirmed"
    && text_is c.type_name "native"
    && is_some c.from_address
    && is_some c.to_address
    && is_some c.amount
    && is_some tx.block_number

abbrev pub same_block : Option ℤ → Option ℤ → Bool
same_block (some m) (some n) = int_eq m n
same_block none none = true
same_block _ _ = false

-- The transaction that the inclusion proof and the chain's status together show.
unfoldable pub proven : String → Option PaymentInclusionProof → Option ChainStatus → Option DemTx
proven hash none status = none
proven hash (some proof) none = none
proven hash (some proof) (some s) =
    if (str_eq s.state "included" || str_eq s.state "confirmed")
      && same_block s.block_number proof.block_number
    then some (record {
      tx_hash = some hash;
      status = some "confirmed";
      block_number = s.block_number;
      content = proof.transaction_content;
    })
    else none

-- `first ?? second`
abbrev pub or_else {ℓ} : {A : Type ℓ} → Option A → Option A → Option A
or_else none b = b
or_else (some a) b = some a

abbrev pub if_complete : Option DemTx → Option DemTx
if_complete none = none
if_complete (some tx) = if is_complete tx then some tx else none

-- The bounds and the shape of a proof.
unfoldable pub is_malformed : PaymentInclusionProof → Bool
is_malformed proof =
    not (is_some (block_of proof.block_number)) || not (is_some proof.transaction_content)

-- The hashes that are reserved, a `Set`.
abbrev pub Reserved : Type 0
Reserved = List String

unfoldable pub has : String → Reserved → Bool
has h s = any (str_eq h) s

-- `Set.delete`
unfoldable pub delete : String → Reserved → Reserved
delete h [] = []
delete h (k ∷ rest) = if str_eq h k then delete h rest else k ∷ delete h rest

-- `Set.add`
unfoldable pub add : String → Reserved → Reserved
add h s = if has h s then s else h ∷ s

-- A presentation that waits for its lookup.
pub record Pending : Type 0 where
  pub hash : String
  pub price_os : ℤ
  pub proof : Option PaymentInclusionProof

pub data Presented : Type 0 where
  turned_away : PaymentReason → Presented
  waits : Pending → Presented

module _ (rt : Runtime) where
  unfoldable pub read_payment : Pending → Reads → Option DemTx
  read_payment p r =
      let historical = find (λ tx. text_is (lower tx.tx_hash) p.hash) r.history in
      or_else (if_complete (proven p.hash p.proof r.status)) (
        or_else (if_complete r.by_hash)
          (or_else (if_complete historical) (or_else r.by_hash historical)))
    where
      lower : Option String → Option String
      lower none = none
      lower (some h) = some (rt.lower_hash h)

  unfoldable pub check_proof : String → Option PaymentInclusionProof → Option PaymentReason
  check_proof h none = none
  check_proof h (some proof) =
      if is_malformed proof
      then some malformed_proof
      else if str_eq (rt.sha256_hex proof.content_json) h
      then none
      else some proof_mismatch

  -- `verifyAndReserve` up to the lookup
  unfoldable pub present : String → ℤ → Option PaymentInclusionProof → Reserved → Presented
  present tx_hash price_os proof reserved =
      let h = rt.bare_hash tx_hash in
      if not (rt.is_hex64 h)
      then turned_away not_a_hash
      else if has h reserved
      then turned_away already_used
      else elim (check_proof h proof) [
        | some r ↦ turned_away r
        | none ↦ waits (record { hash = h; price_os = price_os; proof = proof })
      ]

  -- The checks on the amount and the block.
  unfoldable pub check_amount : ℤ → TxContent → Option ℤ → Option ℤ → PaymentResult
  check_amount price_os c none block = refused bad_amount false
  check_amount price_os c (some amount) block =
      if ltb_ℤ amount price_os then refused underpaid false else elim block [
        | none ↦ refused no_block true
        | some n ↦
            paid (record { payer = text_of c.from_address; amount_os = amount; block_number = n })
      ]

  abbrev pub amount_of : Option String → Option ℤ
  amount_of none = some (pos 0)
  amount_of (some text) = rt.big_int text

  -- The checks on the transaction that the lookup found.
  unfoldable pub check_payment : String → ℤ → Option DemTx → PaymentResult
  check_payment pay_to price_os none = refused not_found true
  check_payment pay_to price_os (some tx) =
      let c = content_of tx.content in
      if is_pending tx.status
      then refused unconfirmed true
      else if not (text_is c.type_name "native")
      then refused
          (if text_is c.data_kind "native" || not (is_some c.type_name)
            then unreadable
            else not_native)
          true
      else if not (str_eq (text_of c.to_address) pay_to)
      then refused wrong_recipient false
      else check_amount price_os c (amount_of c.amount) (block_of tx.block_number)

  abbrev pub reserve_paid : String → PaymentResult → Reserved → Reserved
  reserve_paid h (paid p) reserved = add h reserved
  reserve_paid h (refused r again) reserved = reserved

  -- What the answers of the lookup say; `none` is a lookup that throws.
  abbrev pub looked_up : String → Pending → Option Reads → PaymentResult
  looked_up pay_to p none = refused lookup_failed true
  looked_up pay_to p (some reads) = check_payment pay_to p.price_os (read_payment p reads)

  -- `verifyAndReserve` from the lookup on
  unfoldable pub settle : String → Pending → Option Reads → Reserved → Reserved × PaymentResult
  settle pay_to p lookup reserved =
      let result = looked_up pay_to p lookup in (reserve_paid p.hash result reserved, result)

  abbrev pub verdict_on : String → Presented → Option Reads → Reserved → Reserved × PaymentResult
  verdict_on pay_to (turned_away r) lookup reserved = (reserved, refused r false)
  verdict_on pay_to (waits p) lookup reserved = settle pay_to p lookup reserved

  -- a presentation whose lookup no other one comes between
  unfoldable pub verify_and_reserve :
      String
      → String
      → ℤ
      → Option PaymentInclusionProof
      → Option Reads
      → Reserved
      → Reserved × PaymentResult
  verify_and_reserve pay_to tx_hash price_os proof lookup reserved =
      verdict_on pay_to (present tx_hash price_os proof reserved) lookup reserved

  unfoldable pub release : String → Reserved → Reserved
  release tx_hash reserved = delete (rt.bare_hash tx_hash) reserved
