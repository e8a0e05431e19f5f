-- ===== src/EvalBot/Ledger.antt =====
-- roster/evalbot/ledger.ts: the hash-chained ledger of rulings, as the list of its entries. The hash of
-- an entry and the genesis hash are a parameter.
pub mod Chain
use dacs_agent_reference.Common.{
  ℕ, ◌+◌, String, Bool, true, false, ◌&&◌, Option, none, some, List, [], ◌∷◌, ◌++◌, last?, ◌==◌,
  str_eq,
}
use dacs_agent_reference.EvalBot.Ruling.{EvaluationRuling, Crypto, verify_ruling}

pub record LedgerEntry : Type 0 where
  pub seq : ℕ
  pub prev_hash : String
  pub entry_hash : String
  pub ruling : EvaluationRuling

pub record ChainHash : Type 0 where
  pub genesis : String
  pub entry_hash : ℕ → String → EvaluationRuling → String

abbrev pub last_seq : Option LedgerEntry → ℕ
last_seq none = 0
last_seq (some e) = e.seq

module _ (chain : ChainHash) where
  abbrev pub last_hash : Option LedgerEntry → String
  last_hash none = chain.genesis
  last_hash (some e) = e.entry_hash

  -- the entry that comes after another one
  abbrev pub next_entry : Option LedgerEntry → EvaluationRuling → LedgerEntry
  next_entry last ruling = record {
    seq = last_seq last + 1;
    prev_hash = last_hash last;
    entry_hash = chain.entry_hash (last_seq last + 1) (last_hash last) ruling;
    ruling = ruling;
  }

  -- `appendRuling`, as the ledger after it
  unfoldable pub append_ruling : List LedgerEntry → EvaluationRuling → List LedgerEntry
  append_ruling ledger ruling = ledger ++ next_entry (last? ledger) ruling ∷ []

module _ (crypto : Crypto) (chain : ChainHash) where
  -- what the loop of `verifyLedger` asks of the entry at a position
  unfoldable pub entry_ok : ℕ → String → LedgerEntry → Bool
  entry_ok position expected_prev e =
      e.seq == position
      && (str_eq e.prev_hash expected_prev
          && (str_eq e.entry_hash (chain.entry_hash e.seq e.prev_hash e.ruling)
              && verify_ruling crypto e.ruling e.ruling.unsigned.evaluator_public_key none))

  unfoldable pub verify_from : ℕ → String → List LedgerEntry → Bool
  verify_from position expected_prev [] = true
  verify_from position expected_prev (e ∷ rest) =
      entry_ok position expected_prev e && verify_from (position + 1) e.entry_hash rest

  -- whether `verifyLedger` finds the ledger valid
  unfoldable pub verify_ledger : List LedgerEntry → Bool
  verify_ledger ledger = verify_from 1 chain.genesis ledger
