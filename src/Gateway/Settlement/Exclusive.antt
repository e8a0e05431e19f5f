-- ===== src/Gateway/Settlement/Exclusive.antt =====
-- What the gate of roster/gateway/settlement.ts sells: a payment that passes is new, native,
-- addressed to the gateway and large enough, and it buys one call, as long as no other
-- presentation comes between a presentation and its lookup.
use mathlib.Core.Path.{subst}
use dacs_agent_reference.Common.{
  ℕ, ◌+◌, ◌≤◌, String, Bool, true, false, Option, none, some, List, [], ◌∷◌, ◌≡◌, refl, sym, inl,
  inr, str_eq, str-cases, arith,
}
use dacs_agent_reference.Common.Int.{ℤ}
use dacs_agent_reference.Gateway.Settlement.{
  Runtime, DemTx, PaymentInclusionProof, Reads, Payment, PaymentResult, paid, refused, Reserved,
  has, delete, Pending, Presented, turned_away, waits, present, check_proof, read_payment,
  looked_up, reserve_paid, settle, verdict_on, verify_and_reserve, release,
}
use dacs_agent_reference.Gateway.Settlement.ReservedSet.{count, has-add, has-add_le, has-delete}
use dacs_agent_reference.Gateway.Settlement.Paid.{PaysFor, check_payment-PaysFor}

-- Calls on the gate, each finished before the next begins.
pub data GateCall : Type 0 where
  -- with what the lookup answers
  verifying : String → ℤ → Option PaymentInclusionProof → Option Reads → GateCall
  releasing : String → GateCall

module _ (rt : Runtime) (pay_to : String) where
  -- The presentation that waits for a lookup.
  abbrev pub presented : String → ℤ → Option PaymentInclusionProof → Pending
  presented tx_hash price_os proof = record {
    hash = rt.bare_hash tx_hash;
    price_os = price_os;
    proof = proof;
  }

  -- The transaction that the answers show, and that pays.
  pub record Shows (w : Pending) (reads : Reads) (p : Payment) : Type 0 where
    pub tx : DemTx
    pub read : read_payment rt w reads ≡ some tx
    pub pays : PaysFor rt pay_to w.price_os tx p

  -- The lookup answered, and showed the payment.
  abbrev pub Seen : Pending → Option Reads → Payment → Type 0
  Seen w none p = ⊥
  Seen w (some reads) p = Shows w reads p

  -- What `verifyAndReserve` says of a presentation that it takes.
  pub record IsSale (tx_hash : String) (price_os : ℤ) (proof : Option PaymentInclusionProof)
      (lookup : Option Reads) (before after : Reserved) (p : Payment) : Type 0 where
    pub is_hash : rt.is_hex64 (rt.bare_hash tx_hash) ≡ true
    pub is_new : has (rt.bare_hash tx_hash) before ≡ false
    pub is_kept : has (rt.bare_hash tx_hash) after ≡ true
    pub proof_holds : check_proof rt (rt.bare_hash tx_hash) proof ≡ none
    pub seen : Seen (presented tx_hash price_os proof) lookup p

  pub present-waits :
      (tx_hash : String) (price_os : ℤ) (proof : Option PaymentInclusionProof) (s : Reserved)
      (w : Pending)
      → present rt tx_hash price_os proof s ≡ waits w
      → (rt.is_hex64 (rt.bare_hash tx_hash) ≡ true)
        × (has (rt.bare_hash tx_hash) s ≡ false)
        × (check_proof rt (rt.bare_hash tx_hash) proof ≡ none)
        × (presented tx_hash price_os proof ≡ w)
  unfolding present
  present-waits tx_hash price_os proof s w h = ground arith

  looked_up-Seen :
      (w : Pending) (lookup : Option Reads) (p : Payment)
      → looked_up rt pay_to w lookup ≡ paid p
      → Seen w lookup p
  looked_up-Seen w none p h = cc
  looked_up-Seen w (some reads) p h =
      let (tx, read, pays) =
        check_payment-PaysFor rt pay_to w.price_os (read_payment rt w reads) p h in
      record { tx = tx; read = read; pays = pays }

  reserve_paid-paid :
      (h : String) (r : PaymentResult) (s : Reserved) (p : Payment)
      → r ≡ paid p
      → has h (reserve_paid rt h r s) ≡ true
  reserve_paid-paid h (paid q) s p e = has-add h s
  reserve_paid-paid h (refused r again) s p e = cc

  -- A presentation that is taken has a well-formed transaction hash that was not reserved and is
  -- afterwards, its inclusion proof, if it has one, is well-formed and of that hash, and its lookup
  -- answered: the transaction that `readPayment` picks from the answers is a native transfer to the
  -- gateway's wallet, not pending, of at least the price, in a block.
  pub verify_and_reserve-IsSale :
      (tx_hash : String) (price_os : ℤ) (proof : Option PaymentInclusionProof)
      (lookup : Option Reads) (before : Reserved) (p : Payment)
      → (verify_and_reserve rt pay_to tx_hash price_os proof lookup before).1 ≡ paid p
      → IsSale tx_hash price_os proof lookup before
          ((verify_and_reserve rt pay_to tx_hash price_os proof lookup before).0)
          p
  unfolding verify_and_reserve settle
  verify_and_reserve-IsSale tx_hash price_os proof lookup before p e =
      sold (present rt tx_hash price_os proof before) refl e
    where
      sold :
          (x : Presented)
          → present rt tx_hash price_os proof before ≡ x
          → (verdict_on rt pay_to x lookup before).1 ≡ paid p
          → IsSale tx_hash price_os proof lookup before ((verdict_on rt pay_to x lookup before).0) p
      sold (turned_away r) q h = cc
      sold (waits w) q h =
          let (hash, fresh, holds, same) = present-waits tx_hash price_os proof before w q in
          subst
            (λ v.
              IsSale tx_hash price_os proof lookup before
                ((verdict_on rt pay_to (waits v) lookup before).0) p)
            same
            (let k = subst (λ v. looked_up rt pay_to v lookup ≡ paid p) (sym same) h in
              record {
                is_hash = hash;
                is_new = fresh;
                is_kept = reserve_paid-paid (rt.bare_hash tx_hash) _ before p k;
                proof_holds = holds;
                seen = looked_up-Seen (presented tx_hash price_os proof) lookup p k;
              })

  abbrev pub sold_for : String → String → PaymentResult → ℕ
  sold_for h tx_hash (paid p) = count (str_eq (rt.bare_hash tx_hash) h)
  sold_for h tx_hash (refused r again) = 0

  -- The calls that a hash has bought.
  unfoldable pub sold : String → List GateCall → Reserved → ℕ
  sold h [] s = 0
  sold h (verifying tx_hash price_os proof lookup ∷ rest) s =
      let out = verify_and_reserve rt pay_to tx_hash price_os proof lookup s in
      sold_for h tx_hash (out.1) + sold h rest (out.0)
  sold h (releasing tx_hash ∷ rest) s = sold h rest (release rt tx_hash s)

  unfoldable pub released : String → List GateCall → ℕ
  released h [] = 0
  released h (verifying tx_hash price_os proof lookup ∷ rest) = released h rest
  released h (releasing tx_hash ∷ rest) = count (str_eq (rt.bare_hash tx_hash) h) + released h rest

  reserve_paid_le :
      (h k : String) (r : PaymentResult) (s : Reserved)
      → count (has h s) ≤ count (has h (reserve_paid rt k r s))
  reserve_paid_le h k (paid p) s = has-add_le h k s
  reserve_paid_le h k (refused r again) s = omega arith

  verdict_on_le :
      (h : String) (x : Presented) (lookup : Option Reads) (s : Reserved)
      → count (has h s) ≤ count (has h (verdict_on rt pay_to x lookup s).0)
  unfolding settle
  verdict_on_le h (turned_away r) lookup s = omega arith
  verdict_on_le h (waits w) lookup s = reserve_paid_le h w.hash _ s

  verify_and_reserve_le :
      (h tx_hash : String) (price_os : ℤ) (proof : Option PaymentInclusionProof)
      (lookup : Option Reads) (s : Reserved)
      → count (has h s)
        ≤ count (has h ((verify_and_reserve rt pay_to tx_hash price_os proof lookup s).0))
  unfolding verify_and_reserve
  verify_and_reserve_le h tx_hash price_os proof lookup s =
      verdict_on_le h (present rt tx_hash price_os proof s) lookup s

  sale-counts :
      (h tx_hash : String) (price_os : ℤ) (proof : Option PaymentInclusionProof)
      (lookup : Option Reads) (s : Reserved)
      → sold_for h tx_hash ((verify_and_reserve rt pay_to tx_hash price_os proof lookup s).1)
          + count (has h s)
        ≤ count (has h ((verify_and_reserve rt pay_to tx_hash price_os proof lookup s).0))
  sale-counts h tx_hash price_os proof lookup s = counts _ refl
    where
      out : Reserved × PaymentResult
      out = verify_and_reserve rt pay_to tx_hash price_os proof lookup s

      counts :
          (r : PaymentResult)
          → out.1 ≡ r
          → sold_for h tx_hash r + count (has h s) ≤ count (has h (out.0))
      counts (refused r again) e =
          omega (arith, verify_and_reserve_le h tx_hash price_os proof lookup s)
      counts (paid p) e =
          let sale = verify_and_reserve-IsSale tx_hash price_os proof lookup s p e in
          let fresh = sale.is_new in
          let held = sale.is_kept in
          let le = verify_and_reserve_le h tx_hash price_os proof lookup s in
          elim (str-cases (rt.bare_hash tx_hash) h) [
            | inl (q, same) ↦
                rw
                  (
                    q,
                    subst (λ k. has k s ≡ false) same fresh,
                    subst (λ k. has k (out.0) ≡ true) same held,
                  )
                  (omega arith)
            | inr (q, other) ↦ rw q (omega (arith, le))
          ]

  sold-held_le :
      (h : String) (calls : List GateCall) (s : Reserved)
      → sold h calls s + count (has h s) ≤ 1 + released h calls
  unfolding sold released release
  sold-held_le h [] s = at_most_one (has h s)
    where
      at_most_one : (b : Bool) → 0 + count b ≤ 1 + 0
      at_most_one true = omega arith
      at_most_one false = omega arith
  sold-held_le h (verifying tx_hash price_os proof lookup ∷ rest) s =
      let out = verify_and_reserve rt pay_to tx_hash price_os proof lookup s in
      omega (arith, sold-held_le h rest (out.0), sale-counts h tx_hash price_os proof lookup s)
  sold-held_le h (releasing tx_hash ∷ rest) s = omega (
    arith,
    sold-held_le h rest (delete (rt.bare_hash tx_hash) s),
    has-delete h (rt.bare_hash tx_hash) s,
  )

  -- One payment buys one call: over any sequence of calls on the gate, each finished before the
  -- next begins, a hash is taken at most once more than it is released.
  pub sold_le :
      (h : String) (calls : List GateCall) (s : Reserved) → sold h calls s ≤ 1 + released h calls
  sold_le h calls s = omega (arith, sold-held_le h calls s)
