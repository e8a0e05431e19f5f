-- ===== src/Gateway/Settlement/Paid.antt =====
-- What a transaction is that passes the checks of roster/gateway/settlement.ts.
use dacs_agent_reference.Common.{
  String, true, false, Option, none, some, ◌≡◌, refl, str_eq, str_eq_iff, arith,
}
use dacs_agent_reference.Common.Int.{ℤ, ltb_ℤ}
use dacs_agent_reference.Gateway.Settlement.{
  Runtime, DemTx, TxContent, Payment, paid, text_of, text_is, is_pending, content_of, check_amount,
  amount_of, block_of, check_payment,
}

-- What the gate has seen of the transaction that pays for a call.
pub record PaysFor (rt : Runtime) (pay_to : String) (price_os : ℤ) (tx : DemTx) (p : Payment)
    : Type 0 where
  pub final : is_pending tx.status ≡ false
  pub native : text_is (content_of tx.content).type_name "native" ≡ true
  pub recipient : text_of (content_of tx.content).to_address ≡ pay_to
  pub amount : amount_of rt (content_of tx.content).amount ≡ some p.amount_os
  pub enough : ltb_ℤ p.amount_os price_os ≡ false
  pub included : block_of tx.block_number ≡ some p.block_number

module _ (rt : Runtime) (pay_to : String) where
  check_amount-paid :
      (price_os : ℤ) (c : TxContent) (a b : Option ℤ) (p : Payment)
      → check_amount rt price_os c a b ≡ paid p
      → (a ≡ some p.amount_os) × (ltb_ℤ p.amount_os price_os ≡ false) × (b ≡ some p.block_number)
  unfolding check_amount
  check_amount-paid price_os c a b p h = ground arith

  pub check_payment-PaysFor :
      (price_os : ℤ) (o : Option DemTx) (p : Payment)
      → check_payment rt pay_to price_os o ≡ paid p
      → (tx : DemTx) × (o ≡ some tx) × PaysFor rt pay_to price_os tx p
  unfolding check_payment
  check_payment-PaysFor price_os none p h = cc
  check_payment-PaysFor price_os (some tx) p h =
      let c = content_of tx.content in
      let own = text_of c.to_address in
      let parts : (is_pending tx.status ≡ false)
          × (text_is c.type_name "native" ≡ true)
          × (str_eq own pay_to ≡ true)
          × (check_amount rt price_os c (amount_of rt c.amount) (block_of tx.block_number)
              ≡ paid p) =
        ground arith in
      let sums = check_amount-paid price_os c _ _ p parts.3 in
      (
        tx,
        refl,
        record {
          final = parts.0;
          native = parts.1;
          recipient = (str_eq_iff own pay_to).0 parts.2;
          amount = sums.0;
          enough = sums.1;
          included = sums.2;
        },
      )
