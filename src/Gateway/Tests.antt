-- ===== src/Gateway/Tests.antt =====
-- Calls on the gate of roster/gateway/settlement.ts with one confirmed payment of 7 OS.
use dacs_agent_reference.Common.{◌+◌, ◌≤◌, true, Option, none, some, List, [], ◌∷◌, ◌≡◌, refl}
use dacs_agent_reference.Common.Int.{pos}
use dacs_agent_reference.Gateway.Settlement.{
  Runtime, TxContent, DemTx, Reads, Payment, has, add, present, settle, verify_and_reserve,
  read_payment, check_payment, check_amount, is_complete, proven, check_proof,
}
use dacs_agent_reference.Gateway.Settlement.Exclusive.{
  GateCall, verifying, releasing, IsSale, verify_and_reserve-IsSale, sold, released, sold_le,
}
use dacs_agent_reference.Gateway.Settlement.Overlapping.{
  GateStep, beginning, answering, sales, step, releases, overlaps, sales_le,
}

abbrev runtime : Runtime
runtime = record {
  bare_hash = λ s. s;
  lower_hash = λ s. s;
  is_hex64 = λ s. true;
  big_int = λ s. some (pos 7);
  sha256_hex = λ t. "hash";
}

abbrev transfer : DemTx
transfer =
    let content : TxContent = record {
      type_name = some "native";
      from_address = some "buyer";
      to_address = some "gateway";
      amount = some "7";
      data_kind = none;
    } in
    record {
      tx_hash = some "h";
      status = some "confirmed";
      block_number = some (pos 3);
      content = some content;
    }

abbrev reads : Option Reads
reads = some (record { by_hash = some transfer; history = []; status = none })

abbrev payment : Payment
payment = record { payer = "buyer"; amount_os = pos 7; block_number = pos 3 }

verify_and_reserve-IsSale_example :
    IsSale runtime "gateway" "h"
      (pos 5)
      none
      reads
      []
      (verify_and_reserve runtime "gateway" "h" (pos 5) none reads []).0
      payment
unfolding verify_and_reserve present settle read_payment check_payment check_amount is_complete
    proven has check_proof
verify_and_reserve-IsSale_example =
    verify_and_reserve-IsSale runtime "gateway" "h" (pos 5) none reads [] payment refl

abbrev calls : List GateCall
calls =
    verifying "h" (pos 5) none reads
    ∷ verifying "h" (pos 5) none reads
    ∷ releasing "h"
    ∷ verifying "h" (pos 5) none reads
    ∷ []

sold_le_example : sold runtime "gateway" "h" calls [] ≤ 1 + released runtime "gateway" "h" calls
sold_le_example = sold_le runtime "gateway" "h" calls []

-- Two presentations of one hash overlap, and both are taken.
abbrev overlapping_calls : List GateStep
overlapping_calls =
    beginning "h" (pos 5) none
    ∷ beginning "h" (pos 5) none
    ∷ answering 1 reads
    ∷ answering 0 reads
    ∷ []

both_sold :
    sales runtime "gateway" "h" overlapping_calls (record { reserved = []; waiting = [] }) ≡ 2
unfolding sales step present settle read_payment check_payment check_amount is_complete proven has
    add check_proof
both_sold = refl

sales_le_example :
    sales runtime "gateway" "h" overlapping_calls (record { reserved = []; waiting = [] })
    ≤ 1
      + releases runtime "gateway" "h" overlapping_calls
      + overlaps runtime "gateway" "h" overlapping_calls (record { reserved = []; waiting = [] })
sales_le_example = sales_le runtime "gateway" "h" overlapping_calls []
