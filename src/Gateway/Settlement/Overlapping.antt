-- ===== src/Gateway/Settlement/Overlapping.antt =====
-- The gate of roster/gateway/settlement.ts where presentations overlap: `verifyAndReserve` gives way at
-- its lookup, so that other calls may come between its two parts, in any order.
use mathlib.Core.Path.{subst}
use dacs_agent_reference.Common.{
  ℕ, zero, suc, ◌+◌, ◌-◌, ◌≤◌, String, true, false, ◌&&◌, Option, none, some, List, [], ◌∷◌, ◌≡◌,
  refl, sym, inl, inr, arith, ltb, str_eq, str-cases,
}
use dacs_agent_reference.Common.Int.{ℤ}
use dacs_agent_reference.Gateway.Settlement.{
  Runtime, PaymentInclusionProof, Reads, PaymentResult, paid, refused, Reserved, has, add, Pending,
  Presented, turned_away, waits, present, looked_up, reserve_paid, settle, release,
}
use dacs_agent_reference.Gateway.Settlement.ReservedSet.{count, has-add, has-add_le, has-delete}
use dacs_agent_reference.Gateway.Settlement.Exclusive.{present-waits}

-- The gate, with the presentations that wait for their lookup.
pub record PaymentGate : Type 0 where
  pub reserved : Reserved
  pub waiting : List Pending

-- A presentation begins, the one at some place among those that wait has its lookup answered, or a
-- reservation is released.
pub data GateStep : Type 0 where
  beginning : String → ℤ → Option PaymentInclusionProof → GateStep
  answering : ℕ → Option Reads → GateStep
  releasing : String → GateStep

abbrev pub take_at : ℕ → List Pending → Option (Pending × List Pending)
take_at i [] = none
take_at zero (w ∷ ws) = some (w, ws)
take_at (suc i) (w ∷ ws) = elim (take_at i ws) [ none ↦ none | some (v, rest) ↦ some (v, w ∷ rest) ]

-- the presentations of a hash that wait
abbrev pub waiting_for : String → List Pending → ℕ
waiting_for h [] = 0
waiting_for h (w ∷ ws) = count (str_eq w.hash h) + waiting_for h ws

take_at-waiting_for :
    (h : String) (i : ℕ) (ws : List Pending) (w : Pending) (rest : List Pending)
    → take_at i ws ≡ some (w, rest)
    → waiting_for h ws ≡ count (str_eq w.hash h) + waiting_for h rest
take_at-waiting_for h i [] w rest e = cc
take_at-waiting_for h zero (v ∷ ws) w rest e = ground arith
take_at-waiting_for h (suc i) (v ∷ ws) w rest e =
    later (take_at i ws) (λ u r q. take_at-waiting_for h i ws u r q) e
  where
    later :
        (o : Option (Pending × List Pending))
        → ((u : Pending) (r : List Pending)
            → o ≡ some (u, r)
            → waiting_for h ws ≡ count (str_eq u.hash h) + waiting_for h r)
        → (elim o as (λ _. Option (Pending × List Pending)) [
          | none ↦ none
          | some (u, r) ↦ some (u, v ∷ r)
        ])
          ≡ some (w, rest)
        → waiting_for h (v ∷ ws) ≡ count (str_eq w.hash h) + waiting_for h rest
    later none ih f = cc
    later (some (u, r)) ih f = ground (arith, ih u r refl)

abbrev pub sale_of : String → PaymentResult → Option String
sale_of k (paid p) = some k
sale_of k (refused r again) = none

abbrev pub is_sale : String → Option String → ℕ
is_sale h none = 0
is_sale h (some k) = count (str_eq k h)

module _ (rt : Runtime) (pay_to : String) where
  abbrev pub begin_on : Presented → PaymentGate → PaymentGate
  begin_on (turned_away r) g = g
  begin_on (waits w) g = record g { waiting = w ∷ g.waiting }

  abbrev pub answer_on :
      Option (Pending × List Pending) → Option Reads → PaymentGate → PaymentGate × Option String
  answer_on none lookup g = (g, none)
  answer_on (some (w, rest)) lookup g =
      let (s, result) = settle rt pay_to w lookup g.reserved in
      (record { reserved = s; waiting = rest }, sale_of w.hash result)

  -- A step of the gate, and the hash that it sells, if it takes a presentation.
  unfoldable pub step : GateStep → PaymentGate → PaymentGate × Option String
  step (beginning tx_hash price_os proof) g =
      (begin_on (present rt tx_hash price_os proof g.reserved) g, none)
  step (answering i lookup) g = answer_on (take_at i g.waiting) lookup g
  step (releasing tx_hash) g = (record g { reserved = release rt tx_hash g.reserved }, none)

  unfoldable pub sales : String → List GateStep → PaymentGate → ℕ
  sales h [] g = 0
  sales h (x ∷ xs) g = let (g', sold) = step x g in is_sale h sold + sales h xs g'

  abbrev pub releases_by : String → GateStep → ℕ
  releases_by h (beginning tx_hash price_os proof) = 0
  releases_by h (answering i lookup) = 0
  releases_by h (releasing tx_hash) = count (str_eq (rt.bare_hash tx_hash) h)

  unfoldable pub releases : String → List GateStep → ℕ
  releases h [] = 0
  releases h (x ∷ xs) = releases_by h x + releases h xs

  abbrev pub joins : String → Presented → List Pending → ℕ
  joins h (turned_away r) ws = 0
  joins h (waits w) ws = count (str_eq w.hash h && ltb 0 (waiting_for h ws))

  abbrev pub overlaps_by : String → GateStep → PaymentGate → ℕ
  overlaps_by h (beginning tx_hash price_os proof) g =
      joins h (present rt tx_hash price_os proof g.reserved) g.waiting
  overlaps_by h (answering i lookup) g = 0
  overlaps_by h (releasing tx_hash) g = 0

  -- the presentations of a hash that begin to wait while another one waits
  unfoldable pub overlaps : String → List GateStep → PaymentGate → ℕ
  overlaps h [] g = 0
  overlaps h (x ∷ xs) g = overlaps_by h x g + overlaps h xs (step x g).0

  -- how many presentations of a hash may still be taken, if nothing more comes
  abbrev allowance : String → PaymentGate → ℕ
  allowance h g = let w = waiting_for h g.waiting in w + (1 - count (has h g.reserved) - w)

  begin_allowed :
      (h : String) (x : Presented) (g : PaymentGate)
      → ((w : Pending) → x ≡ waits w → has w.hash g.reserved ≡ false)
      → allowance h (begin_on x g) ≤ allowance h g + joins h x g.waiting
  begin_allowed h (turned_away r) g fresh = omega arith
  begin_allowed h (waits w) g fresh =
      let new = fresh w refl in
      elim (str-cases w.hash h) [
        | inl (q, same) ↦
            let old = subst (λ k. has k g.reserved ≡ false) same new in rw (q, old) (ground arith)
        | inr (q, other) ↦ rw q (omega arith)
      ]

  answered_allowed :
      (h k : String) (rest : List Pending) (s : Reserved) (n : ℕ) (r : PaymentResult)
      → n ≡ count (str_eq k h) + waiting_for h rest
      → let s' = reserve_paid rt k r s in
        is_sale h (sale_of k r) + (waiting_for h rest + (1 - count (has h s') - waiting_for h rest))
        ≤ n + (1 - count (has h s) - n)
  answered_allowed h k rest s n (refused r again) e = omega arith
  answered_allowed h k rest s n (paid p) e =
      let le = has-add_le h k s in
      elim (str-cases k h) [
        | inl (q, same) ↦
            let kept : has h (add k s) ≡ true =
              subst (λ j. has h (add j s) ≡ true) (sym same) (has-add h s) in
            let m : n ≡ 1 + waiting_for h rest = rw q at e in rw (q, kept) (omega arith)
        | inr (q, other) ↦
            let m : n ≡ 0 + waiting_for h rest = rw q at e in rw q (omega (arith, le))
      ]

  step_allowed :
      (h : String) (x : GateStep) (g : PaymentGate)
      → is_sale h (step x g).1 + allowance h (step x g).0
        ≤ allowance h g + releases_by h x + overlaps_by h x g
  unfolding step settle release
  step_allowed h (beginning tx_hash price_os proof) g =
      let le = begin_allowed h (present rt tx_hash price_os proof g.reserved) g (λ w e.
        let (hash, fresh, holds, same) =
          present-waits rt pay_to tx_hash price_os proof g.reserved w e in
        subst (λ v. has v.hash g.reserved ≡ false) same fresh) in
      omega (arith, le)
  step_allowed h (releasing tx_hash) g =
      omega (arith, has-delete h (rt.bare_hash tx_hash) g.reserved)
  step_allowed h (answering i lookup) g = answered (take_at i g.waiting) refl
    where
      answered :
          (o : Option (Pending × List Pending))
          → take_at i g.waiting ≡ o
          → is_sale h (answer_on o lookup g).1 + allowance h (answer_on o lookup g).0
            ≤ allowance h g + 0 + 0
      answered none e = omega arith
      answered (some (w, rest)) e =
          let n = take_at-waiting_for h i g.waiting w rest e in
          omega (
            arith,
            answered_allowed h w.hash rest g.reserved (waiting_for h g.waiting)
                (looked_up rt pay_to w lookup) n,
          )

  sales-allowance_le :
      (h : String) (xs : List GateStep) (g : PaymentGate)
      → sales h xs g ≤ allowance h g + releases h xs + overlaps h xs g
  unfolding sales releases overlaps
  sales-allowance_le h [] g = omega arith
  sales-allowance_le h (x ∷ xs) g =
      omega (arith, sales-allowance_le h xs (step x g).0, step_allowed h x g)

  -- Whatever the order in which presentations begin, lookups answer and reservations are released,
  -- from a gate where nothing waits: a hash is taken at most once more than it is released and than
  -- presentations of it begin to wait while another one waits. Without the latter, one payment buys
  -- one call.
  pub sales_le :
      (h : String) (xs : List GateStep) (s : Reserved)
      → sales h xs (record { reserved = s; waiting = [] })
        ≤ 1 + releases h xs + overlaps h xs (record { reserved = s; waiting = [] })
  sales_le h xs s = omega (arith, sales-allowance_le h xs (record { reserved = s; waiting = [] }))
