-- ===== src/Negotiation/Agreement.antt =====
-- What an agreement of roster/audit-negotiator/negotiate.ts is worth: both guards clear it, the
-- other side had it on the table, and the run keeps to its turns.
use mathlib.Core.Path.{subst}
use dacs_agent_reference.Common.{
  ℕ, zero, suc, ◌+◌, ◌≤◌, ◌<◌, Option, none, some, List, [], ◌∷◌, ◌++◌, ◌≡◌, refl, arith, All,
  All-append, last?, length, length-append, sym, ap, ◌∙◌,
}
use dacs_agent_reference.Negotiation.Terms.{
  AuditTerms, NegotiationMove, offer, counter, accept, reject, GuardVerdict, seller_may_settle,
  buyer_may_settle,
}
use dacs_agent_reference.Negotiation.Harness.{
  Side, Turn, Policy, NegotiationConfig, Close, agreed, walked, out_of_guard, rejected,
  NegotiationResult, other, both_clear, on_table_from, guard_emitted_move, close_accept, close_move,
  finish, Step, stop, go, emit, side_at, Rounds, count_round, turn_limit, take_turn, run_from,
  run_negotiation,
}

-- A turn keeps to the guard of its own side.
abbrev pub InGuard : NegotiationConfig → Turn → Type 0
InGuard cfg t = guard_emitted_move t.move t.side cfg ≡ GuardVerdict.ok

-- The sides take turns, and the next turn is that of `side`.
abbrev pub Alternates : Side → List Turn → Type 0
Alternates side [] = Unit
Alternates side (t ∷ rest) = (t.side ≡ side) × Alternates (other side) rest

-- The last turn accepts what the other side last put on the table.
abbrev pub Accepted : AuditTerms → List Turn → Type 0
Accepted terms transcript =
    (t : Turn) × (own : AuditTerms) × (last? transcript ≡ some t)
    × (t.move ≡ accept own)
    × (on_table_from transcript (other t.side) ≡ some terms)

-- The guards that an agreement has cleared, and where its terms come from.
abbrev pub IsHonest : NegotiationConfig → Close → List Turn → Type 0
IsHonest cfg (walked reason) transcript = Unit
IsHonest cfg (agreed terms) transcript =
    (seller_may_settle terms cfg.seller_guard ≡ GuardVerdict.ok)
    × (buyer_may_settle terms cfg.buyer_guard ≡ GuardVerdict.ok)
    × Accepted terms transcript

-- What every result satisfies.
pub record IsProper (cfg : NegotiationConfig) (limit : ℕ) (r : NegotiationResult) : Type 0 where
  pub turns : r.turns ≡ length r.transcript
  pub bounded : r.turns ≤ limit
  pub alternates : Alternates Side.seller r.transcript
  pub in_guard : All (InGuard cfg) r.transcript
  pub honest : IsHonest cfg r.outcome r.transcript

flips : ℕ → Side → Side
flips zero s = s
flips (suc n) s = flips n (other s)

other-other : (s : Side) → other (other s) ≡ s
other-other Side.seller = refl
other-other Side.buyer = refl

flips-suc : (n : ℕ) (s : Side) → flips (suc n) s ≡ other (flips n s)
unfolding flips
flips-suc zero s = refl
flips-suc (suc n) s = flips-suc n (other s)

side_at-suc : (n : ℕ) → side_at (suc n) ≡ other (side_at n)
side_at-suc n = ground arith

side_at-flips : (n : ℕ) → side_at n ≡ flips n Side.seller
unfolding flips
side_at-flips zero = refl
side_at-flips (suc n) = side_at-suc n ∙ ap other (side_at-flips n) ∙ sym (flips-suc n Side.seller)

Alternates-snoc :
    (s : Side) (l : List Turn) (t : Turn)
    → Alternates s l
    → t.side ≡ flips (length l) s
    → Alternates s (l ++ t ∷ [])
unfolding flips
Alternates-snoc s [] t h e = (e, tt)
Alternates-snoc s (u ∷ l) t h e = (h.0, Alternates-snoc (other s) l t h.1 e)

last?-snoc : (l : List Turn) (t : Turn) → last? (l ++ t ∷ []) ≡ some t
last?-snoc [] t = refl
last?-snoc (u ∷ []) t = refl
last?-snoc (u ∷ v ∷ l) t = last?-snoc (v ∷ l) t

module _ (cfg : NegotiationConfig) where
  close_accept-IsHonest :
      (o : Option AuditTerms) (l : List Turn)
      → ((terms : AuditTerms) → o ≡ some terms → Accepted terms l)
      → IsHonest cfg (close_accept cfg o) l
  unfolding close_accept
  close_accept-IsHonest none l k = tt
  close_accept-IsHonest (some table) l k =
      clear (seller_may_settle table cfg.seller_guard) (buyer_may_settle table cfg.buyer_guard) refl
        refl
    where
      clear :
          (s b : GuardVerdict)
          → seller_may_settle table cfg.seller_guard ≡ s
          → buyer_may_settle table cfg.buyer_guard ≡ b
          → IsHonest cfg (both_clear table s b) l
      clear GuardVerdict.ok GuardVerdict.ok p q = (p, q, k table refl)
      clear GuardVerdict.ok (GuardVerdict.refused r) p q = tt
      clear (GuardVerdict.refused r) GuardVerdict.ok p q = tt
      clear (GuardVerdict.refused r) (GuardVerdict.refused r') p q = tt

  -- the loop's state after `turn` turns
  record Fits (turn : ℕ) (l : List Turn) : Type 0 where
    counted : length l ≡ turn
    alternates : Alternates Side.seller l
    in_guard : All (InGuard cfg) l

  Fits-snoc :
      (turn : ℕ) (l : List Turn) (move : NegotiationMove)
      → guard_emitted_move move (side_at turn) cfg ≡ GuardVerdict.ok
      → Fits turn l
      → Fits (turn + 1) (l ++ record { side = side_at turn; move = move } ∷ [])
  Fits-snoc turn l move g f = record {
    counted =
        omega (
          arith,
          length-append {0} l (record { side = side_at turn; move = move } ∷ []),
          f.counted,
        );
    alternates =
        Alternates-snoc Side.seller l _ f.alternates
          (subst (λ n. side_at turn ≡ flips n Side.seller) (sym f.counted) (side_at-flips turn));
    in_guard = All-append (InGuard cfg) l _ f.in_guard (g, tt);
  }

  -- what a round may end in
  abbrev StepOk : ℕ → ℕ → Step → Type 0
  StepOk limit turn (stop r) = IsProper cfg limit r
  StepOk limit turn (go l) = Fits (turn + 1) l

  emit-StepOk :
      (limit turn : ℕ) (l : List Turn) (o : Option NegotiationMove)
      → turn < limit
      → Fits turn l
      → StepOk limit turn (emit cfg (side_at turn) turn l o)
  unfolding emit close_move guard_emitted_move
  emit-StepOk limit turn l none lt f = record {
    turns = sym f.counted;
    bounded = omega (arith, lt);
    alternates = f.alternates;
    in_guard = f.in_guard;
    honest = tt;
  }
  emit-StepOk limit turn l (some move) lt f =
      verdict (guard_emitted_move move (side_at turn) cfg) refl
    where
      ended : NegotiationMove → Close → NegotiationResult
      ended m c = finish c (l ++ record { side = side_at turn; move = m } ∷ []) (turn + 1)

      closes :
          (c : Close) (m : NegotiationMove)
          → guard_emitted_move m (side_at turn) cfg ≡ GuardVerdict.ok
          → IsHonest cfg c (l ++ record { side = side_at turn; move = m } ∷ [])
          → IsProper cfg limit (ended m c)
      closes c m e h =
          let next = Fits-snoc turn l m e f in
          record {
            turns = sym next.counted;
            bounded = omega (arith, lt);
            alternates = next.alternates;
            in_guard = next.in_guard;
            honest = h;
          }

      passes :
          (m : NegotiationMove)
          → guard_emitted_move m (side_at turn) cfg ≡ GuardVerdict.ok
          → StepOk limit turn
              (elim (close_move cfg
                (side_at turn)
                (l ++ record { side = side_at turn; move = m } ∷ [])
                m) [
                  | some c ↦ stop (ended m c)
                  | none ↦ go (l ++ record { side = side_at turn; move = m } ∷ [])
                ])
      passes (offer terms) e = Fits-snoc turn l (offer terms) e f
      passes (counter terms) e = Fits-snoc turn l (counter terms) e f
      passes (accept own) e = closes _ (accept own) e (
          close_accept-IsHonest _ _ (λ terms q.
            (record { side = side_at turn; move = accept own }, own, last?-snoc l _, refl, q)))
      passes reject e = closes (walked rejected) reject e tt

      verdict :
          (v : GuardVerdict)
          → guard_emitted_move move (side_at turn) cfg ≡ v
          → StepOk limit turn (elim v [
            | GuardVerdict.refused r ↦ stop (ended reject (walked (out_of_guard r)))
            | GuardVerdict.ok ↦
                elim (close_move cfg
                  (side_at turn)
                  (l ++ record { side = side_at turn; move = move } ∷ [])
                  move) [
                    | some c ↦ stop (ended move c)
                    | none ↦ go (l ++ record { side = side_at turn; move = move } ∷ [])
                  ]
          ])
      verdict (GuardVerdict.refused r) e = closes (walked (out_of_guard r)) reject refl tt
      verdict GuardVerdict.ok e = passes move e

module _ (sell buy : Policy) (cfg : NegotiationConfig) where
  run_from-IsProper :
      (left turn : ℕ) (rounds : Rounds) (l : List Turn)
      → left + turn ≡ turn_limit sell buy cfg
      → Fits cfg turn l
      → IsProper cfg (turn_limit sell buy cfg) (run_from sell buy cfg left turn rounds l)
  unfolding run_from take_turn
  run_from-IsProper zero turn rounds l e f = record {
    turns = omega (arith, e, f.counted);
    bounded = omega arith;
    alternates = f.alternates;
    in_guard = f.in_guard;
    honest = tt;
  }
  run_from-IsProper (suc left) turn rounds l e f =
      next (take_turn sell buy cfg turn rounds l) taken (λ longer h.
        run_from-IsProper left (turn + 1) (count_round (side_at turn) rounds) longer
          (omega (arith, e)) h)
    where
      taken : StepOk cfg (turn_limit sell buy cfg) turn (take_turn sell buy cfg turn rounds l)
      taken = emit-StepOk cfg (turn_limit sell buy cfg) turn l _ (omega (arith, e)) f

      next :
          (s : Step)
          → StepOk cfg (turn_limit sell buy cfg) turn s
          → ((longer : List Turn)
              → Fits cfg (turn + 1) longer
              → IsProper cfg (turn_limit sell buy cfg) (
                  run_from sell buy cfg left (turn + 1) (count_round (side_at turn) rounds) longer))
          → IsProper cfg (turn_limit sell buy cfg) (elim s [
            | stop result ↦ result
            | go longer ↦
                run_from sell buy cfg left (turn + 1) (count_round (side_at turn) rounds) longer
          ])
      next (stop result) h on = h
      next (go longer) h on = on longer h

  -- Whatever the two policies do, a run's `turns` is the length of its transcript and at most
  -- `max 2 maxTurns`; the sides alternate from the seller; every recorded move is within the
  -- guard of its own side; and an agreement clears both guards, on the terms that the other side
  -- last put on the table, which the last turn accepts.
  pub run_negotiation-IsProper :
      IsProper cfg (turn_limit sell buy cfg) (run_negotiation sell buy cfg)
  unfolding run_negotiation
  run_negotiation-IsProper =
      run_from-IsProper (turn_limit sell buy cfg) 0 _ [] (omega arith)
        (record { counted = refl; alternates = tt; in_guard = tt })
