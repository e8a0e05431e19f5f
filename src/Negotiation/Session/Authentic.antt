-- ===== src/Negotiation/Session/Authentic.antt =====
-- What one side of roster/negotiation-l2ps/session.ts lets happen, whatever the other side and the channel
-- do.
use mathlib.Core.Path.{subst}
use dacs_agent_reference.Common.{
  ℕ, zero, suc, ◌+◌, ◌%◌, ◌≤◌, true, false, Option, none, some, List, [], ◌∷◌, ◌++◌, ◌≡◌, ◌≢◌, refl,
  inl, inr, ◌⊎◌, arith, length, length-append, Bool-cases, Option-cases, ◌==◌, if◌then◌else◌,
}
use dacs_agent_reference.Negotiation.Terms.{
  AuditTerms, NegotiationMove, offer, counter, accept, reject, GuardVerdict,
}
use dacs_agent_reference.Negotiation.Harness.{Side, Turn, other, on_table_from, side_at}
use dacs_agent_reference.Negotiation.Wire.{
  ChannelEnvelope, Sdk, seal_envelope, open_envelope, decode_move,
}
use dacs_agent_reference.Negotiation.Session.{
  SideConfig, SideClose, agreed, walked, threw, NetworkedResult, SideLog, SideStep, stop, go, push,
  parity, unless_refused, settle_table, may_accept, own_move, after_move, send_move, receive_move,
  receive, side_turns, is_my_turn, side_step, side_from, run_side,
}

SideStep-cases :
    (x : SideStep)
    → ((r : NetworkedResult) × (x ≡ stop r))
      ⊎ ((log : SideLog) × ((inbox : List (Option ChannelEnvelope)) × (x ≡ go log inbox)))
SideStep-cases (stop r) = inl (r, refl)
SideStep-cases (go log inbox) = inr (log, (inbox, refl))

other-ne : (s : Side) → other s ≢ s
other-ne Side.seller h = ground arith
other-ne Side.buyer h = ground arith

-- whose turn it is
turn_of : (s : Side) (n : ℕ) → (n % 2 == parity s) ≡ true → s ≡ side_at n
turn_of Side.seller n h = ground arith
turn_of Side.buyer n h = ground arith

turn_of_other : (s : Side) (n : ℕ) → (n % 2 == parity s) ≡ false → other s ≡ side_at n
turn_of_other Side.seller n h = ground arith
turn_of_other Side.buyer n h = ground arith

module _ (sdk : Sdk) (cfg : SideConfig) where
  -- Terms that a move puts on the table clear this side's guard.
  abbrev pub ClearsGuard : NegotiationMove → Type 0
  ClearsGuard (offer terms) = cfg.may_settle terms ≡ GuardVerdict.ok
  ClearsGuard (counter terms) = cfg.may_settle terms ≡ GuardVerdict.ok
  ClearsGuard (accept terms) = Unit
  ClearsGuard reject = Unit

  -- The move came in an envelope for this channel, from the peer, signed, with the sequence number
  -- of turn `n`.
  abbrev pub IsVouched : ℕ → NegotiationMove → Type 0
  IsVouched n move =
      (env : ChannelEnvelope) × ((open_envelope sdk cfg.signer env cfg.channel_id (n + 1)
            cfg.peer_sender_id
          ≡ true)
        × (decode_move sdk env.unsigned.body ≡ some move))

  -- Turn `n`: an own one is within the guard, and one of the peer is vouched for.
  abbrev pub IsTurn : ℕ → Turn → Type 0
  IsTurn n t =
      (t.side ≡ side_at n)
      × (t.side ≡ cfg.role → ClearsGuard t.move)
      × (t.side ≢ cfg.role → IsVouched n t.move)

  abbrev pub AreTurns : ℕ → List Turn → Type 0
  AreTurns n [] = Unit
  AreTurns n (t ∷ ts) = IsTurn n t × AreTurns (suc n) ts

  AreTurns-append :
      (n m : ℕ) (ts : List Turn) (t : Turn)
      → m ≡ length ts + n
      → AreTurns n ts
      → IsTurn m t
      → AreTurns n (ts ++ t ∷ [])
  AreTurns-append n m [] t e h k = (subst (λ i. IsTurn i t) (omega arith) k, tt)
  AreTurns-append n m (s ∷ ts) t e h k = (h.0, AreTurns-append (suc n) m ts t (omega arith) h.1 k)

  -- An agreement is on terms that a side put on the table last, and they clear this side's guard.
  abbrev pub IsSettled : List Turn → SideClose → Type 0
  IsSettled transcript (agreed terms) =
      (cfg.may_settle terms ≡ GuardVerdict.ok)
      × ((side : Side) × (on_table_from transcript side ≡ some terms))
  IsSettled transcript walked = Unit
  IsSettled transcript threw = Unit

  -- What holds of a transcript of at most `k` turns.
  IsGoodLog : ℕ → SideLog → Type 0
  IsGoodLog k log = AreTurns 0 log.transcript × (length log.transcript ≤ k)

  abbrev IsGoodStep : ℕ → SideStep → Type 0
  IsGoodStep k (stop r) =
      AreTurns 0 r.transcript × (length r.transcript ≤ k) × IsSettled r.transcript r.outcome
  IsGoodStep k (go log inbox) = IsGoodLog k log

  settle_table-IsSettled :
      (transcript : List Turn) (side : Side) (o : Option AuditTerms)
      → on_table_from transcript side ≡ o
      → IsSettled transcript (settle_table sdk cfg o)
  settle_table-IsSettled transcript side none h = tt
  settle_table-IsSettled transcript side (some table) h = verdict (cfg.may_settle table) refl
    where
      verdict :
          (v : GuardVerdict)
          → cfg.may_settle table ≡ v
          → IsSettled transcript (settle_table sdk cfg (some table))
      verdict GuardVerdict.ok e = rw (e, IsSettled) (e, (side, h))
      verdict (GuardVerdict.refused reason) e = rw (e, IsSettled) tt

  after_move-IsGoodStep :
      (k : ℕ) (side : Side) (move : NegotiationMove) (log : SideLog)
      (inbox : List (Option ChannelEnvelope))
      → IsGoodLog k log
      → IsGoodStep k (after_move sdk cfg side move log inbox)
  unfolding after_move IsGoodLog
  after_move-IsGoodStep k side reject log inbox h = (h.0, h.1, tt)
  after_move-IsGoodStep k side (accept terms) log inbox h =
      (h.0, h.1, settle_table-IsSettled log.transcript (other side) _ refl)
  after_move-IsGoodStep k side (offer terms) log inbox h = h
  after_move-IsGoodStep k side (counter terms) log inbox h = h

  unless_refused-ClearsGuard :
      (move : NegotiationMove) (v : GuardVerdict)
      → (v ≡ GuardVerdict.ok → ClearsGuard move)
      → ClearsGuard (unless_refused v move)
  unless_refused-ClearsGuard move GuardVerdict.ok h = h refl
  unless_refused-ClearsGuard move (GuardVerdict.refused reason) h = tt

  own_move-ClearsGuard :
      (transcript : List Turn) (m : Option NegotiationMove)
      → ClearsGuard (own_move sdk cfg transcript m)
  unfolding own_move
  own_move-ClearsGuard transcript none = tt
  own_move-ClearsGuard transcript (some (accept terms)) =
      table (on_table_from transcript (other cfg.role))
    where
      table : (o : Option AuditTerms) → ClearsGuard (may_accept sdk cfg o (accept terms))
      table none = tt
      table (some t) = unless_refused-ClearsGuard (accept terms) (cfg.may_settle t) (λ e. tt)
  own_move-ClearsGuard transcript (some (offer terms)) =
      unless_refused-ClearsGuard (offer terms) (cfg.may_settle terms) (λ e. e)
  own_move-ClearsGuard transcript (some (counter terms)) =
      unless_refused-ClearsGuard (counter terms) (cfg.may_settle terms) (λ e. e)
  own_move-ClearsGuard transcript (some reject) = tt

  push-IsGoodLog :
      (k : ℕ) (log : SideLog) (side : Side) (move : NegotiationMove) (env : ChannelEnvelope)
      → IsGoodLog k log
      → IsTurn (length log.transcript) (record { side = side; move = move })
      → IsGoodLog (suc k) (push log side move env)
  unfolding IsGoodLog
  push-IsGoodLog k log side move env h t = (
    AreTurns-append 0 (length log.transcript) log.transcript (record { side = side; move = move })
        (omega arith) h.0 t,
    omega (arith, h.1, length-append log.transcript (record { side = side; move = move } ∷ [])),
  )

  send_move-IsGoodStep :
      (k : ℕ) (log : SideLog) (move : NegotiationMove) (inbox : List (Option ChannelEnvelope))
      → IsGoodLog k log
      → ClearsGuard move
      → cfg.role ≡ side_at (length log.transcript)
      → IsGoodStep (suc k) (send_move sdk cfg log move inbox)
  unfolding send_move IsGoodLog
  send_move-IsGoodStep k log move inbox h clears mine =
      elim (Option-cases
        (seal_envelope sdk cfg.signer cfg.channel_id (length log.transcript + 1) move)) [
          | inl e ↦ rw (e, send_move) (h.0, omega (arith, h.1), tt)
          | inr (env, e) ↦
              rw (e, send_move)
                (after_move-IsGoodStep (suc k) cfg.role move (push log cfg.role move env) inbox (
                  push-IsGoodLog k log cfg.role move env h
                    (mine, λ s. clears, λ other. absurd (other refl))))
        ]

  receive_move-IsGoodStep :
      (k : ℕ) (log : SideLog) (env : ChannelEnvelope) (inbox : List (Option ChannelEnvelope))
      → IsGoodLog k log
      → other cfg.role ≡ side_at (length log.transcript)
      → IsGoodStep (suc k) (receive_move sdk cfg log env inbox)
  unfolding receive_move IsGoodLog
  receive_move-IsGoodStep k log env inbox h theirs =
      elim (Bool-cases (
        open_envelope sdk cfg.signer env cfg.channel_id (length log.transcript + 1)
          cfg.peer_sender_id)) [
            | inr f ↦ rw (f, receive_move) (h.0, omega (arith, h.1), tt)
            | inl t ↦
                rw (t, receive_move)
                  (elim (Option-cases (decode_move sdk env.unsigned.body)) [
                    | inl e ↦ rw e (h.0, omega (arith, h.1), tt)
                    | inr (move, e) ↦ rw e (
                        after_move-IsGoodStep (suc k) (other cfg.role) move
                          (push log (other cfg.role) move env) inbox
                          (push-IsGoodLog k log (other cfg.role) move env h
                            (theirs, λ s. absurd (other-ne cfg.role s), λ o. (env, (t, e)))))
                  ])
          ]

  receive-IsGoodStep :
      (k : ℕ) (log : SideLog) (inbox : List (Option ChannelEnvelope))
      → IsGoodLog k log
      → other cfg.role ≡ side_at (length log.transcript)
      → IsGoodStep (suc k) (receive sdk cfg log inbox)
  unfolding receive IsGoodLog
  receive-IsGoodStep k log [] h theirs = (h.0, omega (arith, h.1), tt)
  receive-IsGoodStep k log (none ∷ inbox) h theirs = (h.0, omega (arith, h.1), tt)
  receive-IsGoodStep k log (some env ∷ inbox) h theirs =
      receive_move-IsGoodStep k log env inbox h theirs

  side_step-IsGoodStep :
      (k : ℕ) (log : SideLog) (rounds : ℕ) (inbox : List (Option ChannelEnvelope))
      → IsGoodLog k log
      → IsGoodStep (suc k) (side_step sdk cfg log rounds inbox)
  unfolding side_step
  side_step-IsGoodStep k log rounds inbox h = elim (Bool-cases (is_my_turn sdk cfg log)) [
    | inl t ↦
        rw (t, side_step)
          (send_move-IsGoodStep k log _ inbox h (own_move-ClearsGuard log.transcript _)
            (turn_of cfg.role (length log.transcript) t))
    | inr f ↦
        rw (f, side_step)
          (receive-IsGoodStep k log inbox h (turn_of_other cfg.role (length log.transcript) f))
  ]

  side_from-IsGood :
      (left k : ℕ) (log : SideLog) (rounds : ℕ) (inbox : List (Option ChannelEnvelope))
      → IsGoodLog k log
      → IsGoodStep (k + left) (stop (side_from sdk cfg left log rounds inbox))
  unfolding side_from IsGoodLog
  side_from-IsGood zero k log rounds inbox h = (h.0, omega (arith, h.1), tt)
  side_from-IsGood (suc left) k log rounds inbox h =
      let here = side_step-IsGoodStep k log rounds inbox h in
      elim (SideStep-cases (side_step sdk cfg log rounds inbox)) [
        | inl (r, e) ↦
            let (turns, bound, settled) = subst (IsGoodStep (suc k)) e here in
            rw (e, side_from) (turns, omega (arith, bound), settled)
        | inr (longer, (rest, e)) ↦
            let (turns, bound, settled) =
              side_from-IsGood left (suc k) longer
                (if is_my_turn sdk cfg log then rounds + 1 else rounds) rest
                (subst (IsGoodStep (suc k)) e here) in
            rw (e, side_from) (turns, omega (arith, bound), settled)
      ]

  -- What a run of one side ends with.
  pub record IsProperSide (r : NetworkedResult) : Type 0 where
    pub bounded : length r.transcript ≤ side_turns sdk cfg
    pub turns : AreTurns 0 r.transcript
    pub settled : IsSettled r.transcript r.outcome

  -- Whatever the policy does and whatever comes in, a run of one side ends within `maxTurns` turns, 2
  -- at least, that alternate from the seller on; every offer and counter of this side clears its
  -- guard; every move of the peer came in an envelope for the channel whose sequence number is that
  -- of its turn and whose signature verifies for the peer; and an agreement is on terms that a side
  -- put on the table last, and which clear this side's guard.
  pub run_side-IsProperSide :
      (inbox : List (Option ChannelEnvelope)) → IsProperSide (run_side sdk cfg inbox)
  unfolding run_side IsGoodLog
  run_side-IsProperSide inbox =
      let (turns, bound, settled) =
        side_from-IsGood (side_turns sdk cfg) 0 (record { transcript = []; envelopes = [] }) 0 inbox
          (tt, omega arith) in
      record { bounded = omega (arith, bound); turns = turns; settled = settled }
