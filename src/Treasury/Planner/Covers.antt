-- ===== src/Treasury/Planner/Covers.antt =====
-- The gate's simulated balances against the planner's: never below, through every payment.
use mathlib.Core.Path.{subst}
use dacs_agent_reference.Common.{
  String, Bool, Option, none, some, List, [], ◌∷◌, ◌≡◌, refl, inl, inr, arith, All, All-map,
  All-find, Some, find, str_eq, str_eq_iff, str-cases, update, Bool-cases, Option-cases,
}
use dacs_agent_reference.Common.Int.{ℤ, pos, ◌+ℤ◌, ◌≤ℤ◌, ◌<ℤ◌, int_laws}
use dacs_agent_reference.Treasury.Types.{TreasuryAccount, TreasuryPolicy, IntentDest}
use dacs_agent_reference.Treasury.Approval.{Working, is_at, credit, by_id}
use dacs_agent_reference.Treasury.Approval.Accounts.{Distinct}
use dacs_agent_reference.Treasury.Approval.Floors.{credit-none, credit-some}

-- The gate holds a balance, and it is at least the planner's.
abbrev pub Covers : Option ℤ → ℤ → Type 0
Covers none v = ⊥
Covers (some b) v = v ≤ℤ b

pub Covers-some : (o : Option ℤ) (v : ℤ) → Covers o v → (b : ℤ) × (o ≡ some b) × (v ≤ℤ b)
Covers-some none v h = absurd h
Covers-some (some b) v h = (b, refl, h)

-- The place of an account, as the destination of a transfer.
abbrev pub SamePlace : TreasuryAccount → TreasuryAccount → Type 0
SamePlace a b = (b.address ≡ a.address) × (b.chain ≡ a.chain)

-- No two accounts share an address on one chain.
abbrev pub DistinctPlaces : List TreasuryAccount → Type 0
DistinctPlaces [] = Unit
DistinctPlaces (a ∷ rest) = All (λ b. ¬ (SamePlace a b)) rest × DistinctPlaces rest

abbrev pub IsIn : List TreasuryAccount → TreasuryAccount → Type 0
IsIn l a = Some (λ b. b ≡ a) l

pub All-IsIn :
    (P : TreasuryAccount → Type 0) (l : List TreasuryAccount) (a : TreasuryAccount)
    → All P l
    → IsIn l a
    → P a
All-IsIn P [] a h m = absurd m
All-IsIn P (b ∷ l) a h (inl e) = subst P e h.0
All-IsIn P (b ∷ l) a h (inr m) = All-IsIn P l a h.1 m

pub find-IsIn :
    (p : TreasuryAccount → Bool) (l : List TreasuryAccount) (a : TreasuryAccount)
    → find p l ≡ some a
    → IsIn l a
find-IsIn p [] a h = cc
find-IsIn p (b ∷ l) a h = elim (Bool-cases (p b)) [
  | inl t ↦ inl (ground arith)
  | inr f ↦ inr (find-IsIn p l a (ground arith))
]

by_id-none :
    (l : List TreasuryAccount) (id : String) → All (λ b. b.id ≡ id → ⊥) l → by_id l id ≡ none
unfolding by_id
by_id-none [] id h = refl
by_id-none (b ∷ l) id h = elim (str-cases b.id id) [
  | inl (t, e) ↦ absurd (h.0 e)
  | inr (f, ne) ↦ rw (by_id-none l id h.1) (rw f refl)
]

-- With distinct ids a lookup by an account's id finds that account.
pub by_id-IsIn :
    (l : List TreasuryAccount) (a : TreasuryAccount) → Distinct l → IsIn l a → by_id l a.id ≡ some a
unfolding by_id
by_id-IsIn [] a d m = absurd m
by_id-IsIn (b ∷ l) a d (inr m) = rw (by_id-IsIn l a d.1 m) refl
by_id-IsIn (b ∷ l) a d (inl e) =
    let missing = by_id-none l b.id d.0 in
    subst (λ x. by_id (b ∷ l) x.id ≡ some x) e
      (rw missing (rw ((str_eq_iff b.id b.id).1 refl) refl))

abbrev pub place : TreasuryAccount → IntentDest
place a = record { address = a.address; chain = a.chain; label = a.label }

-- With distinct places the account at an account's place is that account.
pub find-place :
    (l : List TreasuryAccount) (a : TreasuryAccount)
    → DistinctPlaces l
    → IsIn l a
    → find (is_at (place a)) l ≡ some a
find-place [] a d m = absurd m
find-place (b ∷ l) a d (inl e) =
    subst (λ x. find (is_at (place x)) (b ∷ l) ≡ some x) e
      (ground (arith, (str_eq_iff b.address b.address).1 refl, (str_eq_iff b.chain b.chain).1 refl))
find-place (b ∷ l) a d (inr m) =
    let other = All-IsIn (λ x. ¬ (SamePlace b x)) l a d.0 m in
    let later = find-place l a d.1 m in
    ground (arith, str_eq_iff b.address a.address, str_eq_iff b.chain a.chain, other, later)

module _ (policy : TreasuryPolicy) where
  abbrev pub CoversAll : Working → (String → ℤ) → Type 0
  CoversAll w v = All (λ a. Covers (w a.id) (v a.id)) policy.accounts

  pub CoversAll-update :
      (w : Working) (v : String → ℤ) (id : String) (b u : ℤ)
      → u ≤ℤ b
      → CoversAll w v
      → CoversAll (update w id (some b)) (update v id u)
  CoversAll-update w v id b u le h =
      All-map {P = λ a. Covers (w a.id) (v a.id)}
        (λ a k. elim (Bool-cases (str_eq id a.id)) [ inl t ↦ rw t le | inr f ↦ rw f k ])
        policy.accounts h

  -- A credit that the planner does not book.
  pub CoversAll-credit :
      (w : Working) (v : String → ℤ) (to : IntentDest) (amount : ℤ)
      → pos 0 <ℤ amount
      → CoversAll w v
      → CoversAll (credit policy w to amount) v
  CoversAll-credit w v to amount p h = elim (Option-cases (find (is_at to) policy.accounts)) [
    | inl e ↦ rw (credit-none policy w to amount e) h
    | inr (d, e) ↦
        let held = All-find (λ a. Covers (w a.id) (v a.id)) (is_at to) policy.accounts h e in
        let (b, eq, le) = Covers-some (w d.id) (v d.id) held in
        rw (credit-some policy w to amount b d e eq) (
          All-map {P = λ a. Covers (w a.id) (v a.id)}
            (λ a k. elim (str-cases d.id a.id) [
              | inl (t, same) ↦
                  rw t (let up : v a.id ≤ℤ b = subst (λ i. v i ≤ℤ b) same le in omega int_laws)
              | inr (f, _) ↦ rw f k
            ])
            policy.accounts h)
  ]

  -- A credit that both book, on the account at the destination.
  pub CoversAll-receive :
      (w : Working) (v : String → ℤ) (to : IntentDest) (amount : ℤ) (d : TreasuryAccount)
      → find (is_at to) policy.accounts ≡ some d
      → CoversAll w v
      → CoversAll (credit policy w to amount) (update v d.id (v d.id +ℤ amount))
  CoversAll-receive w v to amount d e h =
      let held = All-find (λ a. Covers (w a.id) (v a.id)) (is_at to) policy.accounts h e in
      let (b, eq, le) = Covers-some (w d.id) (v d.id) held in
      rw (credit-some policy w to amount b d e eq)
        (CoversAll-update w v d.id (b +ℤ amount) (v d.id +ℤ amount) (omega int_laws) h)
