-- ===== src/Treasury/Approval/Accounts.antt =====
-- Looking an account up by its id, as roster/treasury-ops/approval.ts does through a Map.
use dacs_agent_reference.Common.{
  String, some, List, [], ◌∷◌, ◌≡◌, ◌≢◌, inl, inr, arith, All, Some, All-map, str_eq, str_eq_iff,
  Bool-cases, Option-cases,
}
use dacs_agent_reference.Treasury.Types.{TreasuryAccount}
use dacs_agent_reference.Treasury.Approval.{by_id}

-- No two accounts share an id.
abbrev pub Distinct : List TreasuryAccount → Type 0
Distinct [] = Unit
Distinct (a ∷ rest) = All (λ b. b.id ≢ a.id) rest × Distinct rest

pub by_id-Some :
    (l : List TreasuryAccount) (id : String) (a : TreasuryAccount) (P : TreasuryAccount → Type 0)
    → by_id l id ≡ some a
    → (a.id ≡ id → P a)
    → Some P l
unfolding by_id
by_id-Some [] id a P h k = cc
by_id-Some (b ∷ rest) id a P h k = elim (Option-cases (by_id rest id)) [
  | inr (d, e) ↦ inr (by_id-Some rest id a P (ground arith) k)
  | inl e ↦ elim (Bool-cases (str_eq b.id id)) [
    | inl same ↦
        let it : b ≡ a = ground arith in inl (rw it (k (rw it at ((str_eq_iff b.id id).0 same))))
    | inr other ↦ absurd (ground arith)
  ]
]

pub by_id-All :
    (P : TreasuryAccount → Type 0) (l : List TreasuryAccount) (id : String) (a : TreasuryAccount)
    → All P l
    → by_id l id ≡ some a
    → P a × (a.id ≡ id)
unfolding by_id
by_id-All P [] id a h e = cc
by_id-All P (b ∷ rest) id a h e = elim (Option-cases (by_id rest id)) [
  | inr (d, f) ↦ by_id-All P rest id a h.1 (ground arith)
  | inl f ↦ elim (Bool-cases (str_eq b.id id)) [
    | inl same ↦
        let it : b ≡ a = ground arith in (rw it at h.0, rw it at ((str_eq_iff b.id id).0 same))
    | inr other ↦ absurd (ground arith)
  ]
]

-- Where the ids are distinct, an account of the id that is looked up is the one found.
pub by_id-Distinct :
    (l : List TreasuryAccount) (id : String) (a : TreasuryAccount)
    → Distinct l
    → by_id l id ≡ some a
    → All (λ b. b.id ≡ id → b ≡ a) l
unfolding by_id
by_id-Distinct [] id a h e = tt
by_id-Distinct (b ∷ rest) id a h e = elim (Option-cases (by_id rest id)) [
  | inr (d, f) ↦
      let found : by_id rest id ≡ some a = ground arith in
      let (ne, same) = by_id-All _ rest id a h.0 found in
      ((λ (i : b.id ≡ id). absurd (ne (cc))), by_id-Distinct rest id a h.1 found)
  | inl f ↦ elim (Bool-cases (str_eq b.id id)) [
    | inl same ↦
        let it : b ≡ a = ground arith in
        let here = (str_eq_iff b.id id).0 same in
        ((λ _. it), All-map (λ x ne i. absurd (ne (cc))) rest h.0)
    | inr other ↦ absurd (ground arith)
  ]
]
