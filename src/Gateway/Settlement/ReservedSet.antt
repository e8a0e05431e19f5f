-- ===== src/Gateway/Settlement/ReservedSet.antt =====
-- The set of reserved hashes of roster/gateway/settlement.ts under its operations.
use dacs_agent_reference.Common.{
  ℕ, ◌+◌, ◌≤◌, String, Bool, true, false, [], ◌∷◌, ◌≡◌, refl, if◌then◌else◌, str_eq, str_eq_iff,
  str_eq_refl, arith,
}
use dacs_agent_reference.Gateway.Settlement.{Reserved, has, delete, add}

has-cons : (h : String) (s : Reserved) → has h (h ∷ s) ≡ true
unfolding has
has-cons h s = rw (str_eq_refl h) refl

pub has-add : (h : String) (s : Reserved) → has h (add h s) ≡ true
unfolding add
has-add h s = added (has h s) refl
  where
    added : (b : Bool) → has h s ≡ b → has h (if b then s else h ∷ s) ≡ true
    added true e = e
    added false e = has-cons h s

abbrev pub count : Bool → ℕ
count true = 1
count false = 0

pub has-add_le : (h k : String) (s : Reserved) → count (has h s) ≤ count (has h (add k s))
unfolding has add
has-add_le h k s = ground arith

pub has-delete :
    (h k : String) (s : Reserved)
    → count (has h s) ≤ count (str_eq k h) + count (has h (delete k s))
unfolding has delete
has-delete h k [] = omega arith
has-delete h k (j ∷ rest) =
    let ih = has-delete h k rest in
    let same = str_eq_iff k j in
    let other = str_eq_iff h j in let back = str_eq_iff k h in ground arith
