-- ===== src/EvalBot/Ledger/Chain.antt =====
-- The chain of roster/evalbot/ledger.ts: appending keeps it valid, and its last hash fixes all of it.
use mathlib.Core.Path.{subst}
use dacs_agent_reference.Common.{
  ℕ, ◌+◌, String, true, Option, none, List, [], ◌∷◌, ◌++◌, last?, length, ◌≡◌, refl, sym, ◌∙◌,
  str_eq, str_eq_iff, str_eq_refl, and-true, All, All-map, arith,
}
use dacs_agent_reference.EvalBot.Ruling.{EvaluationRuling, Crypto, verify_ruling}
use dacs_agent_reference.EvalBot.Ledger.{
  LedgerEntry, ChainHash, last_seq, last_hash, next_entry, append_ruling, entry_ok, verify_from,
  verify_ledger,
}

-- Two entries whose contents hash alike have the same contents.
abbrev pub IsDistinguished : ChainHash → LedgerEntry → LedgerEntry → Type 0
IsDistinguished chain e f =
    chain.entry_hash e.seq e.prev_hash e.ruling ≡ chain.entry_hash f.seq f.prev_hash f.ruling
    → (e.seq ≡ f.seq) × (e.prev_hash ≡ f.prev_hash) × (e.ruling ≡ f.ruling)

-- The hash meets no collision between the entries of two ledgers.
abbrev pub IsCollisionFree : ChainHash → List LedgerEntry → List LedgerEntry → Type 0
IsCollisionFree chain l m = All (λ e. All (IsDistinguished chain e) m) l

module _ (crypto : Crypto) (chain : ChainHash) where
  -- the facts of an entry that verifies
  record Fits (position : ℕ) (expected_prev : String) (e : LedgerEntry) : Type 0 where
    numbered : e.seq ≡ position
    linked : e.prev_hash ≡ expected_prev
    hashed : e.entry_hash ≡ chain.entry_hash e.seq e.prev_hash e.ruling

  entry_ok-Fits :
      (n : ℕ) (p : String) (e : LedgerEntry) → entry_ok crypto chain n p e ≡ true → Fits n p e
  unfolding entry_ok
  entry_ok-Fits n p e h =
      let parts : (e.seq ≡ n)
          × (str_eq e.prev_hash p ≡ true)
          × (str_eq e.entry_hash (chain.entry_hash e.seq e.prev_hash e.ruling) ≡ true) =
        ground arith in
      record {
        numbered = parts.0;
        linked = (str_eq_iff e.prev_hash p).0 (parts.1);
        hashed = (str_eq_iff e.entry_hash _).0 (parts.2);
      }

  -- the hash at the end of a chain
  abbrev end_hash : String → List LedgerEntry → String
  end_hash p [] = p
  end_hash p (e ∷ rest) = end_hash e.entry_hash rest

  end_hash-last :
      (p : String) (e : LedgerEntry) (l : List LedgerEntry)
      → end_hash p (e ∷ l) ≡ last_hash chain (last? (e ∷ l))
  end_hash-last p e [] = refl
  end_hash-last p e (f ∷ l) = end_hash-last e.entry_hash f l

  end_hash-genesis : (l : List LedgerEntry) → end_hash chain.genesis l ≡ last_hash chain (last? l)
  end_hash-genesis [] = refl
  end_hash-genesis (e ∷ l) = end_hash-last chain.genesis e l

  same_entry :
      (n : ℕ) (p q : String) (e f : LedgerEntry)
      → IsDistinguished chain e f
      → Fits n p e
      → Fits n q f
      → e.entry_hash ≡ f.entry_hash
      → (e ≡ f) × (p ≡ q)
  same_entry n p q e f free a b h =
      let (seqs, prevs, rulings) = free (sym a.hashed ∙ h ∙ b.hashed) in
      (rebuilt e f seqs prevs h rulings, sym a.linked ∙ prevs ∙ b.linked)
    where
      rebuilt :
          (e f : LedgerEntry)
          → e.seq ≡ f.seq
          → e.prev_hash ≡ f.prev_hash
          → e.entry_hash ≡ f.entry_hash
          → e.ruling ≡ f.ruling
          → e ≡ f
      rebuilt e f s p h r =
          λ i. record { seq = s i; prev_hash = p i; entry_hash = h i; ruling = r i }

  verify_from_unique :
      (n : ℕ) (p q : String) (l m : List LedgerEntry)
      → IsCollisionFree chain l m
      → verify_from crypto chain n p l ≡ true
      → verify_from crypto chain n q m ≡ true
      → length l ≡ length m
      → end_hash p l ≡ end_hash q m
      → (l ≡ m) × (p ≡ q)
  unfolding verify_from
  verify_from_unique n p q [] [] free v w k h = (refl, h)
  verify_from_unique n p q [] (f ∷ m) free v w k h = absurd (omega (arith, k))
  verify_from_unique n p q (e ∷ l) [] free v w k h = absurd (omega (arith, k))
  verify_from_unique n p q (e ∷ l) (f ∷ m) free v w k h =
      let lengths : length l ≡ length m = omega (arith, k) in
      let left =
        and-true (entry_ok crypto chain n p e) (verify_from crypto chain (n + 1) e.entry_hash l)
          v in
      let right =
        and-true (entry_ok crypto chain n q f) (verify_from crypto chain (n + 1) f.entry_hash m)
          w in
      let later = All-map {P = λ x. All (IsDistinguished chain x) (f ∷ m)} (λ x a. a.1) l free.1 in
      let rest =
        verify_from_unique (n + 1) e.entry_hash f.entry_hash l m later left.1 right.1 lengths h in
      let heads =
        same_entry n p q e f free.0.0 (entry_ok-Fits n p e left.0) (entry_ok-Fits n q f right.0)
          (rest.1) in
      ((λ i. heads.0 i ∷ rest.0 i), heads.1)

  -- Where the hash meets no collision between the entries of two ledgers, two valid ledgers of one
  -- length and with one last hash are the same ledger.
  pub verify_ledger_unique :
      (l m : List LedgerEntry)
      → IsCollisionFree chain l m
      → verify_ledger crypto chain l ≡ true
      → verify_ledger crypto chain m ≡ true
      → length l ≡ length m
      → last_hash chain (last? l) ≡ last_hash chain (last? m)
      → l ≡ m
  unfolding verify_ledger
  verify_ledger_unique l m free v w k h =
      (verify_from_unique 1 chain.genesis chain.genesis l m free v w k
        (end_hash-genesis l ∙ h ∙ sym (end_hash-genesis m))).0

  verify_from-snoc :
      (n : ℕ) (p : String) (l : List LedgerEntry) (e : LedgerEntry)
      → verify_from crypto chain n p l ≡ true
      → entry_ok crypto chain (n + length l) (end_hash p l) e ≡ true
      → verify_from crypto chain n p (l ++ e ∷ []) ≡ true
  unfolding verify_from
  verify_from-snoc n p [] e v h =
      let same : n + 0 ≡ n = omega arith in
      rw (subst (λ k. entry_ok crypto chain k p e ≡ true) same h) refl
  verify_from-snoc n p (f ∷ l) e v h =
      let parts =
        and-true (entry_ok crypto chain n p f) (verify_from crypto chain (n + 1) f.entry_hash l)
          v in
      let same : n + length (f ∷ l) ≡ n + 1 + length l = omega arith in
      let later =
        verify_from-snoc (n + 1) f.entry_hash l e parts.1
          (subst (λ k. entry_ok crypto chain k (end_hash f.entry_hash l) e ≡ true) same h) in
      rw (parts.0, later) refl

  -- the numbers of a valid ledger end at its length
  verify_from-last_seq :
      (n : ℕ) (p : String) (e : LedgerEntry) (l : List LedgerEntry)
      → verify_from crypto chain n p (e ∷ l) ≡ true
      → last_seq (last? (e ∷ l)) + 1 ≡ n + length (e ∷ l)
  unfolding verify_from
  verify_from-last_seq n p e [] v =
      let first = entry_ok-Fits n p e (and-true _ _ v).0 in omega (arith, first.numbered)
  verify_from-last_seq n p e (f ∷ l) v =
      omega (arith, verify_from-last_seq (n + 1) e.entry_hash f l (and-true _ _ v).1)

  verify_ledger-last_seq :
      (l : List LedgerEntry)
      → verify_ledger crypto chain l ≡ true
      → last_seq (last? l) + 1 ≡ 1 + length l
  unfolding verify_ledger
  verify_ledger-last_seq [] v = omega arith
  verify_ledger-last_seq (e ∷ l) v = verify_from-last_seq 1 chain.genesis e l v

  next_entry-ok :
      (n : ℕ) (p : String) (o : Option LedgerEntry) (ruling : EvaluationRuling)
      → last_seq o + 1 ≡ n
      → p ≡ last_hash chain o
      → verify_ruling crypto ruling ruling.unsigned.evaluator_public_key none ≡ true
      → entry_ok crypto chain n p (next_entry chain o ruling) ≡ true
  unfolding entry_ok
  next_entry-ok n p o ruling k h w =
      let own = (str_eq_iff (last_hash chain o) p).1 (sym h) in
      let hashed = str_eq_refl (chain.entry_hash (last_seq o + 1) (last_hash chain o) ruling) in
      ground arith

  -- Appending a ruling that verifies by the key that it names keeps a valid ledger valid.
  pub append_ruling-verify_ledger :
      (l : List LedgerEntry) (ruling : EvaluationRuling)
      → verify_ledger crypto chain l ≡ true
      → verify_ruling crypto ruling ruling.unsigned.evaluator_public_key none ≡ true
      → verify_ledger crypto chain (append_ruling chain l ruling) ≡ true
  unfolding verify_ledger append_ruling
  append_ruling-verify_ledger l ruling v w = verify_from-snoc 1 chain.genesis l _ v (
      next_entry-ok (1 + length l) _ (last? l) ruling (verify_ledger-last_seq l v)
        (end_hash-genesis l) w)
