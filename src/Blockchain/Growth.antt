-- ===== src/Blockchain/Growth.antt =====
-- How the chain grows: what every operation on it keeps, whatever the operation does.
use mathlib.Core.Path.{subst}
use final.Base.{
  ◌≡◌, refl, ap, sym, ◌∙◌, some, ok, Bool-cases, inl, inr, ok-injective, some_inj, arith, >>=-eq-ok,
  ◌==◌, ==_eq,
}
use final.Base.HashMap.{get, insert as put, get-insert, get-insert_self}
use final.Base.Entries.{IsMap, insert-IsMap}
use final.Data.{H256, h256_key, State, Block}
use final.External.{External}
use final.Block.{hash}
use final.Blockchain.{Blockchain, insert, relength}

-- The chain holds a block, or a state, under a hash.
abbrev pub Stores : Blockchain → H256 → Type 0
Stores c h = (b : Block) × (get c.blocks h ≡ some b)

abbrev pub Knows : Blockchain → H256 → Type 0
Knows c h = (s : State) × (get c.block_states h ≡ some s)

-- Every stored block has its state, so the lookup of a parent's state does not panic.
abbrev pub HasStates : Blockchain → Type 0
HasStates c = (h : H256) (b : Block) → get c.blocks h ≡ some b → Knows c h

-- Every block stands under its hash.
abbrev pub IsKeyed : External → Blockchain → Type 0
IsKeyed x c = (h : H256) (b : Block) → get c.blocks h ≡ some b → hash x b ≡ h

-- Nothing is lost from `c` to `c'`, and the invariants are kept.
pub record Extends (x : External) (c c' : Blockchain) : Type 0 where
  pub states : HasStates c → HasStates c'
  pub keyed : IsKeyed x c → IsKeyed x c'
  pub distinct : IsMap c.blocks → IsMap c'.blocks
  pub stores : (h : H256) → Stores c h → Stores c' h
  pub knows : (h : H256) → Knows c h → Knows c' h

-- The chain with one more state, and with one more block.
abbrev pub with_state : Blockchain → H256 → State → Blockchain
with_state c k s = record c { block_states = put c.block_states k s }

abbrev pub with_block : Blockchain → H256 → Block → Blockchain
with_block c k b = record c { blocks = put c.blocks k b }

with_state-Knows :
    (c : Blockchain) (k : H256) (s : State) (h : H256) → Knows c h → Knows (with_state c k s) h
with_state-Knows c k s h (old, e) =
    let law = get-insert c.block_states k h s in
    elim (Bool-cases (k == h)) [
      | inl same ↦ (s, law ∙ rw same refl)
      | inr other ↦ (old, (rw other at law) ∙ e)
    ]

with_block-Stores :
    (c : Blockchain) (k : H256) (b : Block) (h : H256) → Stores c h → Stores (with_block c k b) h
with_block-Stores c k b h (old, e) =
    let law = get-insert c.blocks k h b in
    elim (Bool-cases (k == h)) [
      | inl same ↦ (b, law ∙ rw same refl)
      | inr other ↦ (old, (rw other at law) ∙ e)
    ]

-- What stands under a hash after an insertion is the new block or what was there.
with_block-HasStates :
    (c : Blockchain) (k : H256) (b : Block) → Knows c k → HasStates c → HasStates (with_block c k b)
with_block-HasStates c k b known has h g e =
    let law = get-insert c.blocks k h b in
    elim (Bool-cases (k == h)) [
      | inl same ↦ subst (Knows c) (==_eq k h same) known
      | inr other ↦ has h g (sym (rw other at law) ∙ e)
    ]

with_block-IsKeyed :
    (x : External) (c : Blockchain) (k : H256) (b : Block)
    → hash x b ≡ k
    → IsKeyed x c
    → IsKeyed x (with_block c k b)
with_block-IsKeyed x c k b at_k keyed h g e =
    let law = get-insert c.blocks k h b in
    elim (Bool-cases (k == h)) [
      | inl same ↦
          let new : b ≡ g = some_inj (sym (rw same at law) ∙ e) in
          ap (hash x) (sym new) ∙ at_k ∙ ==_eq k h same
      | inr other ↦ keyed h g (sym (rw other at law) ∙ e)
    ]

module _ (x : External) where
  pub Extends-refl : (c : Blockchain) → Extends x c c
  Extends-refl c = record {
    states = λ h. h;
    keyed = λ h. h;
    distinct = λ h. h;
    stores = λ h s. s;
    knows = λ h k. k;
  }

  pub Extends-trans : (a b c : Blockchain) → Extends x a b → Extends x b c → Extends x a c
  Extends-trans a b c p q = record {
    states = λ h. q.states (p.states h);
    keyed = λ h. q.keyed (p.keyed h);
    distinct = λ h. q.distinct (p.distinct h);
    stores = λ h s. q.stores h (p.stores h s);
    knows = λ h k. q.knows h (p.knows h k);
  }

  pub Extends-eq : (a b : Blockchain) → a ≡ b → Extends x a b
  Extends-eq a b e = subst (Extends x a) e (Extends-refl a)

  pub with_state-Extends : (c : Blockchain) (k : H256) (s : State) → Extends x c (with_state c k s)
  with_state-Extends c k s = record {
    states = λ has h b e. with_state-Knows c k s h (has h b e);
    keyed = λ keyed. keyed;
    distinct = λ distinct. distinct;
    stores = λ h b. b;
    knows = with_state-Knows c k s;
  }

  pub with_state-Knows_self : (c : Blockchain) (k : H256) (s : State) → Knows (with_state c k s) k
  with_state-Knows_self c k s = (s, get-insert_self c.block_states k s)

  -- A block whose state is known, under its hash.
  pub with_block-Extends :
      (c : Blockchain) (k : H256) (b : Block)
      → Knows c k
      → hash x b ≡ k
      → Extends x c (with_block c k b)
  with_block-Extends c k b known at_k = record {
    states = with_block-HasStates c k b known;
    keyed = with_block-IsKeyed x c k b at_k;
    distinct = insert-IsMap c.blocks k b;
    stores = with_block-Stores c k b;
    knows = λ h s. s;
  }

  pub relength-hash : (c : Blockchain) (b b' : Block) → relength c b ≡ ok b' → hash x b' ≡ hash x b
  unfolding relength hash
  relength-hash c b b' e = ground arith

  -- `insert`, once the state of the block is stored.
  pub insert-Extends :
      (c c' : Blockchain) (b : Block) → Knows c (hash x b) → insert x c b ≡ ok c' → Extends x c c'
  unfolding insert
  insert-Extends c c' b known e =
      let (b', sized, end) = >>=-eq-ok (relength c b) _ e in
      subst (Extends x c) (ok-injective end)
        (with_block-Extends c (hash x b) b' known (relength-hash c b b' sized))
