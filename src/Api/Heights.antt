-- ===== src/Api/Heights.antt =====
-- The items of the longest chain, by the lengths of their blocks.
use native.Mathlib.Omega.{arith}
use final.Base.{
  ℕ, zero, suc, ◌+◌, ◌<◌, ◌≡◌, refl, ap, sym, ◌∙◌, List, [], ◌∷◌, length, get_elem?, some,
  Bool-cases, inl, inr, ltb,
}
use final.Base.HashMap.{get}
use final.Data.{H256, h256_key, Block}
use final.External.{External}
use final.Block.{get_parent}
use final.Blockchain.{Blockchain}
use final.Blockchain.Invariant.{IsLinked}
use final.Blockchain.Chain.{IsDescent}

-- The item at a place, its block, and the length of that.
pub record ItemAt (c : Blockchain) (hs : List H256) (i : ℕ) : Type 0 where
  pub item : H256
  pub block : Block
  pub found : get_elem? hs i ≡ some item
  pub stands : get c.blocks item ≡ some block
  pub height : block.length + i ≡ length hs

module _ (x : External) (c : Blockchain) (inv : IsLinked x c) where
  -- A block whose parent is stored is one longer than it.
  child-length :
      (h : H256) (b p : Block)
      → get c.blocks h ≡ some b
      → get c.blocks (get_parent b) ≡ some p
      → b.length ≡ p.length + 1
  child-length h b p e parent = elim (Bool-cases (ltb 1 b.length)) [
    | inl more ↦
        let (q, stands, one_more) = inv.linked h b e (ground arith) in
        let same : q ≡ p = cc (sym stands ∙ parent) in
        one_more ∙ ap (λ (k : Block). k.length + 1) same
    | inr root ↦ cc (sym (inv.rooted h b e (ground (arith, inv.positive h b e))) ∙ parent)
  ]

  pub descent-ItemAt : (hs : List H256) (i : ℕ) → IsDescent c hs → i < length hs → ItemAt c hs i
  descent-ItemAt [] i d lt = elim d [ ]
  descent-ItemAt (h ∷ []) zero (b, e, one, root) lt = record {
    item = h;
    block = b;
    found = refl;
    stands = e;
    height = omega (arith, one);
  }
  descent-ItemAt (h ∷ []) (suc i) d lt = absurd (omega (arith, lt))
  descent-ItemAt (h ∷ h' ∷ hs) zero ((b, e, named), d) lt =
      let next = descent-ItemAt (h' ∷ hs) zero d (omega arith) in
      let same : h' ≡ next.item = cc next.found in
      let parent = ap (get c.blocks) (named ∙ same) ∙ next.stands in
      record {
        item = h;
        block = b;
        found = refl;
        stands = e;
        height = omega (arith, child-length h b next.block e parent, next.height);
      }
  descent-ItemAt (h ∷ h' ∷ hs) (suc i) (_, d) lt =
      let next = descent-ItemAt (h' ∷ hs) i d (omega (arith, lt)) in
      record {
        item = next.item;
        block = next.block;
        found = next.found;
        stands = next.stands;
        height = omega (arith, next.height);
      }
