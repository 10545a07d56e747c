-- ===== src/Blockchain/Invariant.antt =====
-- The invariant of the chain, and that `new` and `insert` keep it.
use native.Mathlib.Omega.{arith}
use final.Base.{
  ◌+◌, ◌^◌, ◌<◌, ◌≤◌, ◌≡◌, ◌≢◌, ap, sym, ◌∙◌, ◌==◌, Bool-cases, inl, inr, none, some, true, ◌⊎◌,
  some_inj, ok, panic, ltb, ==_eq,
}
use final.Base.HashMap.{get, insert as put, get-insert, get-insert_self, get-insert_ne}
use final.Base.Entries.{IsMap, insert-IsMap}
use final.Data.{H256, h256_key, Block}
use final.External.{External}
use final.Block.{hash, get_parent}
use final.Blockchain.{Blockchain, relength, insert}

-- Every block stands under its hash. A block of length 1 is a root: its parent is not stored. Any
-- other block has a stored parent, and its length is one more.
pub record IsLinked (x : External) (c : Blockchain) : Type 0 where
  pub distinct : IsMap c.blocks
  pub keyed : (h : H256) (b : Block) → get c.blocks h ≡ some b → hash x b ≡ h
  pub positive : (h : H256) (b : Block) → get c.blocks h ≡ some b → 1 ≤ b.length
  pub rooted :
      (h : H256) (b : Block)
      → get c.blocks h ≡ some b
      → b.length ≡ 1
      → get c.blocks (get_parent b) ≡ none
  pub linked :
      (h : H256) (b : Block)
      → get c.blocks h ≡ some b
      → 1 < b.length
      → (p : Block) × (get c.blocks (get_parent b) ≡ some p) × (b.length ≡ p.length + 1)

-- Inserting a child of a stored block.
module _ (x : External) (c : Blockchain) (b p : Block) (inv : IsLinked x c) where
  -- The block as it is stored.
  abbrev stored : Block
  stored = record b { length = p.length + 1 }

  abbrev extended : Blockchain
  extended = record c { blocks = put c.blocks (hash x b) stored }

  relength_child :
      1 < b.length
      → get c.blocks (get_parent b) ≡ some p
      → p.length + 1 < 2 ^ 32
      → relength c b ≡ ok stored
  unfolding relength
  relength_child long parent small =
      let first : ltb 1 b.length ≡ true = ground arith in
      let second : ltb (p.length + 1) (2 ^ 32) ≡ true = ground arith in rw (first, parent, second)

  pub insert_child :
      1 < b.length
      → get c.blocks (get_parent b) ≡ some p
      → p.length + 1 < 2 ^ 32
      → insert x c b ≡ ok extended
  unfolding insert
  insert_child long parent small = rw (relength_child long parent small)

  module _ (long : 1 < b.length) (parent : get c.blocks (get_parent b) ≡ some p)
      (fresh : get c.blocks (hash x b) ≡ none)
      (unnamed : (h : H256) (g : Block)
        → get c.blocks h ≡ some g
        → g.length ≡ 1
        → get_parent g ≢ hash x b) where
    -- What the new map holds: the new block, and what was there.
    Stored : H256 → Block → Type 0
    Stored h g = ((h ≡ hash x b) × (g ≡ stored)) ⊎ (get c.blocks h ≡ some g)

    get-extended : (h : H256) (g : Block) → get extended.blocks h ≡ some g → Stored h g
    unfolding Stored
    get-extended h g e =
        let law = get-insert c.blocks (hash x b) h stored in
        elim (Bool-cases (hash x b == h)) [
          | inl same ↦ inl (sym (==_eq (hash x b) h same), some_inj (sym e ∙ (rw same at law)))
          | inr other ↦ inr (sym (rw other at law) ∙ e)
        ]

    parent-extended : (h : H256) → hash x b ≢ h → get extended.blocks h ≡ get c.blocks h
    parent-extended h ne = get-insert_ne c.blocks (hash x b) h stored ne

    -- No stored block names the new one as its parent, and the new one does not name itself.
    parent_ne : (h : H256) (g : Block) → get c.blocks h ≡ some g → hash x b ≢ get_parent g
    parent_ne h g e same = elim (Bool-cases (ltb 1 g.length)) [
      | inl more ↦
          let (q, stands, _) = inv.linked h g e (ground arith) in
          cc (sym fresh ∙ ap (get c.blocks) same ∙ stands)
      | inr root ↦ unnamed h g e (ground (arith, inv.positive h g e)) (sym same)
    ]

    self_ne : hash x b ≢ get_parent b
    self_ne e = cc (sym fresh ∙ ap (get c.blocks) e ∙ parent)

    extended-linked :
        (h : H256) (g : Block)
        → Stored h g
        → 1 < g.length
        → (q : Block) × (get extended.blocks (get_parent g) ≡ some q) × (g.length ≡ q.length + 1)
    unfolding Stored
    extended-linked h g (inl (_, same)) long' = (
      p,
      ap (λ (k : Block). get extended.blocks (get_parent k)) same
          ∙ parent-extended (get_parent b) self_ne
          ∙ parent,
      ap (λ (k : Block). k.length) same,
    )
    extended-linked h g (inr old) long' =
        let (q, stands, one_more) = inv.linked h g old long' in
        (q, parent-extended (get_parent g) (parent_ne h g old) ∙ stands, one_more)

    extended-rooted :
        (h : H256) (g : Block)
        → Stored h g
        → g.length ≡ 1
        → get extended.blocks (get_parent g) ≡ none
    unfolding Stored
    extended-rooted h g (inl (_, same)) one =
        absurd
          (omega (arith, ap (λ (k : Block). k.length) same, inv.positive (get_parent b) p parent))
    extended-rooted h g (inr old) one =
        parent-extended (get_parent g) (parent_ne h g old) ∙ inv.rooted h g old one

    extended-keyed : (h : H256) (g : Block) → Stored h g → hash x g ≡ h
    unfolding Stored hash
    extended-keyed h g (inl (at_new, same)) = ap (hash x) same ∙ sym at_new
    extended-keyed h g (inr old) = inv.keyed h g old

    extended-positive : (h : H256) (g : Block) → Stored h g → 1 ≤ g.length
    unfolding Stored
    extended-positive h g (inl (_, same)) = omega (arith, ap (λ (k : Block). k.length) same)
    extended-positive h g (inr old) = inv.positive h g old

    pub extended-IsLinked : IsLinked x extended
    extended-IsLinked = record {
      distinct = insert-IsMap c.blocks (hash x b) stored inv.distinct;
      keyed = λ h g e. extended-keyed h g (get-extended h g e);
      positive = λ h g e. extended-positive h g (get-extended h g e);
      rooted = λ h g e. extended-rooted h g (get-extended h g e);
      linked = λ h g e. extended-linked h g (get-extended h g e);
    }

-- A block of length past 1 whose parent is stored, whose hash is new, and whose hash no root names
-- as its parent, is inserted with its parent's length plus one, and the invariant is kept. The
-- parent's length plus one fits in 32 bits.
pub insert-IsLinked :
    (x : External) (c : Blockchain) (b p : Block)
    → IsLinked x c
    → 1 < b.length
    → get c.blocks (get_parent b) ≡ some p
    → p.length + 1 < 2 ^ 32
    → get c.blocks (hash x b) ≡ none
    → ((h : H256) (g : Block) → get c.blocks h ≡ some g → g.length ≡ 1 → get_parent g ≢ hash x b)
    → (c' : Blockchain) × (insert x c b ≡ ok c')
      × IsLinked x c'
      × (get c'.blocks (hash x b) ≡ some (record b { length = p.length + 1 }))
insert-IsLinked x c b p inv long parent small fresh unnamed = (
  extended x c b p inv,
  insert_child x c b p inv long parent small,
  extended-IsLinked x c b p inv long parent fresh unnamed,
  get-insert_self c.blocks (hash x b) (stored x c b p inv),
)

-- A stored block of length 1, or of length 0, keeps its length whatever its parent is.
pub insert_short :
    (x : External) (c : Blockchain) (b : Block)
    → b.length ≤ 1
    → insert x c b ≡ ok (record c { blocks = put c.blocks (hash x b) b })
unfolding insert relength
insert_short x c b short = ground arith

-- A longer block whose parent is not stored panics.
pub insert_orphan :
    (x : External) (c : Blockchain) (b : Block)
    → 1 < b.length
    → get c.blocks (get_parent b) ≡ none
    → insert x c b ≡ panic
unfolding insert relength
insert_orphan x c b long orphan = ground arith
