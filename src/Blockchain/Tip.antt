-- ===== src/Blockchain/Tip.antt =====
-- `tip` finds a longest block, in whatever order the map is visited.
use mathlib.Core.List.{Mem, not-mem-nil, mem-cons}
use mathlib.Core.List.Perm
use mathlib.Core.Logic.Or
use native.Mathlib.Bridge.{le_prop}
use native.Mathlib.Omega.{arith}
use final.Base.{ℕ, ◌≤◌, ◌≡◌, refl, [], ◌∷◌, ◌⊎◌, Bool-cases, inl, inr, some, ok, leb, All}
use final.Base.HashMap.{HashMap, get}
use final.Base.Entries.{IsMap, get_of_mem, mem_of_get}
use final.Data.{H256, h256_key, Block}
use final.External.{External, IsDocumented}
use final.Blockchain.{Blockchain, tip_loop, tip, zero_hash}
use final.Blockchain.Invariant.{IsLinked}

Block-set : IsSet Block
Block-set = hlevel

module _ (c : Blockchain) where
  abbrev pub Stands : H256 × Block → Type 0
  Stands e = get c.blocks e.0 ≡ some e.1

  -- The hash that the loop holds is that of a block of the length that it holds, or the length is
  -- still 0.
  abbrev Held : ℕ → H256 → Type 0
  Held top h = (top ≡ 0) ⊎ ((b : Block) × (get c.blocks h ≡ some b) × (b.length ≡ top))

  -- What the loop returns from a start of length `low` and hash `start`.
  record Best (low : ℕ) (start : H256) (entries : HashMap H256 Block) : Type 0 where
    result : H256
    top : ℕ
    ends : tip_loop c low start entries ≡ ok result
    grows : low ≤ top
    above : All (λ e. e.1.length ≤ top) entries
    found : Held top result

  tip_loop-Best :
      (low : ℕ) (start : H256) (entries : HashMap H256 Block)
      → Held low start
      → All Stands entries
      → Best low start entries
  unfolding tip_loop
  tip_loop-Best low start [] init s = record {
    result = start;
    top = low;
    ends = refl;
    grows = omega arith;
    above = tt;
    found = init;
  }
  tip_loop-Best low start (e ∷ entries) init (stands, s) = elim (Bool-cases (leb low e.1.length)) [
    | inl longer ↦
        let best = tip_loop-Best e.1.length e.0 entries (inr (e.1, stands, refl)) s in
        record {
          result = best.result;
          top = best.top;
          ends = rw (longer, stands, tip_loop) best.ends;
          grows = ground (arith, best.grows);
          above = (best.grows, best.above);
          found = best.found;
        }
    | inr shorter ↦
        let best = tip_loop-Best low start entries init s in
        record {
          result = best.result;
          top = best.top;
          ends = rw (shorter, tip_loop) best.ends;
          grows = best.grows;
          above = (ground (arith, best.grows), best.above);
          found = best.found;
        }
  ]

All-of_mem :
    (P : H256 × Block → Type 0) (entries : HashMap H256 Block)
    → ((e : H256 × Block) → Mem e entries → P e)
    → All P entries
All-of_mem P [] h = tt
All-of_mem P (e ∷ entries) h =
    (h e (mem-cons.1 (Or.inl refl)), All-of_mem P entries (λ d i. h d (mem-cons.1 (Or.inr i))))

le_of_mem :
    (top : ℕ) (entries : HashMap H256 Block) (e : H256 × Block)
    → All (λ d. d.1.length ≤ top) entries
    → Mem e entries
    → e.1.length ≤ top
le_of_mem top [] e all i = absurd (not-mem-nil i)
le_of_mem top (d ∷ entries) e (first, all) i =
    Or.elim le_prop (mem-cons.0 i) (λ p. rw p first) (le_of_mem top entries e all)

-- Each entry that the iteration visits stands in the map.
pub visited_Stands :
    (x : External) (c : Blockchain)
    → IsDocumented x
    → IsMap c.blocks
    → All (Stands c) (x.block_order c.blocks)
visited_Stands x c doc distinct = All-of_mem (Stands c) (x.block_order c.blocks) (λ e i.
    get_of_mem Block-set c.blocks e.0 e.1 distinct ((Perm.mem_iff (doc.block_visits c.blocks)).0 i))

-- The same for any map of blocks with one of length past 0.
pub tip_found :
    (x : External) (c : Blockchain) (h₀ : H256) (b₀ : Block)
    → IsDocumented x
    → IsMap c.blocks
    → get c.blocks h₀ ≡ some b₀
    → 1 ≤ b₀.length
    → (h : H256) × (b : Block) × (tip x c ≡ ok h)
      × (get c.blocks h ≡ some b)
      × ((h' : H256) (b' : Block) → get c.blocks h' ≡ some b' → b'.length ≤ b.length)
unfolding tip
tip_found x c h₀ b₀ doc distinct start long =
    let visits = doc.block_visits c.blocks in
    let best =
      tip_loop-Best c 0 zero_hash (x.block_order c.blocks) (inl refl)
        (visited_Stands x c doc distinct) in
    let above = λ (h' : H256) (b' : Block) (e : get c.blocks h' ≡ some b').
      le_of_mem best.top (x.block_order c.blocks) (h', b') best.above
        ((Perm.mem_iff visits).1 (mem_of_get c.blocks h' b' e)) in
    elim best.found [
      | inl empty ↦ absurd (omega (arith, above h₀ b₀ start, long))
      | inr (b, stands, same) ↦
          (best.result, b, best.ends, stands, λ h' b' e. omega (arith, above h' b' e))
    ]

-- In a linked chain with a block, `tip` returns the hash of a stored block that no stored block
-- exceeds in length, in whatever order the map is visited.
pub tip_longest :
    (x : External) (c : Blockchain) (h₀ : H256) (b₀ : Block)
    → IsDocumented x
    → IsLinked x c
    → get c.blocks h₀ ≡ some b₀
    → (h : H256) × (b : Block) × (tip x c ≡ ok h)
      × (get c.blocks h ≡ some b)
      × ((h' : H256) (b' : Block) → get c.blocks h' ≡ some b' → b'.length ≤ b.length)
tip_longest x c h₀ b₀ doc inv start =
    tip_found x c h₀ b₀ doc inv.distinct start (inv.positive h₀ b₀ start)
