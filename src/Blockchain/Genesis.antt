-- ===== src/Blockchain/Genesis.antt =====
-- The genesis chain of blockchain/mod.rs, and what `insert` does with a block that
-- `do_generate_random_block` made.
use native.Mathlib.Omega.{arith}
use mathlib.Core.Path.{subst}
use final.Base.{
  ℕ, suc, ◌≡◌, ◌≢◌, refl, ap, sym, ◌∙◌, [], ◌∷◌, ◌==◌, Bool-cases, inl, inr, none, some, ok, drop,
  ==_eq, ==_ne, ==_refl, some_inj, List,
}
use final.Base.HashMap.{HashMap, get, insert as put, get-insert_self}
use final.Data.{H256, h256_key, Address, address_key, State, Block}
use final.External.{External, IsDocumented}
use final.Address.{from_public_key_bytes, last_20_bytes, to_be_bytes}
use final.Block.{hash, get_parent, do_generate_random_block}
use final.Blockchain.{
  Blockchain, ico_state, new, insert, tip, walk, all_blocks_in_longest_chain, get_block_state,
}
use final.Blockchain.Tip.{tip_found}
use final.Blockchain.Invariant.{IsLinked, insert_short}

-- With digests of 32 bytes, an address is the last 20 of them.
pub from_public_key_bytes_total :
    (x : External) (bytes : List ℕ)
    → IsDocumented x
    → from_public_key_bytes x bytes ≡ ok (record { bytes = drop 12 (x.sha256 bytes) })
unfolding from_public_key_bytes last_20_bytes
from_public_key_bytes_total x bytes doc = rw (doc.digest_length bytes)

pub get-single : (k h : H256) (g b : Block) → get ((k, g) ∷ []) h ≡ some b → (k ≡ h) × (g ≡ b)
unfolding get
get-single k h g b e = elim (Bool-cases (k == h)) [
  | inl same ↦ (==_eq k h same, some_inj (rw same at e))
  | inr other ↦ cc (sym (rw other at e))
]

-- The chain with one block of length 1, which is not its own parent, satisfies the invariant.
module _ (x : External) (g : Block) (one : g.length ≡ 1) (outside : get_parent g ≢ hash x g) where
  pub single-IsLinked :
      (states : HashMap H256 State)
      → IsLinked x (record { blocks = (hash x g, g) ∷ []; block_states = states })
  unfolding get
  single-IsLinked states = record {
    distinct = (refl, tt);
    keyed =
        λ h b e. let (at_h, same) = get-single (hash x g) h g b e in ap (hash x) (sym same) ∙ at_h;
    positive = λ h b e.
        let (_, same) = get-single (hash x g) h g b e in
        omega (arith, one, ap (λ (k : Block). k.length) same);
    rooted = λ h b e root.
        let (_, same) = get-single (hash x g) h g b e in
        subst (λ (k : Block). get ((hash x g, g) ∷ []) (get_parent k) ≡ none) same
          (rw (==_ne (hash x g) (get_parent g) (λ p. outside (sym p))) refl);
    linked = λ h b e long.
        let (_, same) = get-single (hash x g) h g b e in
        absurd (omega (arith, one, long, ap (λ (k : Block). k.length) same));
  }

-- The chain with one block, which is not its own parent, has this block as its tip, and the way from
-- the tip to the root is this block alone.
module _ (x : External) (g : Block) (s : State) (one : g.length ≡ 1)
    (outside : get_parent g ≢ hash x g) where
  abbrev single : Blockchain
  single = record { blocks = (hash x g, g) ∷ []; block_states = (hash x g, s) ∷ [] }

  tip-single : IsDocumented x → tip x single ≡ ok (hash x g)
  unfolding get
  tip-single doc =
      let (h, b, ends, stands, _) =
        tip_found x single (hash x g) g doc (refl, tt) (rw (==_refl (hash x g)) refl)
          (omega (arith, one)) in
      ends ∙ ap (λ t. ok t) (sym (get-single (hash x g) h g b stands).0)

  walk-single : (fuel : ℕ) → walk (suc (suc fuel)) single (hash x g) ≡ ok (hash x g ∷ [])
  unfolding walk get
  walk-single fuel =
      let here : get single.blocks (hash x g) ≡ some g = rw (==_refl (hash x g)) refl in
      let root : get single.blocks (get_parent g) ≡ none =
        rw (==_ne (hash x g) (get_parent g) (λ e. outside (sym e))) refl in
      rw (here, walk) (rw (root, walk) refl)

-- With digests of 32 bytes, and a given parent that is not the hash of the generated block: `new`
-- returns a chain that satisfies the invariant, with this block as its tip and, for any fuel from 2
-- on, as its longest chain; the state there has one account, the address of the bytes of the number 0, with
-- nonce 0 and 100 coins.
pub new_starts_chain :
    (x : External) (genesis_parent : H256) (nonce timestamp : ℕ) (merkle : H256) (fuel : ℕ)
    → IsDocumented x
    → genesis_parent ≢ hash x (do_generate_random_block nonce timestamp merkle genesis_parent)
    → (c : Blockchain) × (ico : Address) × (new x genesis_parent nonce timestamp merkle ≡ ok c)
      × (from_public_key_bytes x (to_be_bytes 0) ≡ ok ico)
      × (tip x c ≡ ok (hash x (do_generate_random_block nonce timestamp merkle genesis_parent)))
      × (all_blocks_in_longest_chain x (suc (suc fuel)) c
          ≡ ok (hash x (do_generate_random_block nonce timestamp merkle genesis_parent) ∷ []))
      × (get_block_state c (hash x (do_generate_random_block nonce timestamp merkle genesis_parent))
          ≡ some ((ico, (0, 100)) ∷ []))
      × IsLinked x c
unfolding new ico_state do_generate_random_block put hash all_blocks_in_longest_chain
    get_block_state get
new_starts_chain x genesis_parent nonce timestamp merkle fuel doc outside =
    let g = do_generate_random_block nonce timestamp merkle genesis_parent in
    let ico : Address = record { bytes = drop 12 (x.sha256 (to_be_bytes 0)) } in
    let s : State = (ico, (0, 100)) ∷ [] in
    let made = from_public_key_bytes_total x (to_be_bytes 0) doc in
    let top = tip-single x g s refl outside doc in
    (
      single x g s refl outside,
      ico,
      rw made refl,
      made,
      top,
      rw top (walk-single x g s refl outside fuel),
      rw (==_refl (hash x g)) refl,
      single-IsLinked x g refl outside ((hash x g, s) ∷ []),
    )

-- A generated block keeps length 1 when it is inserted, whatever the length of its stored parent.
pub insert_generated :
    (x : External) (c : Blockchain) (p : Block) (parent : H256) (nonce timestamp : ℕ)
    (merkle : H256)
    → get c.blocks parent ≡ some p
    → (c' : Blockchain) × (b : Block) × (insert x c
          (do_generate_random_block nonce timestamp merkle parent)
        ≡ ok c')
      × (get c'.blocks (hash x (do_generate_random_block nonce timestamp merkle parent)) ≡ some b)
      × (b.length ≡ 1)
unfolding do_generate_random_block
insert_generated x c p parent nonce timestamp merkle stands =
    let b = do_generate_random_block nonce timestamp merkle parent in
    (
      record c { blocks = put c.blocks (hash x b) b },
      b,
      insert_short x c b (omega arith),
      get-insert_self c.blocks (hash x b) b,
      refl,
    )
