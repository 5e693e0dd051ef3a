-- ===== src/Mynode/LcBlocks.antt =====
-- mynode/src/lcblocks.rs: the blocks of the longest chain protocol, and the tree of those known.
-- Texts and serialised blocks are lists of bytes; a digest is taken of the bytes that bincode, a crate
-- that is not part of the repository, makes of a block (`serialize`).
-- The hash set of tips is a list: the theorems hold whatever its order.
pub mod Invariant
pub mod Ancestors
pub mod Tips
pub mod Leading
pub mod Depth
pub mod Honest
use accountability_gadget_pr.Base.{
  ℕ, zero, suc, ◌+◌, ◌%◌, List, [], ◌∷◌, Option, none, some, Bool, true, false, ◌&&◌, not, ◌==◌,
  leb, ltb, Outcome, ok, err, panic, out_of_fuel, ◌>>=◌, ◌>>◌, ensure, expect, ok_or, unwrap,
  if◌then◌else◌, set_insert, set_remove, starts_with, replicate,
}
use mathlib.Core.List.{reverse}
use accountability_gadget_pr.Base.Dict.{Dict, lookup, lookup_or, insert, contains_key}
use accountability_gadget_pr.Crypto.{Digest, Primitives}
use accountability_gadget_pr.Consensus.Messages.{u64_mod}

-- The text and the filler.
pub record LcBlockPayload : Type 0 where
  pub text : List ℕ
  pub filler : List ℕ

-- `LcBlockPayload::new`
unfoldable pub new_payload : List ℕ → LcBlockPayload
new_payload s = record { text = s; filler = replicate 22_000 0 }

pub record LcBlock : Type 0 where
  pub parent : Option Digest
  pub payload : LcBlockPayload
  pub slot : ℕ

-- "Genesis"
abbrev pub genesis_text : List ℕ
genesis_text = b'G' ∷ b'e' ∷ b'n' ∷ b'e' ∷ b's' ∷ b'i' ∷ b's' ∷ []

-- `LcBlock::genesis`
unfoldable pub genesis : LcBlock
genesis = record { parent = none; payload = record { text = genesis_text; filler = [] }; slot = 0 }

-- "[adv]"
abbrev pub adversarial_mark : List ℕ
adversarial_mark = b'[' ∷ b'a' ∷ b'd' ∷ b'v' ∷ b']' ∷ []

-- `LcBlock::is_adversarial`: the text ends with the mark.
unfoldable pub is_adversarial : LcBlock → Bool
is_adversarial b = starts_with (reverse adversarial_mark) (reverse b.payload.text)

-- The error texts of the tree.
pub data TreeError : Type 0 where
  parent_is_none parent_is_unknown unknown_short unknown_long unknown_b1 unknown_b2 : TreeError
  unknown_block : TreeError

abbrev pub TreeResult {ℓ} : Type ℓ → Type ℓ
TreeResult A = Outcome TreeError A

pub record LcBlockTree : Type 0 where
  pub lcblocks : Dict LcBlock
  pub precomputed_height : Dict ℕ
  pub idx_tips : List Digest

module _ (c : Primitives) (serialize : LcBlock → List ℕ) where
  unfoldable pub digest : LcBlock → Digest
  digest b = c.sha512 (serialize b)

  -- `LcBlockTree::new`
  unfoldable pub new_tree : LcBlockTree
  new_tree = record {
    lcblocks = (digest genesis, genesis) ∷ [];
    precomputed_height = (digest genesis, 0) ∷ [];
    idx_tips = digest genesis ∷ [];
  }

  -- What `add` writes once it has the height of the parent.
  unfoldable pub add_below : LcBlockTree → LcBlock → Digest → ℕ → LcBlockTree
  unfolding set_insert set_remove
  add_below t b parent height = record {
    lcblocks = insert (digest b) b t.lcblocks;
    precomputed_height = insert (digest b) ((height + 1) % u64_mod) t.precomputed_height;
    idx_tips = set_insert (digest b) (set_remove parent t.idx_tips);
  }

  -- `LcBlockTree::add`
  unfoldable pub add : LcBlockTree → LcBlock → TreeResult LcBlockTree
  unfolding add_below
  add t b = do
    parent ← ok_or b.parent parent_is_none
    height ← ok_or (lookup parent t.precomputed_height) parent_is_unknown
    ok (add_below t b parent height)

-- `LcBlockTree::is_prefix_of`, with fuel for the walk to the root.
unfoldable pub prefix_walk : ℕ → LcBlockTree → Digest → Digest → TreeResult Bool
prefix_walk zero t short long = out_of_fuel
prefix_walk (suc fuel) t short long = do
  ensure (contains_key short t.lcblocks) unknown_short
  ensure (contains_key long t.lcblocks) unknown_long
  h_short ← expect (lookup short t.precomputed_height)
  h_long ← expect (lookup long t.precomputed_height)
  elim (ltb h_long h_short) [
    | true ↦ ok false
    | false ↦ elim (long == short) [
      | true ↦ ok true
      | false ↦ do
        b ← expect (lookup long t.lcblocks)
        elim b.parent [ none ↦ ok false | some p ↦ prefix_walk fuel t short p ]
    ]
  ]

-- The height of the longer block bounds the walk.
unfoldable pub is_prefix_of : LcBlockTree → Digest → Digest → TreeResult Bool
unfolding prefix_walk
is_prefix_of t short long = prefix_walk (suc (lookup_or long 0 t.precomputed_height)) t short long

-- `LcBlockTree::height`
unfoldable pub height : LcBlockTree → Digest → TreeResult ℕ
height t b = do
  ensure (contains_key b t.lcblocks) unknown_block
  expect (lookup b t.precomputed_height)

-- `LcBlockTree::parent`
unfoldable pub parent_of : LcBlockTree → Digest → TreeResult (Option Digest)
parent_of t b = do
  ensure (contains_key b t.lcblocks) unknown_block
  blk ← expect (lookup b t.lcblocks)
  ok blk.parent

-- `LcBlockTree::block`
unfoldable pub block : LcBlockTree → Digest → TreeResult LcBlock
block t b = do ensure (contains_key b t.lcblocks) unknown_block; expect (lookup b t.lcblocks)

-- The choice of `tie_break`, from the heights and the blocks: higher first, then adversarial first,
-- then the smaller digest.
unfoldable pub choose : Digest → ℕ → LcBlock → Digest → ℕ → LcBlock → Digest
choose d1 h1 b1 d2 h2 b2 =
    if ltb h2 h1
    then d1
    else if ltb h1 h2
    then d2
    else if is_adversarial b1 && not (is_adversarial b2)
    then d1
    else if is_adversarial b2 && not (is_adversarial b1)
    then d2
    else if ltb d1 d2
    then d1
    else d2

-- `LcBlockTree::tie_break`
unfoldable pub tie_break : LcBlockTree → Digest → Digest → TreeResult Digest
unfolding height choose
tie_break t d1 d2 = do
  h1 ← unwrap (height t d1)
  h2 ← unwrap (height t d2)
  b1 ← expect (lookup d1 t.lcblocks)
  b2 ← expect (lookup d2 t.lcblocks)
  ok (choose d1 h1 b1 d2 h2 b2)

-- One round of the loop of `leading_tip_extending`; `&&` asks for the prefix only after the tie.
unfoldable pub consider : LcBlockTree → Digest → Digest → Digest → TreeResult Digest
unfolding tie_break is_prefix_of
consider t checkpoint best tip = do
  winner ← tie_break t tip best
  elim (winner == tip) [
    | false ↦ ok best
    | true ↦ do extends ← unwrap (is_prefix_of t checkpoint tip); ok (if extends then tip else best)
  ]

unfoldable pub best_tip : LcBlockTree → Digest → Digest → List Digest → TreeResult Digest
unfolding consider
best_tip t checkpoint best [] = ok best
best_tip t checkpoint best (tip ∷ tips) = do
  best' ← consider t checkpoint best tip
  best_tip t checkpoint best' tips

-- `LcBlockTree::leading_tip_extending`
unfoldable pub leading_tip_extending : LcBlockTree → Digest → TreeResult Digest
unfolding best_tip
leading_tip_extending t checkpoint = best_tip t checkpoint checkpoint t.idx_tips

-- `LcBlockTree::k_deep`
unfoldable pub k_deep : LcBlockTree → ℕ → Digest → TreeResult Digest
k_deep t zero b = ok b
k_deep t (suc k) b = do
  blk ← expect (lookup b t.lcblocks)
  elim blk.parent [ none ↦ ok b | some p ↦ k_deep t k p ]

-- `LcBlockTree::higher_of`
unfoldable pub higher_of : LcBlockTree → Digest → Digest → TreeResult Digest
higher_of t b1 b2 = do
  ensure (contains_key b1 t.lcblocks) unknown_b1
  ensure (contains_key b2 t.lcblocks) unknown_b2
  h1 ← expect (lookup b1 t.precomputed_height)
  h2 ← expect (lookup b2 t.precomputed_height)
  ok (if leb h2 h1 then b1 else b2)

-- `LcBlockTree::height_honest`, with fuel for the walk to the root. The recursive call's error is a
-- panic of the caller.
unfoldable pub honest_walk : ℕ → LcBlockTree → Digest → TreeResult ℕ
honest_walk zero t b = out_of_fuel
honest_walk (suc fuel) t b = do
  ensure (contains_key b t.lcblocks) unknown_block
  blk ← expect (lookup b t.lcblocks)
  elim blk.parent [
    | none ↦ ok 0
    | some p ↦ do
      h ← unwrap (honest_walk fuel t p)
      ok ((h + (if is_adversarial blk then 0 else 1)) % u64_mod)
  ]

unfoldable pub height_honest : LcBlockTree → Digest → TreeResult ℕ
unfolding honest_walk
height_honest t b = honest_walk (suc (lookup_or b 0 t.precomputed_height)) t b
