-- ===== src/Consensus/Core/Parents.antt =====
-- The parent and the grandparent of a block that consensus/src/core.rs processes.
use accountability_gadget_pr.Base.{
  ℕ, ◌≡◌, refl, List, Option, none, some, ok, err, panic, out_of_fuel, ok_or, arith, subst,
  ok_injective, inl, inr,
}
use accountability_gadget_pr.Base.Dict.{lookup}
use accountability_gadget_pr.Consensus.Error.{ConsensusResult, serialization_error}
use accountability_gadget_pr.Consensus.Messages.{Block, block_genesis, qc_eq, qc_genesis, parent}
use accountability_gadget_pr.Consensus.Core.Monad.{
  sync_asked, Env, State, ◌>>=◌, after, pure, lift, emit, modify,
}
use accountability_gadget_pr.Consensus.Core.Handlers.{
  load_parent, with_grandparent, with_parent, read_store, get_parent_block, get_ancestors,
}
use accountability_gadget_pr.Consensus.Core.Keeps.{Post, Post-bind, Post-if}
use accountability_gadget_pr.Consensus.Core.Invariant.{
  Kinds, IsInvariant, IsReady, IsParent, IsGood,
}

module _ (env : Env) (k : Kinds) (P : State → Type 0) (i : IsInvariant env P k) where
  -- The parent of a block that is ready is ready too.
  abbrev pub Found : Block → Option Block → State → Type 0
  Found b o s = IsGood (λ b'. IsReady env P k b' s × IsParent env P k b' b) o

  returns :
      {A : Type 0} (Q : A → State → Type 0) (a : A) (s : State) → P s → Q a s → Post P Q (ok a, s)
  returns Q a s p q = (p, λ a' e. subst (λ a. Q a s) (ok_injective e) q)

  decoded-Post :
      (b : Block) (s : State) (bytes : List ℕ) (o : Option Block)
      → env.store_read s.effects (parent b) (lookup (parent b) s.store) ≡ ok (some bytes)
      → env.decode bytes ≡ o
      → P s
      → Post P (Found b) ((lift (ok_or o serialization_error) >>= λ b. pure (some b)) s)
  unfolding ◌>>=◌ lift pure
  decoded-Post b s bytes none e d p = (p, λ a h. cc)
  decoded-Post b s bytes (some b') e d p =
      let (ready, loaded) = i.loads s (parent b) bytes b' p e d in
      returns (Found b) (some b') s p (ready, inr loaded)

  load_parent-Post :
      (b : Block) (s : State) (found : Option (List ℕ))
      → IsReady env P k b s
      → env.store_read s.effects (parent b) (lookup (parent b) s.store) ≡ ok found
      → P s
      → Post P (Found b) (load_parent env b found s)
  unfolding load_parent
  load_parent-Post b s (some bytes) r e p = decoded-Post b s bytes (env.decode bytes) e refl p
  load_parent-Post b s none r e p =
      unfold ◌>>=◌ pure emit modify in
      (returns (Found b) none (emit (sync_asked b) s).1 (i.asks (sync_asked b) b s (inl refl) r p)
        tt)

  read_parent-Post :
      (b : Block) (s : State) (answer : ConsensusResult (Option (List ℕ)))
      → IsReady env P k b s
      → env.store_read s.effects (parent b) (lookup (parent b) s.store) ≡ answer
      → P s
      → Post P (Found b) (after (load_parent env b) (answer, s))
  read_parent-Post b s (ok found) r e p = load_parent-Post b s found r e p
  read_parent-Post b s (err x) r e p = (p, λ a h. cc)
  read_parent-Post b s panic r e p = (p, λ a h. cc)
  read_parent-Post b s out_of_fuel r e p = (p, λ a h. cc)

  genesis-IsReady : (s : State) → IsReady env P k block_genesis s
  genesis-IsReady s = (i.starts, omega (arith, i.ranks block_genesis))

  get_parent_block-Post :
      (b : Block) (s : State)
      → IsReady env P k b s
      → P s
      → Post P (Found b) (get_parent_block env b s)
  unfolding get_parent_block pure read_store ◌>>=◌
  get_parent_block-Post b s r p =
      Post-if P (Found b) (qc_eq b.qc qc_genesis) _ _ s
        (λ first. returns (Found b) (some block_genesis) s p (genesis-IsReady s, inl (first, refl)))
        (read_parent-Post b s _ r refl p)

  -- The two ancestors of a block, if they are there.
  abbrev pub Ancestors : Block → Option (Block × Block) → State → Type 0
  Ancestors b o s = IsGood (λ p. IsParent env P k p.1 b × IsParent env P k p.0 p.1) o

  with_grandparent-Post :
      (b b1 : Block) (o : Option Block) (s : State)
      → IsParent env P k b1 b
      → P s
      → Found b1 o s
      → Post P (Ancestors b) (with_grandparent env b1 o s)
  unfolding with_grandparent lift pure
  with_grandparent-Post b b1 none s up p f = (p, λ a h. cc)
  with_grandparent-Post b b1 (some b0) s up p f =
      returns (Ancestors b) (some (b0, b1)) s p (up, f.1)

  with_parent-Post :
      (b : Block) (o : Option Block) (s : State)
      → P s
      → Found b o s
      → Post P (Ancestors b) (with_parent env o s)
  unfolding with_parent pure
  with_parent-Post b none s p f = returns (Ancestors b) none s p tt
  with_parent-Post b (some b1) s p f =
      Post-bind P _ _ (Found b1) (Ancestors b) s (get_parent_block-Post b1 s f.0 p)
        (λ o s p g. with_grandparent-Post b b1 o s f.1 p g)

  pub get_ancestors-Post :
      (b : Block) (s : State)
      → IsReady env P k b s
      → P s
      → Post P (Ancestors b) (get_ancestors env b s)
  unfolding get_ancestors
  get_ancestors-Post b s r p =
      Post-bind P _ _ (Found b) (Ancestors b) s (get_parent_block-Post b s r p)
        (λ o s p f. with_parent-Post b o s p f)
