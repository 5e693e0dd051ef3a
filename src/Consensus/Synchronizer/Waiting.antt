-- ===== src/Consensus/Synchronizer/Waiting.antt =====
-- The blocks that consensus/src/synchronizer.rs holds back, and their marks.
use accountability_gadget_pr.Base.{
  remove_at, ℕ, zero, suc, ◌≡◌, refl, sym, ap, subst, ==_refl, ==_iff, inl, inr, List, [], ◌∷◌,
  ◌++◌, map, Option, none, some, Bool, true, false, ◌||◌, contains, get_elem?, Distinct,
  Distinct-snoc, contains-set_insert, contains-set_remove, contains-append, Bool-cases, arith, ◌==◌,
}
use accountability_gadget_pr.Consensus.Messages.{Block, block_digest}
use accountability_gadget_pr.Consensus.Synchronizer.{
  Env, Synchronizer, new_synchronizer, Event, asked, stored, failed, timer, on_asked, on_stored,
  on_sync_event, run_sync,
}

abbrev pub digests : Env → List Block → List ℕ
digests env bs = map (block_digest env.primitives) bs

-- The waiting blocks are distinct, and each is marked as pending.
record IsSynchronizer (env : Env) (s : Synchronizer) : Type 0 where
  distinct : Distinct (digests env s.waiting)
  marked : (d : ℕ) → contains d (digests env s.waiting) ≡ true → contains d s.pending ≡ true

pub or_right : (a : Bool) {b : Bool} → b ≡ true → (a || b) ≡ true
or_right true h = refl
or_right false h = h

not_last :
    (d x : ℕ) (xs : List ℕ)
    → (d == x) ≡ false
    → contains d (xs ++ x ∷ []) ≡ true
    → contains d xs ≡ true
not_last d x xs n h = ground (arith, n, contains-append d xs (x ∷ []), h)

pub absent_snoc :
    (d x : ℕ) (xs : List ℕ)
    → contains d xs ≡ false
    → (d == x) ≡ false
    → contains d (xs ++ x ∷ []) ≡ false
absent_snoc d x xs h n = ground (arith, n, contains-append d xs (x ∷ []), h)

-- Of two numbers that a test tells apart.
pub differ :
    (xs : List ℕ) (d x : ℕ) → contains d xs ≡ true → contains x xs ≡ false → (d == x) ≡ false
differ xs d x h n = elim (Bool-cases (d == x)) [
  | inl t ↦ let q : contains d xs ≡ contains x xs = ap (λ y. contains y xs) ((==_iff d x).0 t) in cc
  | inr f ↦ f
]

pub differ_sym :
    (xs : List ℕ) (d x : ℕ) → contains d xs ≡ false → contains x xs ≡ true → (d == x) ≡ false
differ_sym xs d x n h = ground (arith, differ xs x d h n)

module _ (env : Env) where
  pub remove_at-subset :
      (i d : ℕ) (bs : List Block)
      → contains d (digests env bs) ≡ false
      → contains d (digests env (remove_at i bs)) ≡ false
  unfolding remove_at
  remove_at-subset i d [] h = refl
  remove_at-subset zero d (b ∷ bs) h = ground (arith, h)
  remove_at-subset (suc i) d (b ∷ bs) h = ground (arith, h, remove_at-subset i d bs)

  remove_at-Distinct :
      (i : ℕ) (bs : List Block)
      → Distinct (digests env bs)
      → Distinct (digests env (remove_at i bs))
  unfolding remove_at
  remove_at-Distinct i [] h = tt
  remove_at-Distinct zero (b ∷ bs) h = h.1
  remove_at-Distinct (suc i) (b ∷ bs) h =
      (remove_at-subset i (block_digest env.primitives b) bs h.0, remove_at-Distinct i bs h.1)

  pub get_elem?-contains :
      (i : ℕ) (b : Block) (bs : List Block)
      → get_elem? bs i ≡ some b
      → contains (block_digest env.primitives b) (digests env bs) ≡ true
  get_elem?-contains i b [] e = cc
  get_elem?-contains zero b (x ∷ bs) e =
      let q : x ≡ b = cc in
      subst (λ y. contains (block_digest env.primitives b) (digests env (y ∷ bs)) ≡ true) (sym q)
        (rw (==_refl (block_digest env.primitives b)) refl)
  get_elem?-contains (suc i) b (x ∷ bs) e = ground (arith, get_elem?-contains i b bs e)

  -- The block that is taken out is the only one with its digest.
  pub remove_at-gone :
      (i : ℕ) (b : Block) (bs : List Block)
      → get_elem? bs i ≡ some b
      → Distinct (digests env bs)
      → contains (block_digest env.primitives b) (digests env (remove_at i bs)) ≡ false
  unfolding remove_at
  remove_at-gone i b [] e h = refl
  remove_at-gone zero b (x ∷ bs) e h =
      let q : x ≡ b = cc in
      subst (λ y. contains (block_digest env.primitives y) (digests env bs) ≡ false) q h.0
  remove_at-gone (suc i) b (x ∷ bs) e h =
      ground (arith, h.0, remove_at-gone i b bs e h.1, get_elem?-contains i b bs e)

  remove_at-kept :
      (i d : ℕ) (bs : List Block)
      → contains d (digests env (remove_at i bs)) ≡ true
      → contains d (digests env bs) ≡ true
  unfolding remove_at
  remove_at-kept i d [] h = h
  remove_at-kept zero d (b ∷ bs) h = ground (arith, h)
  remove_at-kept (suc i) d (b ∷ bs) h = ground (arith, h, remove_at-kept i d bs)

  pub map-snoc :
      (b : Block) (bs : List Block)
      → digests env (bs ++ b ∷ []) ≡ digests env bs ++ block_digest env.primitives b ∷ []
  map-snoc b [] = refl
  map-snoc b (x ∷ bs) = rw (map-snoc b bs) refl

  on_asked-IsSynchronizer :
      (b : Block) (now : ℕ) (s : Synchronizer)
      → IsSynchronizer env s
      → IsSynchronizer env (on_asked env b now s)
  unfolding on_asked
  on_asked-IsSynchronizer b now s h =
      elim (Bool-cases (contains (block_digest env.primitives b) s.pending)) [
        | inl t ↦ record {
          distinct = rw t h.distinct;
          marked = λ d m.
              rw (contains-set_insert d (block_digest env.primitives b) s.pending)
                (or_right (d == block_digest env.primitives b) (h.marked d (rw t at m)));
        }
        | inr n ↦ record {
          distinct =
              rw (n, map-snoc b s.waiting)
                (Distinct-snoc _ (digests env s.waiting) h.distinct
                  (elim (Bool-cases
                    (contains (block_digest env.primitives b) (digests env s.waiting))) [
                      | inl t ↦ let x = h.marked _ t in cc
                      | inr f ↦ f
                    ]));
          marked = λ d m.
              rw (contains-set_insert d (block_digest env.primitives b) s.pending)
                (elim (Bool-cases (d == block_digest env.primitives b)) [
                  | inl t ↦ rw t refl
                  | inr f ↦ rw f (
                      h.marked d (
                        not_last d (block_digest env.primitives b) (digests env s.waiting) f
                          (rw (n, map-snoc b s.waiting) at m)))
                ]);
        }
      ]

  on_stored-IsSynchronizer :
      (i : ℕ) (o : Option Block) (s : Synchronizer)
      → get_elem? s.waiting i ≡ o
      → IsSynchronizer env s
      → IsSynchronizer env (on_stored env i o s)
  unfolding on_stored
  on_stored-IsSynchronizer i none s e h = h
  on_stored-IsSynchronizer i (some b) s e h = record {
    distinct = remove_at-Distinct i s.waiting h.distinct;
    marked = λ d m.
        rw (contains-set_remove d (block_digest env.primitives b) s.pending)
          (elim (Bool-cases (d == block_digest env.primitives b)) [
            | inl t ↦
                let q : d ≡ block_digest env.primitives b = (==_iff d _).0 t in
                let g : contains d (digests env (remove_at i s.waiting)) ≡ false =
                  subst (λ x. contains x (digests env (remove_at i s.waiting)) ≡ false) (sym q)
                    (remove_at-gone i b s.waiting e h.distinct) in
                let m' : contains d (digests env (remove_at i s.waiting)) ≡ true = m in cc
            | inr n ↦ rw n (h.marked d (remove_at-kept i d s.waiting m))
          ]);
  }

  on_sync_event-IsSynchronizer :
      (e : Event) (s : Synchronizer)
      → IsSynchronizer env s
      → IsSynchronizer env (on_sync_event env e s)
  unfolding on_sync_event
  on_sync_event-IsSynchronizer (asked b now) s h = on_asked-IsSynchronizer b now s h
  on_sync_event-IsSynchronizer (stored i) s h =
      on_stored-IsSynchronizer i (get_elem? s.waiting i) s refl h
  on_sync_event-IsSynchronizer (failed i) s h = record {
    distinct = remove_at-Distinct i s.waiting h.distinct;
    marked = λ d m. h.marked d (remove_at-kept i d s.waiting m);
  }
  on_sync_event-IsSynchronizer (timer now) s h = record { distinct = h.distinct; marked = h.marked }

  run_sync-IsSynchronizer :
      (es : List Event) (s : Synchronizer)
      → IsSynchronizer env s
      → IsSynchronizer env (run_sync env es s)
  unfolding run_sync
  run_sync-IsSynchronizer [] s h = h
  run_sync-IsSynchronizer (e ∷ es) s h =
      run_sync-IsSynchronizer es (on_sync_event env e s) (on_sync_event-IsSynchronizer e s h)

-- Whatever the task has done: the blocks that wait have distinct digests, which are all marked as
-- pending, so a block that is asked for again while it waits does not wait twice.
pub run_sync-Distinct :
    (env : Env) (es : List Event)
    → let s = run_sync env es new_synchronizer in
      Distinct (digests env s.waiting)
      × ((d : ℕ) → contains d (digests env s.waiting) ≡ true → contains d s.pending ≡ true)
run_sync-Distinct env es =
    let h =
      run_sync-IsSynchronizer env es new_synchronizer
        (record { distinct = tt; marked = λ d m. cc }) in
    (h.distinct, h.marked)
