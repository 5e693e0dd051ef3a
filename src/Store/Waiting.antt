-- ===== src/Store/Waiting.antt =====
-- What store/src/lib.rs promises its callers: a map, and one list of those who wait for a key.
use accountability_gadget_pr.Base.{
  ℕ, ◌≡◌, refl, sym, ◌∙◌, ap, List, [], ◌∷◌, ◌++◌, map, Option, none, some, false, not, ◌==◌, ok,
  filter, arith, inl, inr, if◌then◌else◌, ok_injective, Option-cases, Bool-cases, ==_iff,
}
use accountability_gadget_pr.Base.Dict.{
  lookup, lookup_or, insert, lookup_or-insert, lookup_or-retain_keys,
}
use accountability_gadget_pr.Store.{
  Value, Db, StoreCommand, write, read, notify_read, Reply, to_read, to_notify, StoreTask,
  new_store, notify, on_store_command, run_store,
}

-- The abstract store: what is stored under each key, and who waits for what, in the order of arrival.
pub record Promise : Type 0 where
  pub stored : ℕ → Option Value
  pub waiting : List (ℕ × ℕ)

abbrev pub waiters : ℕ → List (ℕ × ℕ) → List ℕ
waiters key ws = map (λ w. w.1) (filter (λ w. w.0 == key) ws)

module _ (db : Db) where
  -- The documented behaviour of a database that does not fail: `get` finds what was put last.
  pub record IsLawful : Type 0 where
    pub get_put :
        (d : db.Contents) (j k : ℕ) (v : Value)
        → db.get (db.put d j v) k ≡ (if j == k then ok (some v) else db.get d k)

  unfoldable pub promised_reply : ℕ → ℕ → Option Value → Promise → List (Reply db) × Promise
  promised_reply key sender none p = ([], record p { waiting = p.waiting ++ (key, sender) ∷ [] })
  promised_reply key sender (some value) p = (to_notify sender (ok value) ∷ [], p)

  unfoldable pub promised : StoreCommand → Promise → List (Reply db) × Promise
  promised (write key value) p = (
    map (λ sender. to_notify sender (ok value)) (waiters key p.waiting),
    record {
      stored = λ k. if key == k then some value else p.stored k;
      waiting = filter (λ w. not (w.0 == key)) p.waiting;
    },
  )
  promised (read key sender) p = (to_read sender (ok (p.stored key)) ∷ [], p)
  promised (notify_read key sender) p = promised_reply key sender (p.stored key) p

  unfoldable pub run_promised : List StoreCommand → Promise → List (Reply db) × Promise
  run_promised [] p = ([], p)
  run_promised (c ∷ cs) p =
      let here = promised c p in let rest = run_promised cs here.1 in (here.0 ++ rest.0, rest.1)

  -- The task holds the abstract store, and nobody waits for what is stored.
  pub record Refines (s : StoreTask db) (p : Promise) : Type 0 where
    pub contents_eq : (k : ℕ) → db.get s.contents k ≡ ok (p.stored k)
    pub waiters_eq : (k : ℕ) → lookup_or k [] s.obligations ≡ waiters k p.waiting
    pub none_missed : (k : ℕ) (v : Value) → p.stored k ≡ some v → waiters k p.waiting ≡ []

waiters-snoc :
    (k j w : ℕ) (ws : List (ℕ × ℕ))
    → waiters k (ws ++ (j, w) ∷ []) ≡ (if j == k then waiters k ws ++ w ∷ [] else waiters k ws)
waiters-snoc k j w [] = ground arith
waiters-snoc k j w (x ∷ ws) = ground (arith, waiters-snoc k j w ws)

waiters-served :
    (k j : ℕ) (ws : List (ℕ × ℕ))
    → waiters k (filter (λ w. not (w.0 == j)) ws) ≡ (if not (k == j) then waiters k ws else [])
waiters-served k j [] = ground arith
waiters-served k j (x ∷ ws) = ground (arith, waiters-served k j ws)

module _ (db : Db) (lawful : IsLawful db) where
  waiting_after :
      (key sender k : ℕ) (s : StoreTask db) (p : Promise)
      → Refines db s p
      → lookup_or k [] (insert key (lookup_or key [] s.obligations ++ sender ∷ []) s.obligations)
        ≡ waiters k (p.waiting ++ (key, sender) ∷ [])
  waiting_after key sender k s p h =
      lookup_or-insert key k _ [] s.obligations
      ∙ elim (Bool-cases (key == k)) [
        | inl t ↦ rw t (
            ap (λ l. l ++ sender ∷ [])
              (h.waiters_eq key ∙ ap (λ j. waiters j p.waiting) ((==_iff key k).0 t)))
        | inr f ↦ rw f (h.waiters_eq k)
      ]
      ∙ sym (waiters-snoc k key sender p.waiting)

  missed_after :
      (key sender k : ℕ) (v : Value) (p : Promise)
      → p.stored key ≡ none
      → waiters k p.waiting ≡ []
      → p.stored k ≡ some v
      → waiters k (p.waiting ++ (key, sender) ∷ []) ≡ []
  missed_after key sender k v p e h q = elim (Bool-cases (key == k)) [
    | inl t ↦ let r : p.stored key ≡ p.stored k = ap p.stored ((==_iff key k).0 t) in cc
    | inr f ↦ rw (waiters-snoc k key sender p.waiting, f) h
  ]

  kept_waiting :
      (k key : ℕ) (s : StoreTask db) (p : Promise)
      → Refines db s p
      → (if not (k == key) then lookup_or k [] s.obligations else [])
        ≡ (if not (k == key) then waiters k p.waiting else [])
  kept_waiting k key s p h = ap (λ l. if not (k == key) then l else []) (h.waiters_eq k)

  promised_reply-Refines :
      (key sender : ℕ) (s : StoreTask db) (p : Promise)
      → Refines db s p
      → let r = notify db key sender (ok (p.stored key)) s in
        let r' = promised_reply db key sender (p.stored key) p in (r.0 ≡ r'.0) × Refines db r.1 r'.1
  unfolding promised_reply notify
  promised_reply-Refines key sender s p h = elim (Option-cases (p.stored key)) [
    | inl e ↦ rw e (
      refl,
      record {
        contents_eq = h.contents_eq;
        waiters_eq = λ k. waiting_after key sender k s p h;
        none_missed = λ k v q. missed_after key sender k v p e (h.none_missed k v q) q;
      },
    )
    | inr (v, e) ↦ rw e (refl, h)
  ]

  promised-Refines :
      (c : StoreCommand) (s : StoreTask db) (p : Promise)
      → Refines db s p
      → let r = on_store_command db c s in
        let r' = promised db c p in (r.0 ≡ r'.0) × Refines db r.1 r'.1
  unfolding on_store_command promised
  promised-Refines (write key v) s p h = (
    rw (h.waiters_eq key) refl,
    record {
      contents_eq = λ k.
          lawful.get_put s.contents key k v
          ∙ elim (Bool-cases (key == k)) [ inl t ↦ rw t refl | inr f ↦ rw f (h.contents_eq k) ];
      waiters_eq = λ k.
          lookup_or-retain_keys _ k [] s.obligations
          ∙ kept_waiting k key s p h
          ∙ sym (waiters-served k key p.waiting);
      none_missed = λ k v' q. elim (Bool-cases (k == key)) [
        | inl t ↦ rw (waiters-served k key p.waiting, t) refl
        | inr f ↦
            let f' : (key == k) ≡ false = ground (arith, f) in
            rw (waiters-served k key p.waiting, f) (h.none_missed k v' (rw f' at q))
      ];
    },
  )
  promised-Refines (read key sender) s p h = (rw (h.contents_eq key) refl, h)
  promised-Refines (notify_read key sender) s p h =
      rw (h.contents_eq key) (promised_reply-Refines key sender s p h)

  run_promised-Refines :
      (cs : List StoreCommand) (s : StoreTask db) (p : Promise)
      → Refines db s p
      → let r = run_store db cs s in
        let r' = run_promised db cs p in (r.0 ≡ r'.0) × Refines db r.1 r'.1
  unfolding run_store run_promised
  run_promised-Refines [] s p h = (refl, h)
  run_promised-Refines (c ∷ cs) s p h =
      let (e, h1) = promised-Refines c s p h in
      let (e', h2) = run_promised-Refines cs _ _ h1 in (cc, h2)

-- For a database that does not fail: from any contents, whatever commands come and in whatever order,
-- the task replies as the abstract store does, command by command in the same order, and in the end
-- nobody waits for a key that is stored.
pub run_store-refines :
    (db : Db) (lawful : IsLawful db) (contents : db.Contents) (stored : ℕ → Option Value)
    (cs : List StoreCommand)
    → ((k : ℕ) → db.get contents k ≡ ok (stored k))
    → let r = run_store db cs (new_store db contents) in
      let r' = run_promised db cs (record { stored = stored; waiting = [] }) in
      (r.0 ≡ r'.0)
      × ((k : ℕ) (v : Value)
          → db.get r.1.contents k ≡ ok (some v)
          → lookup_or k [] r.1.obligations ≡ [])
unfolding lookup_or lookup
run_store-refines db lawful contents stored cs held =
    let (e, h) =
      run_promised-Refines db lawful cs (new_store db contents)
        (record { stored = stored; waiting = [] })
        (record { contents_eq = held; waiters_eq = λ k. refl; none_missed = λ k v q. refl }) in
    (e, λ k v q. h.waiters_eq k ∙ h.none_missed k v (ok_injective (sym (h.contents_eq k) ∙ q)))
