-- ===== src/Gossip/Answers.antt =====
-- The retrievals of gossip/src/lib.rs and their answers.
use accountability_gadget_pr.Base.{
  ℕ, ◌+◌, ◌≡◌, refl, List, [], ◌∷◌, ◌++◌, Option, none, some, Bool, true, false, Outcome, ok, panic,
  expect, ◌==◌, arith, >>=-eq-ok, ok_injective, if◌then◌else◌, ap, subst, sym, ◌∙◌, assert-eq-ok,
}
use accountability_gadget_pr.Base.Dict.{Dict, lookup, lookup_or, insert}
use accountability_gadget_pr.Gossip.{
  GossipCmd, subscribe, publish, retrieve, SwarmEvent, message, records, not_found, other, Event,
  command, swarm, Effect, put_record, answered, Env, State, start, remove, log, send, replay,
  spread, send_all, on_record, on_records, on_command, on_swarm, run_gossip,
}

expect-ok {ℓ} :
    {A : Type ℓ} (o : Option A) (a : A) → (let r : Outcome ⊥ A = expect o in r ≡ ok a) → o ≡ some a
expect-ok none a e = cc
expect-ok (some b) a e = ap some (ok_injective e)

abbrev pub one_if : Bool → ℕ
one_if b = if b then 1 else 0

module _ (tx : ℕ) where
  unfoldable pub count : List ℕ → ℕ
  count [] = 0
  count (x ∷ xs) = one_if (x == tx) + count xs

  -- How often a channel waits for a record.
  unfoldable pub waiting : Dict (List ℕ) → ℕ
  unfolding count
  waiting [] = 0
  waiting ((k, txs) ∷ m) = count txs + waiting m

  -- How often it was answered.
  unfoldable pub answers : List Effect → ℕ
  answers [] = 0
  answers (answered x key value ∷ es) = one_if (x == tx) + answers es
  answers (_ ∷ es) = answers es

  -- How often it asked.
  unfoldable pub asked : List Event → ℕ
  asked [] = 0
  asked (command (retrieve key x) ∷ es) = one_if (x == tx) + asked es
  asked (_ ∷ es) = asked es

  count-snoc : (xs : List ℕ) (x : ℕ) → count (xs ++ x ∷ []) ≡ count xs + one_if (x == tx)
  unfolding count
  count-snoc [] x = omega arith
  count-snoc (y ∷ xs) x = omega (arith, count-snoc xs x)

  waiting-insert :
      (key x : ℕ) (m : Dict (List ℕ))
      → waiting (insert key (lookup_or key [] m ++ x ∷ []) m) ≡ waiting m + one_if (x == tx)
  unfolding waiting insert lookup_or lookup
  waiting-insert key x [] = unfold count in ground arith
  waiting-insert key x ((k, txs) ∷ m) = ground (arith, waiting-insert key x m, count-snoc txs x)

  waiting-remove :
      (key : ℕ) (m : Dict (List ℕ)) (txs : List ℕ)
      → lookup key m ≡ some txs
      → waiting m ≡ waiting (remove key m) + count txs
  unfolding waiting remove lookup
  waiting-remove key [] txs e = cc
  waiting-remove key ((k, ys) ∷ m) txs e = ground (arith, e, waiting-remove key m txs)

  -- What a channel has had and still waits for.
  abbrev total : State → ℕ
  total s = answers s.effects + waiting s.pending_retrievals

  module _ (env : Env) where
    send-total :
        (x key : ℕ) (value : List ℕ) (s s' : State)
        → send env x (answered x key value) s ≡ ok s'
        → total s' ≡ total s + one_if (x == tx)
    unfolding send answers
    send-total x key value s s' e =
        let (_, is) = assert-eq-ok (env.is_open x) e in
        subst (λ s'. total s' ≡ total s + one_if (x == tx)) is (omega arith)

    send_all-total :
        (txs : List ℕ) (key : ℕ) (value : List ℕ) (s s' : State)
        → send_all env txs key value s ≡ ok s'
        → total s' ≡ total s + count txs
    unfolding send_all count
    send_all-total [] key value s s' e =
        subst (λ s'. total s' ≡ total s + 0) (ok_injective e) (omega arith)
    send_all-total (x ∷ txs) key value s s' e =
        let (s1, first, rest) =
          >>=-eq-ok (send env x (answered x key value) s) (λ s. send_all env txs key value s) e in
        omega (arith, send-total x key value s s1 first, send_all-total txs key value s1 s' rest)

    on_record-total :
        (key : ℕ) (value : List ℕ) (s s' : State)
        → on_record env key value s ≡ ok s'
        → total s' ≡ total s
    unfolding on_record
    on_record-total key value s s' e =
        let (txs, found, sends) = >>=-eq-ok (expect (lookup key s.pending_retrievals)) _ e in
        omega (
          arith,
          send_all-total txs key value _ s' sends,
          waiting-remove key s.pending_retrievals txs (expect-ok _ txs found),
        )

    on_records-total :
        (found : List (ℕ × List ℕ)) (s s' : State)
        → on_records env found s ≡ ok s'
        → total s' ≡ total s
    unfolding on_records
    on_records-total [] s s' e = ap total (sym (ok_injective e))
    on_records-total ((key, value) ∷ found) s s' e =
        let (s1, first, rest) = >>=-eq-ok (on_record env key value s) (on_records env found) e in
        on_records-total found s1 s' rest ∙ on_record-total key value s s1 first

    replay-total :
        (topic key : ℕ) (value : List ℕ) (s s' : State)
        → replay env topic key value s ≡ ok s'
        → total s' ≡ total s
    unfolding replay send answers
    replay-total topic key value s s' e =
        let (x, found, sends) = >>=-eq-ok (expect (lookup topic s.subscriptions)) _ e in
        let (_, is) = assert-eq-ok (env.is_open x) sends in ap total (sym is)

    spread-total :
        (topic key : ℕ) (value : List ℕ) (s s' : State)
        → spread env topic key value s ≡ ok s'
        → total s' ≡ total s
    unfolding spread answers
    spread-total topic key value s s' e = replay-total topic key value _ s' e

    -- What a command adds to what its channel has asked for.
    abbrev asks : GossipCmd → ℕ
    asks (subscribe topic x) = 0
    asks (publish topic key value ephemeral) = 0
    asks (retrieve key x) = one_if (x == tx)

    put_total :
        (topic key : ℕ) (value : List ℕ) (s s' : State) (takes : Bool)
        → (if takes then spread env topic key value (log (put_record key value) s) else panic)
          ≡ ok s'
        → total s' ≡ total s
    unfolding answers
    put_total topic key value s s' true e = spread-total topic key value _ s' e
    put_total topic key value s s' false e = cc

    on_command-total :
        (c : GossipCmd) (s s' : State) → on_command env c s ≡ ok s' → total s' ≡ total s + asks c
    unfolding on_command answers
    on_command-total (subscribe topic x) s s' e =
        let (_, is) = assert-eq-ok (env.takes_topic topic) e in
        subst (λ s'. total s' ≡ total s + 0) is (omega arith)
    on_command-total (publish topic key value true) s s' e =
        omega (arith, spread-total topic key value s s' e)
    on_command-total (publish topic key value false) s s' e =
        omega (arith, put_total topic key value s s' (env.takes_record key value) e)
    on_command-total (retrieve key x) s s' e =
        subst (λ s'. total s' ≡ total s + one_if (x == tx)) (ok_injective e)
          (omega (arith, waiting-insert key x s.pending_retrievals))

    on_swarm-total : (e : SwarmEvent) (s s' : State) → on_swarm env e s ≡ ok s' → total s' ≡ total s
    unfolding on_swarm
    on_swarm-total (message topic bytes) s s' e =
        let (kv, _, sends) = >>=-eq-ok (expect (env.kv_deserialize bytes)) _ e in
        replay-total topic kv.0 kv.1 s s' sends
    on_swarm-total (records found) s s' e = on_records-total found s s' e
    on_swarm-total not_found s s' e = ap total (sym (ok_injective e))
    on_swarm-total other s s' e = ap total (sym (ok_injective e))

    asked-command : (c : GossipCmd) (es : List Event) → asked (command c ∷ es) ≡ asks c + asked es
    unfolding asked
    asked-command (subscribe topic x) es = omega arith
    asked-command (publish topic key value ephemeral) es = omega arith
    asked-command (retrieve key x) es = refl

    run_gossip-total :
        (es : List Event) (s s' : State)
        → run_gossip env es s ≡ ok s'
        → total s' ≡ total s + asked es
    unfolding run_gossip asked
    run_gossip-total [] s s' e = subst (λ s'. total s' ≡ total s + 0) (ok_injective e) (omega arith)
    run_gossip-total (command c ∷ es) s s' e =
        let (s1, first, rest) = >>=-eq-ok (on_command env c s) (run_gossip env es) e in
        omega
          (arith, on_command-total c s s1 first, run_gossip-total es s1 s' rest, asked-command c es)
    run_gossip-total (swarm x ∷ es) s s' e =
        let (s1, first, rest) = >>=-eq-ok (on_swarm env x s) (run_gossip env es) e in
        omega (arith, on_swarm-total x s s1 first, run_gossip-total es s1 s' rest)

    -- Up to a panic, and whatever commands come and whatever libp2p reports, in whatever order: a channel
    -- has been answered as often as it asked for records, less the times that it still waits.
    pub run_gossip-answers :
        (es : List Event) (s : State)
        → run_gossip env es start ≡ ok s
        → answers s.effects + waiting s.pending_retrievals ≡ asked es
    unfolding answers waiting
    run_gossip-answers es s e = omega (arith, run_gossip-total es start s e)
