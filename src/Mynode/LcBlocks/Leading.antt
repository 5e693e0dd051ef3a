-- ===== src/Mynode/LcBlocks/Leading.antt =====
-- The loop of `leading_tip_extending` in mynode/src/lcblocks.rs.
use accountability_gadget_pr.Base.{
  All_of_contains, All_at, ◌≡◌, refl, sym, ◌∙◌, ap, subst, ◌⊎◌, inl, inr, ◌≢◌, List, [], ◌∷◌, Bool,
  true, if◌then◌else◌, contains, All, ok, arith, Bool-cases,
}
use accountability_gadget_pr.Crypto.{Digest}
use accountability_gadget_pr.Mynode.LcBlocks.{
  LcBlock, LcBlockTree, tie_break, consider, best_tip, is_prefix_of, leading_tip_extending,
}
use accountability_gadget_pr.Mynode.LcBlocks.Invariant.{IsBlock, IsTree}
use accountability_gadget_pr.Mynode.LcBlocks.Ancestors.{
  Ancestor, here, is_prefix_of-Decides, Ancestor-IsBlock,
}
use accountability_gadget_pr.Mynode.LcBlocks.Tips.{
  Leads, Leads-refl, Leads-trans, Leads-total, Leads-antisym,
}

module _ {root : Digest} {t : LcBlockTree} (i : IsTree root t) (checkpoint : Digest) (pc : LcBlock)
    (ec : IsBlock t checkpoint pc) where
  consider_loses :
      (best tip : Digest)
      → tie_break t tip best ≡ ok best
      → tip ≢ best
      → consider t checkpoint best tip ≡ ok best
  unfolding consider
  consider_loses best tip e ne = ground (arith, e, ne)

  consider_wins :
      (best tip : Digest) (extends : Bool)
      → Leads t tip best
      → is_prefix_of t checkpoint tip ≡ ok extends
      → consider t checkpoint best tip ≡ ok (if extends then tip else best)
  unfolding consider
  consider_wins best tip extends e f = ground (arith, e, f)

  -- What one round leaves: a descendant of the checkpoint that leads the best so far, and leads the tip
  -- if that descends from the checkpoint.
  record Round (best tip best' : Digest) : Type 0 where
    extends : Ancestor t checkpoint best'
    leads_best : Leads t best' best
    leads_tip : Ancestor t checkpoint tip → Leads t best' tip
    from : (best' ≡ best) ⊎ (best' ≡ tip)

  consider-Round :
      (best tip : Digest) (pt : LcBlock)
      → Ancestor t checkpoint best
      → IsBlock t tip pt
      → (best' : Digest) × (consider t checkpoint best tip ≡ ok best') × Round best tip best'
  consider-Round best tip pt r et =
      let (pb, eb) = Ancestor-IsBlock r in
      elim (Leads-total i tip best pt pb et eb) [
        | inr (e, ne, l) ↦ (
          best,
          consider_loses best tip e ne,
          record {
            extends = r;
            leads_best = Leads-refl i best pb eb;
            leads_tip = λ _. l;
            from = inl refl;
          },
        )
        | inl l ↦
            let (v, e, iff) = is_prefix_of-Decides i checkpoint tip pc pt ec et in
            elim (Bool-cases v) [
              | inl yes_v ↦ (
                tip,
                consider_wins best tip v l e ∙ ap ok (ap (λ w. if w then tip else best) yes_v),
                record {
                  extends = iff.0 yes_v;
                  leads_best = l;
                  leads_tip = λ _. Leads-refl i tip pt et;
                  from = inr refl;
                },
              )
              | inr no_v ↦ (
                best,
                consider_wins best tip v l e ∙ ap ok (ap (λ w. if w then tip else best) no_v),
                record {
                  extends = r;
                  leads_best = Leads-refl i best pb eb;
                  leads_tip = λ a. cc (iff.1 a);
                  from = inl refl;
                },
              )
            ]
      ]

  -- What the loop leaves.
  record Best (best : Digest) (tips : List Digest) (r : Digest) : Type 0 where
    extends : Ancestor t checkpoint r
    leads_best : Leads t r best
    leads_tips : All (λ x. Ancestor t checkpoint x → Leads t r x) tips
    from : (r ≡ best) ⊎ (contains r tips ≡ true)

  best_tip-Best :
      (best : Digest) (tips : List Digest)
      → Ancestor t checkpoint best
      → All (λ x. (b : LcBlock) × IsBlock t x b) tips
      → (r : Digest) × (best_tip t checkpoint best tips ≡ ok r) × Best best tips r
  unfolding best_tip
  best_tip-Best best [] a known =
      let (pb, eb) = Ancestor-IsBlock a in
      (
        best,
        refl,
        record {
          extends = a;
          leads_best = Leads-refl i best pb eb;
          leads_tips = tt;
          from = inl refl;
        },
      )
  best_tip-Best best (tip ∷ tips) a known =
      let (pb, eb) = Ancestor-IsBlock a in
      let (pt, et) = known.0 in
      let (best', e, round) = consider-Round best tip pt a et in
      let (r, e', rest) = best_tip-Best best' tips round.extends known.1 in
      let (p', ep') = Ancestor-IsBlock round.extends in
      let (pr, er) = Ancestor-IsBlock rest.extends in
      (
        r,
        rw e e',
        record {
          extends = rest.extends;
          leads_best =
              Leads-trans i r best' best pr p' pb er ep' eb rest.leads_best round.leads_best;
          leads_tips = (
            λ x. Leads-trans i r best' tip pr p' pt er ep' et rest.leads_best (round.leads_tip x),
            rest.leads_tips,
          );
          from = from_cases rest.from round.from;
        },
      )
    where
      from_cases :
          {r best' : Digest}
          → (r ≡ best') ⊎ (contains r tips ≡ true)
          → (best' ≡ best) ⊎ (best' ≡ tip)
          → (r ≡ best) ⊎ (contains r (tip ∷ tips) ≡ true)
      from_cases f g = ground arith

  -- The best of the checkpoint and the tips that descend from it.
  pub record IsLeading (r : Digest) : Type 0 where
    pub extends : Ancestor t checkpoint r
    pub from : (r ≡ checkpoint) ⊎ (contains r t.idx_tips ≡ true)
    pub leads_checkpoint : Leads t r checkpoint
    pub leads_tips :
        (x : Digest) → contains x t.idx_tips ≡ true → Ancestor t checkpoint x → Leads t r x

  -- In a well-formed tree that holds the checkpoint, `leading_tip_extending` returns: the checkpoint or
  -- a tip, which descends from the checkpoint, and which wins the tie against the checkpoint and
  -- against each tip that descends from it.
  pub leading_tip_extending-IsLeading :
      (r : Digest) × (leading_tip_extending t checkpoint ≡ ok r) × IsLeading r
  unfolding leading_tip_extending
  leading_tip_extending-IsLeading =
      let (r, e, best) =
        best_tip-Best checkpoint t.idx_tips (here pc ec)
          (All_of_contains t.idx_tips i.tips_known) in
      (
        r,
        e,
        record {
          extends = best.extends;
          from = best.from;
          leads_checkpoint = best.leads_best;
          leads_tips = λ x known.
              All_at (λ x. Ancestor t checkpoint x → Leads t r x) t.idx_tips x best.leads_tips
                known;
        },
      )

  Leads-other :
      (r s : Digest) (tips tips' : List Digest)
      → ((x : Digest) → contains x tips ≡ contains x tips')
      → Best checkpoint tips r
      → Best checkpoint tips' s
      → Leads t s r
  Leads-other r s tips tips' same b b' = elim b.from [
    | inl at ↦ subst (λ z. Leads t s z) (sym at) b'.leads_best
    | inr at ↦
        All_at (λ x. Ancestor t checkpoint x → Leads t s x) tips' r b'.leads_tips
          (sym (same r) ∙ at) b.extends
  ]

  -- In a well-formed tree that holds the checkpoint: the order in which known tips are walked, and how
  -- often each, does not change the outcome.
  pub best_tip_order :
      (tips tips' : List Digest)
      → All (λ x. (b : LcBlock) × IsBlock t x b) tips
      → All (λ x. (b : LcBlock) × IsBlock t x b) tips'
      → ((x : Digest) → contains x tips ≡ contains x tips')
      → best_tip t checkpoint checkpoint tips ≡ best_tip t checkpoint checkpoint tips'
  best_tip_order tips tips' known known' same =
      let (r, e, b) = best_tip-Best checkpoint tips (here pc ec) known in
      let (s, e', b') = best_tip-Best checkpoint tips' (here pc ec) known' in
      let (pr, er) = Ancestor-IsBlock b.extends in
      let (ps, es) = Ancestor-IsBlock b'.extends in
      e
      ∙ ap ok (
          Leads-antisym i r s pr ps er es (Leads-other s r tips' tips (λ x. sym (same x)) b' b)
            (Leads-other r s tips tips' same b b'))
      ∙ sym e'
