-- ===== src/Tests/Table.antt =====
-- A hash that is a table, and a comparison of blocks, for runs of several nodes.
use accountability_gadget_pr.Base.{
  ℕ, suc, ◌≡◌, refl, sym, ◌∙◌, List, [], ◌∷◌, map, Option, none, some, Bool, true, false, ◌&&◌,
  ◌==◌, contains, Distinct, arith, if◌then◌else◌, Bool-cases, inl, inr,
}
use accountability_gadget_pr.Crypto.{Digest, PublicKey, Signature}
use accountability_gadget_pr.Consensus.Messages.{Block, Tc}

abbrev pub same : List ℕ → List ℕ → Bool
same [] [] = true
same [] (y ∷ ys) = false
same (x ∷ xs) [] = false
same (x ∷ xs) (y ∷ ys) = x == y && same xs ys

same_sound : (xs ys : List ℕ) → same xs ys ≡ true → xs ≡ ys
same_sound [] [] e = refl
same_sound [] (y ∷ ys) e = cc
same_sound (x ∷ xs) [] e = cc
same_sound (x ∷ xs) (y ∷ ys) e =
    let here : x ≡ y = ground arith in let rest = same_sound xs ys (ground arith) in cc

-- The digest that the table has for the bytes, 0 for others.
unfoldable pub find : List (List ℕ × Digest) → List ℕ → Digest
find [] m = 0
find ((k, d) ∷ table) m = if same k m then d else find table m

-- The bytes that the table has for a digest.
unfoldable pub bytes_of : List (List ℕ × Digest) → Digest → List ℕ
bytes_of [] d = []
bytes_of ((k, e) ∷ table) d = if e == d then k else bytes_of table d

abbrev pub digests : List (List ℕ × Digest) → List ℕ
digests table = map (λ e. e.1) table

found_in :
    (table : List (List ℕ × Digest)) (m : List ℕ) (d : ℕ)
    → find table m ≡ suc d
    → contains (suc d) (digests table) ≡ true
unfolding find
found_in [] m d e = absurd (omega (arith, e))
found_in ((k, x) ∷ table) m d e = ground (arith, found_in table m d)

pub find-bytes_of :
    (table : List (List ℕ × Digest)) (m : List ℕ) (d : ℕ)
    → Distinct (digests table)
    → find table m ≡ suc d
    → m ≡ bytes_of table (suc d)
unfolding find bytes_of
find-bytes_of [] m d n e = absurd (omega (arith, e))
find-bytes_of ((k, x) ∷ table) m d n e = elim (Bool-cases (same k m)) [
  | inl here ↦ let is = same_sound k m here in ground (arith, is)
  | inr there ↦
      let rest : find table m ≡ suc d = ground arith in
      let member = found_in table m d rest in
      let is = find-bytes_of table m d n.1 rest in ground (arith, member, is)
]

votes_eq : List (PublicKey × Signature) → List (PublicKey × Signature) → Bool
votes_eq [] [] = true
votes_eq [] (y ∷ ys) = false
votes_eq (x ∷ xs) [] = false
votes_eq ((k, s) ∷ xs) ((k', s') ∷ ys) =
    k == k' && (s.part1 == s'.part1 && (s.part2 == s'.part2 && votes_eq xs ys))

signature_eta : (s s' : Signature) → s.part1 ≡ s'.part1 → s.part2 ≡ s'.part2 → s ≡ s'
signature_eta s s' e f i = record { part1 = e i; part2 = f i }

votes_eq_sound : (xs ys : List (PublicKey × Signature)) → votes_eq xs ys ≡ true → xs ≡ ys
unfolding votes_eq
votes_eq_sound [] [] e = refl
votes_eq_sound [] (y ∷ ys) e = cc
votes_eq_sound (x ∷ xs) [] e = cc
votes_eq_sound ((k, s) ∷ xs) ((k', s') ∷ ys) e =
    let key : k ≡ k' = ground arith in
    let signature = signature_eta s s' (ground arith) (ground arith) in
    let rest = votes_eq_sound xs ys (ground arith) in λ i. (key i, signature i) ∷ rest i

has_none : Option Tc → Bool
has_none none = true
has_none (some tc) = false

has_none_sound : (o : Option Tc) → has_none o ≡ true → o ≡ none
unfolding has_none
has_none_sound none e = refl
has_none_sound (some tc) e = cc

-- Whether a block is the other, which has no TC.
unfoldable pub block_eq : Block → Block → Bool
unfolding has_none votes_eq
block_eq b b' =
    has_none b.tc
    && (b.author == b'.author
        && (b.round == b'.round
            && (same b.payload b'.payload
                && (b.signature.part1 == b'.signature.part1
                    && (b.signature.part2 == b'.signature.part2
                        && (b.qc.hash == b'.qc.hash
                            && (b.qc.round == b'.qc.round && votes_eq b.qc.votes b'.qc.votes)))))))

pub block_eq_sound : (b b' : Block) → b'.tc ≡ none → block_eq b b' ≡ true → b ≡ b'
unfolding block_eq
block_eq_sound b b' n e =
    let tc = has_none_sound b.tc (ground arith) ∙ sym n in
    let author : b.author ≡ b'.author = ground arith in
    let round : b.round ≡ b'.round = ground arith in
    let payload = same_sound b.payload b'.payload (ground arith) in
    let signature = signature_eta b.signature b'.signature (ground arith) (ground arith) in
    let hash : b.qc.hash ≡ b'.qc.hash = ground arith in
    let qc_round : b.qc.round ≡ b'.qc.round = ground arith in
    let votes = votes_eq_sound b.qc.votes b'.qc.votes (ground arith) in
    λ i. record {
      qc = record { hash = hash i; round = qc_round i; votes = votes i };
      tc = tc i;
      author = author i;
      round = round i;
      payload = payload i;
      signature = signature i;
    }
