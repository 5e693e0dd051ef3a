-- ===== src/Base/Dict.antt =====
-- A hash map with numbers for keys, as an association list in which each key stands once.
use Prim.Native.Nat.{ℕ, suc, ◌≤◌}
use mathlib.Core.Path.{◌≡◌, refl}
use mathlib.Core.Bool.{Bool, true, false, ◌||◌}
use mathlib.Core.List.{List, [], ◌∷◌, map}
use mathlib.Core.Option.{Option, none, some}
use native.Mathlib.Omega.{arith}
use mathlib.Core.Logic.{inl, inr}
use accountability_gadget_pr.Base.Tests.{◌==◌, if◌then◌else◌, Option-cases, Bool-cases, ==_refl}
use accountability_gadget_pr.Base.Lists.{All, filter, length, contains, Distinct}

abbrev pub Dict {ℓ} : Type ℓ → Type ℓ
Dict V = List (ℕ × V)

module _ {ℓ} {V : Type ℓ} where
  unfoldable pub lookup : ℕ → Dict V → Option V
  lookup k [] = none
  lookup k ((j, v) ∷ m) = if j == k then some v else lookup k m

  unfoldable pub insert : ℕ → V → Dict V → Dict V
  insert k v [] = (k, v) ∷ []
  insert k v ((j, w) ∷ m) = if j == k then (k, v) ∷ m else (j, w) ∷ insert k v m

  -- `retain` by a test on the key.
  unfoldable pub retain_keys : (ℕ → Bool) → Dict V → Dict V
  retain_keys p m = filter (λ e. p e.0) m

  unfoldable pub contains_key : ℕ → Dict V → Bool
  contains_key k m = elim (lookup k m) [ none ↦ false | some _ ↦ true ]

  -- The value under a key, or the given one where the key is missing.
  unfoldable pub lookup_or : ℕ → V → Dict V → V
  lookup_or k v m = elim (lookup k m) [ none ↦ v | some w ↦ w ]

  abbrev pub keys : Dict V → List ℕ
  keys = map (λ e. e.0)

  abbrev pub values : Dict V → List V
  values = map (λ e. e.1)

  pub lookup-insert :
      (written read : ℕ) (value : V) (m : Dict V)
      → lookup read (insert written value m)
        ≡ (if written == read then some value else lookup read m)
  unfolding lookup insert
  lookup-insert written read value [] = refl
  lookup-insert written read value (entry ∷ rest) =
      ground (arith, lookup-insert written read value rest)

  pub lookup-retain_keys :
      (p : ℕ → Bool) (k : ℕ) (m : Dict V)
      → lookup k (retain_keys p m) ≡ (if p k then lookup k m else none)
  unfolding lookup retain_keys
  lookup-retain_keys p k [] = ground arith
  lookup-retain_keys p k ((j, w) ∷ m) = ground (arith, lookup-retain_keys p k m)

  pub lookup_or-insert :
      (written read : ℕ) (value missing : V) (m : Dict V)
      → lookup_or read missing (insert written value m)
        ≡ (if written == read then value else lookup_or read missing m)
  unfolding lookup_or
  lookup_or-insert written read value missing m =
      rw (lookup_or, lookup-insert written read value m)
        (elim (Bool-cases (written == read)) [ inl e ↦ rw e refl | inr e ↦ rw e refl ])

  pub lookup_or-retain_keys :
      (p : ℕ → Bool) (k : ℕ) (missing : V) (m : Dict V)
      → lookup_or k missing (retain_keys p m) ≡ (if p k then lookup_or k missing m else missing)
  unfolding lookup_or
  lookup_or-retain_keys p k missing m =
      rw (lookup_or, lookup-retain_keys p k m)
        (elim (Bool-cases (p k)) [ inl e ↦ rw e refl | inr e ↦ rw e refl ])

  -- A property of each entry, kept by the operations.
  pub All-insert {κ} :
      (P : ℕ × V → Type κ) (k : ℕ) (v : V) (m : Dict V) → All P m → P (k, v) → All P (insert k v m)
  unfolding insert
  All-insert P k v [] h p = (p, tt)
  All-insert P k v ((j, w) ∷ m) h p = ground (arith, All-insert P k v m h.1 p)

  pub All-lookup {κ} :
      (P : ℕ × V → Type κ) (k : ℕ) (v : V) (m : Dict V) → All P m → lookup k m ≡ some v → P (k, v)
  unfolding lookup
  All-lookup P k v [] h e = cc
  All-lookup P k v ((j, w) ∷ m) h e = ground (arith, All-lookup P k v m h.1)

  pub All-lookup_or {κ} :
      (P : ℕ × V → Type κ) (k : ℕ) (v : V) (m : Dict V)
      → All P m
      → P (k, v)
      → P (k, lookup_or k v m)
  unfolding lookup_or
  All-lookup_or P k v m h p = elim (Option-cases (lookup k m)) [
    | inl e ↦ rw (e, lookup_or) p
    | inr (w, e) ↦ rw (e, lookup_or) (All-lookup P k w m h e)
  ]

  pub length-insert : (k : ℕ) (v : V) (m : Dict V) → length m ≤ length (insert k v m)
  unfolding insert
  length-insert k v [] = omega arith
  length-insert k v ((j, w) ∷ m) = ground (arith, length-insert k v m)

  pub length-insert_le : (k : ℕ) (v : V) (m : Dict V) → length (insert k v m) ≤ suc (length m)
  unfolding insert
  length-insert_le k v [] = omega arith
  length-insert_le k v ((j, w) ∷ m) = ground (arith, length-insert_le k v m)

  pub length-insert_new :
      (k : ℕ) (v : V) (m : Dict V) → lookup k m ≡ none → length (insert k v m) ≡ suc (length m)
  unfolding insert lookup
  length-insert_new k v [] h = refl
  length-insert_new k v ((j, w) ∷ m) h = ground (arith, length-insert_new k v m)

  pub contains_key-lookup :
      (k : ℕ) (v : V) (m : Dict V) → lookup k m ≡ some v → contains_key k m ≡ true
  unfolding contains_key
  contains_key-lookup k v m e = rw (e, contains_key) refl

  pub contains_key-none : (k : ℕ) (m : Dict V) → lookup k m ≡ none → contains_key k m ≡ false
  unfolding contains_key
  contains_key-none k m e = rw (e, contains_key) refl

  pub contains_key-insert :
      (written read : ℕ) (value : V) (m : Dict V)
      → contains_key read m ≡ true
      → contains_key read (insert written value m) ≡ true
  unfolding contains_key
  contains_key-insert written read value m h = elim (Bool-cases (written == read)) [
    | inl e ↦ rw (contains_key, lookup-insert written read value m, e) refl
    | inr e ↦ rw (contains_key, lookup-insert written read value m, e) h
  ]

  pub contains_key-inserted : (k : ℕ) (v : V) (m : Dict V) → contains_key k (insert k v m) ≡ true
  unfolding contains_key
  contains_key-inserted k v m = rw (contains_key, lookup-insert k k v m, ==_refl k) refl

  pub contains-keys-insert :
      (k j : ℕ) (v : V) (m : Dict V)
      → contains j (keys (insert k v m)) ≡ (j == k || contains j (keys m))
  unfolding insert
  contains-keys-insert k j v [] = refl
  contains-keys-insert k j v ((i, w) ∷ m) = ground (arith, contains-keys-insert k j v m)

  pub insert-Distinct :
      (k : ℕ) (v : V) (m : Dict V) → Distinct (keys m) → Distinct (keys (insert k v m))
  unfolding insert
  insert-Distinct k v [] d = (refl, tt)
  insert-Distinct k v ((i, w) ∷ m) d =
      ground (arith, insert-Distinct k v m d.1, contains-keys-insert k i v m)

  pub contains-keys-lookup :
      (k : ℕ) (v : V) (m : Dict V) → lookup k m ≡ some v → contains k (keys m) ≡ true
  unfolding lookup
  contains-keys-lookup k v [] e = cc
  contains-keys-lookup k v ((i, w) ∷ m) e = ground (arith, contains-keys-lookup k v m)

  pub length-keys : (m : Dict V) → length (keys m) ≡ length m
  length-keys [] = refl
  length-keys (e ∷ m) = omega (arith, length-keys m)

  pub length-values : (m : Dict V) → length (values m) ≡ length m
  length-values [] = refl
  length-values (e ∷ m) = omega (arith, length-values m)

  pub All-keys-insert {κ} :
      (P : ℕ → Type κ) (k : ℕ) (v : V) (m : Dict V)
      → All P (keys m)
      → P k
      → All P (keys (insert k v m))
  unfolding insert
  All-keys-insert P k v [] h p = (p, tt)
  All-keys-insert P k v ((i, w) ∷ m) h p = ground (arith, All-keys-insert P k v m h.1 p)
