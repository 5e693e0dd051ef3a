-- ===== src/Consensus/Core/Keeps.antt =====
-- Steps of consensus/src/core.rs that keep a predicate of the state, whether they end well or not.
use accountability_gadget_pr.Base.{
  ◌≡◌, refl, Option, none, some, Bool, true, false, Outcome, ok, err, if◌then◌else◌,
}
use accountability_gadget_pr.Consensus.Error.{ConsensusResult}
use accountability_gadget_pr.Consensus.Core.Monad.{State, M, after, ◌>>=◌, pure, lift, gets, modify}
use accountability_gadget_pr.Consensus.Core.Handlers

module _ (P : State → Type 0) where
  unfoldable pub Keeps : {A : Type 0} → M A → Type 0
  Keeps m = (s : State) → P s → P (m s).1

  after-Keeps :
      {A B : Type 0} (f : A → M B)
      → ((a : A) (s : State) → P s → P (f a s).1)
      → (r : ConsensusResult A) (s : State) → P s
      → P (after f (r, s)).1
  after-Keeps f h (ok a) s p = h a s p
  after-Keeps f h (err e) s p = p
  after-Keeps f h Outcome.panic s p = p
  after-Keeps f h Outcome.out_of_fuel s p = p

  pub Keeps-bind :
      {A B : Type 0} (m : M A) (f : A → M B) → Keeps m → ((a : A) → Keeps (f a)) → Keeps (m >>= f)
  unfolding Keeps ◌>>=◌
  Keeps-bind m f h k s p = after-Keeps f k (m s).0 (m s).1 (h s p)

  after-Keeps_with :
      {A B : Type 0} (f : A → M B) (Q : A → Type 0)
      → ((a : A) → Q a → Keeps (f a))
      → (r : ConsensusResult A) (s : State) → P s
      → ((a : A) → r ≡ ok a → Q a)
      → P (after f (r, s)).1
  unfolding Keeps
  after-Keeps_with f Q k (ok a) s p q = k a (q a refl) s p
  after-Keeps_with f Q k (err e) s p q = p
  after-Keeps_with f Q k Outcome.panic s p q = p
  after-Keeps_with f Q k Outcome.out_of_fuel s p q = p

  -- The same, where `m` also shows something of its result.
  pub Keeps-bind_with :
      {A B : Type 0} (m : M A) (f : A → M B) (Q : A → Type 0)
      → ((s : State) → P s → P (m s).1 × ((a : A) → (m s).0 ≡ ok a → Q a))
      → ((a : A) → Q a → Keeps (f a))
      → Keeps (m >>= f)
  unfolding Keeps ◌>>=◌
  Keeps-bind_with m f Q h k s p = after-Keeps_with f Q k (m s).0 (m s).1 (h s p).0 (h s p).1

  pub Keeps-pure : {A : Type 0} (a : A) → Keeps (pure a)
  unfolding Keeps pure
  Keeps-pure a s p = p

  pub Keeps-modify : (f : State → State) → ((s : State) → P s → P (f s)) → Keeps (modify f)
  unfolding Keeps modify
  Keeps-modify f h s p = h s p

  pub Keeps-fail : {A : Type 0} (r : ConsensusResult A) → Keeps (lift r)
  unfolding Keeps lift
  Keeps-fail r s p = p

  -- A check first: what follows may use that it passed.
  pub Keeps-lift :
      {A B : Type 0} (r : ConsensusResult A) (f : A → M B)
      → ((a : A) → r ≡ ok a → Keeps (f a))
      → Keeps (lift r >>= f)
  unfolding Keeps ◌>>=◌ lift
  Keeps-lift (ok a) f k s p = k a refl s p
  Keeps-lift (err e) f k s p = p
  Keeps-lift Outcome.panic f k s p = p
  Keeps-lift Outcome.out_of_fuel f k s p = p

  -- The result and the state after a step: `P` holds there, and a value has the property `Q`.
  abbrev pub Post : {A : Type 0} → (A → State → Type 0) → ConsensusResult A × State → Type 0
  Post {A = A} Q x = P x.1 × ((a : A) → x.0 ≡ ok a → Q a x.1)

  after-Post :
      {A B : Type 0} (f : A → M B) (Q : A → State → Type 0) (W : B → State → Type 0)
      → ((a : A) (s : State) → P s → Q a s → Post W (f a s))
      → (r : ConsensusResult A) (s : State) → Post Q (r, s)
      → Post W (after f (r, s))
  after-Post f Q W k (ok a) s (p, q) = k a s p (q a refl)
  after-Post f Q W k (err e) s (p, q) = (p, λ b h. cc)
  after-Post f Q W k Outcome.panic s (p, q) = (p, λ b h. cc)
  after-Post f Q W k Outcome.out_of_fuel s (p, q) = (p, λ b h. cc)

  pub Post-bind :
      {A B : Type 0} (m : M A) (f : A → M B) (Q : A → State → Type 0) (W : B → State → Type 0)
      (s : State)
      → Post Q (m s)
      → ((a : A) (s : State) → P s → Q a s → Post W (f a s))
      → Post W ((m >>= f) s)
  unfolding ◌>>=◌
  Post-bind m f Q W s h k = after-Post f Q W k (m s).0 (m s).1 h

  -- The same, where nothing is asked of the value of the second step.
  pub Post-then :
      {A B : Type 0} (m : M A) (f : A → M B) (Q : A → State → Type 0) (s : State)
      → Post Q (m s)
      → ((a : A) (s : State) → P s → Q a s → P (f a s).1)
      → P ((m >>= f) s).1
  Post-then {B = B} m f Q s h k =
      (Post-bind m f Q (λ _ _. Unit {0}) s h (λ a s p q. (k a s p q, λ b e. tt))).0

  pub Post-if :
      {A : Type 0} (Q : A → State → Type 0) (b : Bool) (m n : M A) (s : State)
      → (b ≡ true → Post Q (m s))
      → Post Q (n s)
      → Post Q ((if b then m else n) s)
  Post-if Q true m n s h k = h refl
  Post-if Q false m n s h k = k

  -- A reading of the state, where what follows may use that the value is read from it.
  pub Keeps-gets_from :
      {A B : Type 0} (g : State → A) (f : A → M B)
      → ((s : State) → P s → P (f (g s) s).1)
      → Keeps (gets g >>= f)
  unfolding Keeps ◌>>=◌ gets
  Keeps-gets_from g f k s p = k s p

  -- A reading of the state changes nothing.
  pub Keeps-gets :
      {A B : Type 0} (g : State → A) (f : A → M B) → ((a : A) → Keeps (f a)) → Keeps (gets g >>= f)
  unfolding Keeps ◌>>=◌ gets
  Keeps-gets g f k s p = k (g s) s p

  pub Keeps-if :
      {A : Type 0} (b : Bool) (m n : M A) → Keeps m → Keeps n → Keeps (if b then m else n)
  Keeps-if true m n h k = h
  Keeps-if false m n h k = k

  pub Keeps-if_with :
      {A : Type 0} (b : Bool) (m n : M A)
      → (b ≡ true → Keeps m)
      → Keeps n
      → Keeps (if b then m else n)
  Keeps-if_with true m n h k = h refl
  Keeps-if_with false m n h k = k

  pub Keeps-none_or :
      {A : Type 0} (o : Option A) (f : A → M (Unit {0}))
      → ((a : A) → Keeps (f a))
      → Keeps (Handlers.none_or o f)
  unfolding Keeps Handlers.none_or pure
  Keeps-none_or none f k s p = p
  Keeps-none_or (some a) f k s p = k a s p
