-- ===== src/Base/Steps.antt =====
-- Methods that change a state and may fail: what Go writes as a call with an error, and the early return
-- that follows it. `M` of a component is `D → (E ⊎ A) × D` for its state and its errors.
use mathlib.Core.Path.{◌≡◌, refl, subst}
use mathlib.Core.Logic.{◌⊎◌, inl, inr}
use mathlib.Core.Bool.{Bool}
use mathlib.Core.Option.{Option, none, some}
use native.Mathlib.Omega.{arith}
use toposcope.Base.Tests.{if◌then◌else◌}

-- if err != nil { return …: err }
abbrev pub or_fail : {E A : Type 0} → E → Option A → E ⊎ A
or_fail e none = inl e
or_fail e (some a) = inr a

module _ {E D A B : Type 0} where
  -- What follows a step: an error ends the method.
  unfoldable pub resume : (A → D → (E ⊎ B) × D) → (E ⊎ A) × D → (E ⊎ B) × D
  resume f (inl e, d) = (inl e, d)
  resume f (inr a, d) = f a d

  infixl 5 ◌>>=◌ ◌>>◌
  unfoldable pub ◌>>=◌ : (D → (E ⊎ A) × D) → (A → D → (E ⊎ B) × D) → D → (E ⊎ B) × D
  unfolding resume
  ◌>>=◌ m f d = resume f (m d)

  abbrev pub ◌>>◌ : (D → (E ⊎ A) × D) → (D → (E ⊎ B) × D) → D → (E ⊎ B) × D
  m >> k = m >>= λ _. k

module _ {E D : Type 0} where
  abbrev pub done : {A : Type 0} → A → D → (E ⊎ A) × D
  done a d = (inr a, d)

  abbrev pub expect : {A : Type 0} → E → Option A → D → (E ⊎ A) × D
  expect e o d = (or_fail e o, d)

  abbrev pub call : {A : Type 0} → E → (D → Option A × D) → D → (E ⊎ A) × D
  call e f d = let (o, d') = f d in (or_fail e o, d')

  abbrev pub exec : E → (D → Bool × D) → D → (E ⊎ Unit {0}) × D
  exec e f d = let (b, d') = f d in (if b then inr tt else inl e, d')

module _ {E D : Type 0} where
  -- What holds after a run: `Q` of the value and the state if it succeeds, `F` of the state if not.
  abbrev pub Ends : {A : Type 0} → (A → D → Type 0) → (D → Type 0) → (E ⊎ A) × D → Type 0
  Ends Q F (inl e, d) = F d
  Ends Q F (inr a, d) = Q a d

  -- From a state with `P` the method ends so.
  abbrev pub Meets :
      {A : Type 0} → (D → Type 0) → (D → (E ⊎ A) × D) → (A → D → Type 0) → (D → Type 0) → Type 0
  Meets P m Q F = (d : D) → P d → Ends Q F (m d)

  resume_meets :
      {A B : Type 0} (Q : A → D → Type 0) (R : B → D → Type 0) (F : D → Type 0)
      (f : A → D → (E ⊎ B) × D) (p : (E ⊎ A) × D)
      → Ends Q F p
      → ((a : A) → Meets (Q a) (f a) R F)
      → Ends R F (resume f p)
  unfolding resume
  resume_meets Q R F f (inl e, d) h k = h
  resume_meets Q R F f (inr a, d) h k = k a d h

  pub bind_meets :
      {A B : Type 0} (P : D → Type 0) (Q : A → D → Type 0) (R : B → D → Type 0) (F : D → Type 0)
      (m : D → (E ⊎ A) × D) (f : A → D → (E ⊎ B) × D)
      → Meets P m Q F
      → ((a : A) → Meets (Q a) (f a) R F)
      → Meets P (m >>= f) R F
  unfolding ◌>>=◌
  bind_meets P Q R F m f h k d p = resume_meets Q R F f (m d) (h d p) k

  -- A test that reads the state.
  pub expect_meets :
      {A : Type 0} (P : D → Type 0) (Q : A → D → Type 0) (F : D → Type 0) (e : E) (o : D → Option A)
      → ((d : D) → P d → F d)
      → ((d : D) (a : A) → P d → o d ≡ some a → Q a d)
      → Meets P (λ d. (or_fail e (o d), d)) Q F
  expect_meets P Q F e o h k d p = at (o d) refl
    where
      at : (x : Option _) → o d ≡ x → Ends Q F (or_fail e x, d)
      at none s = h d p
      at (some a) s = k d a p s

  pub Ends-value :
      {A : Type 0} (Q : A → D → Type 0) (F : D → Type 0) (p : (E ⊎ A) × D) (a : A)
      → Ends Q F p
      → p.0 ≡ inr a
      → Q a p.1
  Ends-value Q F (inl e, d) a h r = absurd (cc)
  Ends-value Q F (inr b, d) a h r = subst (λ x. Q x d) (let same : b ≡ a = ground arith in same) h
