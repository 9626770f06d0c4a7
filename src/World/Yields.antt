-- ===== src/World/Yields.antt =====
-- Postconditions of actions: what holds of the result and the state when an action succeeds. One
-- rule for each way to build an action.
use mathlib.Core.Path.{subst}
use mailservice.Prelude.{ℕ, ◌+◌, ◌≡◌, ⊤, Bytes, Bool-cases, inl, inr}
use mailservice.Ports.{Result, ok, err}
use mailservice.World.{Env, World, M, continue, rewrap, wrapping, call, ◌>>=◌}

module _ {A : Type 0} where
  -- The postcondition of what an action has returned; an error has none.
  abbrev pub Yields : Result A × World → (A → World → Type 0) → Type 0
  Yields (ok a, w) Q = Q a w
  Yields (err e, w) Q = ⊤

  pub Yields-weaken :
      (x : Result A × World) (Q R : A → World → Type 0)
      → Yields x Q
      → ((a : A) (w : World) → Q a w → R a w)
      → Yields x R
  Yields-weaken (ok a, w) Q R h k = k a w h
  Yields-weaken (err e, w) Q R h k = tt

  -- A postcondition that always holds
  pub Yields-always :
      (x : Result A × World) (Q : A → World → Type 0) → ((a : A) (w : World) → Q a w) → Yields x Q
  Yields-always (ok a, w) Q h = h a w
  Yields-always (err e, w) Q h = tt

  -- From the equation of a run that succeeded
  pub Yields_of :
      (Q : A → World → Type 0) (x : Result A × World) {a : A} {w : World}
      → Yields x Q
      → x ≡ (ok a, w)
      → Q a w
  Yields_of Q x h e = subst (λ y. Yields y Q) e h

  pub Yields-wrapping :
      (text : Bytes) (m : M A) (w : World) (Q : A → World → Type 0)
      → Yields (m w) Q
      → Yields (wrapping text m w) Q
  unfolding wrapping
  Yields-wrapping text m w Q h = go (m w).0 (m w).1 h
    where
      go : (r : Result A) (w' : World) → Yields (r, w') Q → Yields (rewrap text r, w') Q
      go (ok a) w' k = k
      go (err e) w' k = tt

module _ {A B : Type 0} where
  pub Yields-bind :
      (m : M A) (f : A → M B) (w : World) (Q : B → World → Type 0)
      → Yields (m w) (λ a w'. Yields (f a w') Q)
      → Yields ((m >>= f) w) Q
  unfolding ◌>>=◌
  Yields-bind m f w Q h = go (m w).0 (m w).1 h
    where
      go :
          (r : Result A) (w' : World)
          → Yields (r, w') (λ a w''. Yields (f a w'') Q)
          → Yields (continue r f w') Q
      go (ok a) w' k = k
      go (err e) w' k = tt

  -- One statement of a `do` block: its postcondition, and what the rest makes of it
  pub Yields-then :
      (P : A → World → Type 0) (m : M A) (f : A → M B) (w : World) (Q : B → World → Type 0)
      → Yields (m w) P
      → ((a : A) (w' : World) → P a w' → Yields (f a w') Q)
      → Yields ((m >>= f) w) Q
  Yields-then P m f w Q h k =
      Yields-bind m f w Q (Yields-weaken (m w) P (λ a w'. Yields (f a w') Q) h k)

  -- A statement of which nothing is needed
  pub Yields-skip :
      (m : M A) (f : A → M B) (w : World) (Q : B → World → Type 0)
      → ((a : A) (w' : World) → Yields (f a w') Q)
      → Yields ((m >>= f) w) Q
  Yields-skip m f w Q k =
      Yields-then (λ _ _. ⊤) m f w Q (Yields-always (m w) _ (λ a w'. tt)) (λ a w' _. k a w')

-- The state after one step outside
abbrev pub bump : World → World
bump w = record w { ticks = w.ticks + 1 }

module _ ⦃env : Env⦄ where
  pub Yields-call :
      {A : Type 0} (f : ℕ → M A) (w : World) (Q : A → World → Type 0)
      → Yields (f w.ticks (bump w)) Q
      → Yields ((call >>= f) w) Q
  unfolding call ◌>>=◌
  Yields-call f w Q h = elim (Bool-cases (env.fails w.ticks)) [
    | inl down ↦ rw down tt
    | inr up ↦ rw up h
  ]
