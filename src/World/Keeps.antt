-- ===== src/World/Keeps.antt =====
-- What an action keeps, whether it succeeds or not: one rule for each way to build an action.
use mailservice.Prelude.{⊤, ℕ, ◌+◌, Bool, true, false, if◌then◌else◌, Bytes}
use mailservice.Ports.{Error, Result, ok, err}
use mailservice.World.Yields.{Yields}
use mailservice.World.{
  ignore, lift, when, Env, World, M, continue, pure, raise, gets, modify, attempt, wrapping, call,
  time_now, new_uuid, new_token, ◌>>=◌,
}

-- `m` keeps `P`, with an error too.
abbrev pub Keeps : {A : Type 0} → (World → Type 0) → M A → Type 0
Keeps P m = (w : World) → P w → P (m w).1

module _ (P : World → Type 0) where
  pub Keeps-bind :
      {A B : Type 0} (m : M A) (f : A → M B)
      → Keeps P m
      → ((a : A) → Keeps P (f a))
      → Keeps P (m >>= f)
  unfolding ◌>>=◌
  Keeps-bind {A} m f km kf w h = go (m w).0 (m w).1 (km w h)
    where
      go : (r : Result A) (w' : World) → P w' → P (continue r f w').1
      go (ok a) w' h' = kf a w' h'
      go (err e) w' h' = h'

  -- An action that reads the state and goes on by what it has read
  pub Keeps-gets :
      {A B : Type 0} (g : World → A) (f : A → M B)
      → ((w : World) → P w → P (f (g w) w).1)
      → Keeps P (gets g >>= f)
  unfolding gets ◌>>=◌
  Keeps-gets g f k w h = k w h

  pub Keeps-pure : {A : Type 0} (a : A) → Keeps P (pure a)
  unfolding pure
  Keeps-pure a w h = h

  pub Keeps-raise : (A : Type 0) (e : Error) → Keeps P (raise {A = A} e)
  unfolding raise
  Keeps-raise A e w h = h

  pub Keeps-if :
      {A : Type 0} (b : Bool) (m n : M A) → Keeps P m → Keeps P n → Keeps P (if b then m else n)
  Keeps-if true m n km kn = km
  Keeps-if false m n km kn = kn

  pub Keeps-wrapping : {A : Type 0} (text : Bytes) (m : M A) → Keeps P m → Keeps P (wrapping text m)
  unfolding wrapping
  Keeps-wrapping text m k w h = k w h

  pub Keeps-attempt : {A : Type 0} (m : M A) → Keeps P m → Keeps P (attempt m)
  unfolding attempt
  Keeps-attempt m k w h = k w h

  pub Keeps-modify : (f : World → World) → ((w : World) → P w → P (f w)) → Keeps P (modify f)
  unfolding modify
  Keeps-modify f k w h = k w h

  pub Keeps-lift : {A : Type 0} (r : Result A) → Keeps P (lift r)
  unfolding lift
  Keeps-lift r w h = h

  pub Keeps-ignore : {A : Type 0} (m : M A) → Keeps P m → Keeps P (ignore m)
  unfolding ignore
  Keeps-ignore m k w h = k w h

  pub Keeps-when : (c : Bool) (m : M ⊤) → Keeps P m → Keeps P (when c m)
  unfolding when
  Keeps-when c m k = Keeps-if c m (pure tt) k (Keeps-pure tt)

  module _ ⦃env : Env⦄ (ticks_free : (n : ℕ) (w : World) → P w → P (record w { ticks = n })) where
    pub Keeps-call : Keeps P call
    unfolding call
    Keeps-call w h = ticks_free (w.ticks + 1) w h

    pub Keeps-time_now : Keeps P time_now
    unfolding time_now
    Keeps-time_now w h = ticks_free (w.ticks + 1) w h

    pub Keeps-new_uuid : Keeps P new_uuid
    unfolding new_uuid
    Keeps-new_uuid w h = ticks_free (w.ticks + 1) w h

    pub Keeps-new_token : (size : ℕ) → Keeps P (new_token size)
    unfolding new_token
    Keeps-new_token size =
        Keeps-bind call (λ n. pure (env.new_token n size)) Keeps-call
          (λ n. Keeps-pure (env.new_token n size))

-- What an action keeps also holds where it succeeds.
pub Yields-Keeps :
    {A : Type 0} (P : World → Type 0) (m : M A) (w : World)
    → Keeps P m
    → P w
    → Yields (m w) (λ _ w'. P w')
Yields-Keeps {A} P m w k h = go (m w).0 (m w).1 (k w h)
  where
    go : (r : Result A) (w' : World) → P w' → Yields (r, w') (λ _ w''. P w'')
    go (ok a) w' h' = h'
    go (err e) w' h' = tt
