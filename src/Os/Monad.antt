-- ===== src/Os/Monad.antt =====
-- A computation over the world. `none` means that a loop has used up its rounds.
use multi_client_media_strea.Base.{◌≡◌, refl, Option, none, some, arith}

abbrev pub M : Type 0 → Type 0 → Type 0
M World A = World → Option (A × World)

module _ {World A B : Type 0} where
  infixl 5 ◌>>=◌
  abbrev pub ◌>>=◌ : M World A → (A → M World B) → M World B
  ◌>>=◌ m f w = elim (m w) [ none ↦ none | some (a, w') ↦ f a w' ]

abbrev pub return : {World A : Type 0} → A → M World A
return a w = some (a, w)

-- A call that always returns.
abbrev pub lift : {World A : Type 0} → (World → A × World) → M World A
lift f w = some (f w)

-- What holds of the result, if there is one.
abbrev pub Ensures {ℓ} : {A : Type 0} → (A → Type ℓ) → Option A → Type ℓ
Ensures P none = Unit
Ensures P (some a) = P a

-- There is a result, and this holds of it.
abbrev pub Ends : {A : Type 0} → (A → Type 0) → Option A → Type 0
Ends P none = ⊥
Ends P (some a) = P a

module _ {A : Type 0} (P : A → Type 0) where
  pub Ensures-some : (o : Option A) (a : A) → Ensures P o → o ≡ some a → P a
  Ensures-some none a h e = absurd (cc e)
  Ensures-some (some b) a h e = ground arith

  pub Ends-some : (o : Option A) → Ends P o → (a : A) × (o ≡ some a) × P a
  Ends-some none h = absurd h
  Ends-some (some a) h = (a, refl, h)

module _ {World A B : Type 0} (P : A × World → Type 0) (Q : B × World → Type 0)
    (f : A → M World B) where
  pub Ensures->>= :
      (m : M World A) (w : World)
      → Ensures P (m w)
      → ((a : A) (v : World) → P (a, v) → Ensures Q (f a v))
      → Ensures Q ((m >>= f) w)
  Ensures->>= m w = go (m w)
    where
      go :
          (o : Option (A × World))
          → Ensures P o
          → ((a : A) (v : World) → P (a, v) → Ensures Q (f a v))
          → Ensures Q (elim o as (λ _. Option (B × World)) [ none ↦ none | some (a, v) ↦ f a v ])
      go none h k = tt
      go (some (a, v)) h k = k a v h

  pub Ends->>= :
      (m : M World A) (w : World)
      → Ends P (m w)
      → ((a : A) (v : World) → P (a, v) → Ends Q (f a v))
      → Ends Q ((m >>= f) w)
  Ends->>= m w = go (m w)
    where
      go :
          (o : Option (A × World))
          → Ends P o
          → ((a : A) (v : World) → P (a, v) → Ends Q (f a v))
          → Ends Q (elim o as (λ _. Option (B × World)) [ none ↦ none | some (a, v) ↦ f a v ])
      go none h k = absurd h
      go (some (a, v)) h k = k a v h

module _ {A : Type 0} (P Q : A → Type 0) where
  pub Ensures-and : (o : Option A) → Ensures P o → Ensures Q o → Ensures (λ a. P a × Q a) o
  Ensures-and none p q = tt
  Ensures-and (some a) p q = (p, q)

  pub Ends-and : (o : Option A) → Ends P o → Ensures Q o → Ends (λ a. P a × Q a) o
  Ends-and none p q = absurd p
  Ends-and (some a) p q = (p, q)

  pub Ensures-map : (o : Option A) → ((a : A) → P a → Q a) → Ensures P o → Ensures Q o
  Ensures-map none k p = tt
  Ensures-map (some a) k p = k a p

-- A computation's result is its result.
pub Ensures-refl : {A : Type 0} (o : Option A) → Ensures (λ r. o ≡ some r) o
Ensures-refl none = tt
Ensures-refl (some a) = refl
