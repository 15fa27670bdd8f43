-- ===== src/Bus/Monad.antt =====
-- Programs over a state that may stop short.
use mathlib.Core.Path.{fun_ext}
use usb_bulk.Prelude.{Option, none, some, ◌≡◌, refl, arith}

abbrev pub M : Type 0 → Type 0 → Type 0
M S A = S → Option (A × S)

module _ {S : Type 0} where
  abbrev pub pure : {A : Type 0} → A → M S A
  pure a s = some (a, s)

  infixl 5 ◌>>=◌ ◌>>◌
  abbrev pub ◌>>=◌ : {A B : Type 0} → M S A → (A → M S B) → M S B
  ◌>>=◌ m f s = elim (m s) [ none ↦ none | some (a, s') ↦ f a s' ]

  abbrev pub ◌>>◌ : {B : Type 0} → M S (Unit {0}) → M S B → M S B
  m >> k = m >>= λ _. k

-- A program on a part of the state, run on the whole.
abbrev pub zoom : {S T A : Type 0} → (T → S) → (S → T → T) → M S A → M T A
zoom get put m t = elim (m (get t)) [ none ↦ none | some (a, s) ↦ some (a, put s t) ]

-- The monad's laws, as equations between programs.
module _ {S : Type 0} where
  pub pure->>= : {A B : Type 0} (a : A) (f : A → M S B) → (pure a >>= f) ≡ f a
  pure->>= a f = refl

  pub >>=-assoc :
      {A B C : Type 0} (m : M S A) (f : A → M S B) (g : B → M S C)
      → ((m >>= f) >>= g) ≡ (m >>= λ a. f a >>= g)
  >>=-assoc m f g = fun_ext λ s. ground arith

  pub >>-assoc : {B : Type 0} (m n : M S (Unit {0})) (k : M S B) → ((m >> n) >> k) ≡ (m >> (n >> k))
  >>-assoc m n k = fun_ext λ s. ground arith

  pub >>=-some :
      {A B : Type 0} (m : M S A) (f : A → M S B) (s : S) (a : A) (s' : S)
      → m s ≡ some (a, s')
      → (m >>= f) s ≡ f a s'
  >>=-some m f s a s' e = ground (arith, e)
