-- ===== src/Base/Paths.antt =====
-- Sequences of steps of a relation.

module _ {ℓ κ} {A : Type ℓ} (R : A → A → Type κ) where
  pub data Star (a : A) : A → Type (ℓ ⊔ κ) where
    here : Star a a
    next : {b c : A} → Star a b → R b c → Star a c

  pub Star_trans : {a b c : A} → Star a b → Star b c → Star a c
  Star_trans p here = p
  Star_trans p (next q r) = next (Star_trans p q) r

  -- What each step keeps, a sequence keeps.
  pub Star-keeps {μ} :
      (P : A → Type μ) → ((a b : A) → R a b → P a → P b) → {a b : A} → Star a b → P a → P b
  Star-keeps P keeps here h = h
  Star-keeps P keeps (next p r) h = keeps _ _ r (Star-keeps P keeps p h)
