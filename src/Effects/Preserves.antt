-- ===== src/Effects/Preserves.antt =====
-- Invariants of methods, whether they return or throw: one rule for each way to build a method.
use idm_mw.Prelude.{Bool, true, false, if◌then◌else◌}
use idm_mw.Effects.Results.{lift}
use idm_mw.Effects.{
  Thrown, Result, ok, throw, Exec, pure, raise, gets, ◌>>=◌, ◌>>◌, continue, try_catch, handle,
}

pub record Preserves {ℓ} {State Answer : Type ℓ} (P : State → Type ℓ) (method : Exec State Answer)
    : Type ℓ where
  pub at : (before : State) → P before → P (method before).1

module _ {ℓ} {S A : Type ℓ} {P : S → Type ℓ} where
  pub Preserves-gets : (read : S → A) → Preserves P (gets read)
  Preserves-gets read = record { at = λ s h. h }

  pub Preserves-lift : (r : Result A) → Preserves P (lift r)
  Preserves-lift r = record { at = λ s h. h }

  pub Preserves-pure : (value : A) → Preserves P (pure value)
  Preserves-pure value = record { at = λ s h. h }

  pub Preserves-raise : (thrown : Thrown) → Preserves P (raise {A = A} thrown)
  Preserves-raise thrown = record { at = λ s h. h }

  pub Preserves-if :
      (b : Bool) (then_block else_block : Exec S A)
      → Preserves P then_block
      → Preserves P else_block
      → Preserves P (if b then then_block else else_block)
  Preserves-if true then_block else_block ky kn = ky
  Preserves-if false then_block else_block ky kn = kn

module _ {ℓ} {S A B : Type ℓ} {P : S → Type ℓ} where
  continue-at :
      (next : A → Exec S B) (p : Result A × S)
      → ((value : A) → Preserves P (next value))
      → P p.1
      → P (continue next p).1
  continue-at next (ok a, s) later h = (later a).at s h
  continue-at next (throw e, s) later h = h

  pub Preserves-bind :
      (first : Exec S A) (next : A → Exec S B)
      → Preserves P first
      → ((value : A) → Preserves P (next value))
      → Preserves P (first >>= next)
  Preserves-bind first next now later = record {
    at = λ s h. continue-at next (first s) later (now.at s h);
  }

  pub Preserves-then :
      (first : Exec S A) (next : Exec S B)
      → Preserves P first
      → Preserves P next
      → Preserves P (first >> next)
  Preserves-then first next now later = record {
    at = λ s h. continue-at (λ _. next) (first s) (λ _. later) (now.at s h);
  }

module _ {ℓ} {S A : Type ℓ} {P : S → Type ℓ} where
  handle-at :
      (h : Thrown → Exec S A) (p : Result A × S)
      → ((e : Thrown) → Preserves P (h e))
      → P p.1
      → P (handle h p).1
  handle-at h (ok a, s) kh q = q
  handle-at h (throw e, s) kh q = (kh e).at s q

  pub Preserves-try :
      (m : Exec S A) (h : Thrown → Exec S A)
      → Preserves P m
      → ((e : Thrown) → Preserves P (h e))
      → Preserves P (try_catch m h)
  Preserves-try m h km kh = record { at = λ s q. handle-at h (m s) kh (km.at s q) }
