-- ===== src/Exec.antt =====
-- Methods that change what they are called on and may fail: what was written before an error stays
-- written, so the state comes back beside the error too.
use sleepyservice.Prelude.{◌≡◌, String, Bool, true, false, if◌then◌else◌}
use sleepyservice.Errors.{Error, Result, ok, err, wrapped}

abbrev pub Exec {ℓ} : Type ℓ → Type ℓ → Type ℓ
Exec S A = S → Result A × S

module _ {ℓ} {S A : Type ℓ} where
  unfoldable pub pure : A → Exec S A
  pure a s = (ok a, s)

  unfoldable pub raise : Error → Exec S A
  raise e s = (err e, s)

  unfoldable pub lift : Result A → Exec S A
  lift r s = (r, s)

  unfoldable pub gets : (S → A) → Exec S A
  gets f s = (ok (f s), s)

  abbrev pub rewrapped : String → Result A × S → Result A × S
  rewrapped text (ok a, s) = (ok a, s)
  rewrapped text (err e, s) = (err (wrapped text e), s)

  -- `if err != nil { return fmt.Errorf("…: %w", err) }`
  unfoldable pub wrap_error : String → Exec S A → Exec S A
  wrap_error text m s = rewrapped text (m s)

-- A call whose error is handled by the caller.
unfoldable pub attempt : {S A : Type 0} → Exec S A → Exec S (Result A)
attempt m s = let (r, s') = m s in (ok r, s')

module _ {ℓ} {S A B : Type ℓ} where
  abbrev pub continue : (A → Exec S B) → Result A × S → Result B × S
  continue f (ok a, s) = f a s
  continue f (err e, s) = (err e, s)

  infixl 5 ◌>>=◌ ◌>>◌
  unfoldable pub ◌>>=◌ : Exec S A → (A → Exec S B) → Exec S B
  ◌>>=◌ m f s = continue f (m s)

  abbrev pub ◌>>◌ : Exec S A → Exec S B → Exec S B
  m >> n = m >>= λ _. n

-- A write to the state.
unfoldable pub modify : {S : Type 0} → (S → S) → Exec S (Unit {0})
modify f s = (ok tt, f s)

-- `R` relates the states before and after `m`, whether it returns or fails.
pub record Relates {S A : Type 0} (R : S → S → Type 0) (m : Exec S A) : Type 0 where
  pub at : (s : S) → R s (m s).1

-- A relation that holds of doing nothing and of doing one thing after another.
pub record IsHistory {S : Type 0} (R : S → S → Type 0) : Type 0 where
  pub idle : (s : S) → R s s
  pub chain : (a b c : S) → R a b → R b c → R a c

module _ {S A : Type 0} {R : S → S → Type 0} (h : IsHistory R) where
  pub Relates-pure : (a : A) → Relates R (pure a)
  Relates-pure a = record { at = λ s. unfold pure in h.idle s }

  pub Relates-lift : (r : Result A) → Relates R (lift r)
  Relates-lift r = record { at = λ s. unfold lift in h.idle s }

  pub Relates-gets : (f : S → A) → Relates R (gets f)
  Relates-gets f = record { at = λ s. unfold gets in h.idle s }

  pub Relates-wrap_error :
      (text : String) (m : Exec S A) → Relates R m → Relates R (wrap_error text m)
  Relates-wrap_error text m k = record { at = λ s. unfold wrap_error in keep s (m s) (k.at s) }
    where
      keep : (s : S) (o : Result A × S) → R s o.1 → R s (rewrapped text o).1
      keep s (ok a, s') r = r
      keep s (err e, s') r = r

  pub Relates-if :
      (b : Bool) (m n : Exec S A)
      → (b ≡ true → Relates R m)
      → (b ≡ false → Relates R n)
      → Relates R (if b then m else n)
  Relates-if true m n km kn = km (λ i. true)
  Relates-if false m n km kn = kn (λ i. false)

module _ {S A B : Type 0} {R : S → S → Type 0} (h : IsHistory R) where
  -- What follows may use what `m` returned, and from where.
  pub Relates-bind :
      (m : Exec S A) (f : A → Exec S B)
      → Relates R m
      → ((a : A) → Relates R (f a))
      → Relates R (m >>= f)
  Relates-bind m f km kf = record { at = λ s. unfold ◌>>=◌ in step s (m s) (km.at s) }
    where
      step : (s : S) (o : Result A × S) → R s o.1 → R s (continue f o).1
      step s (ok a, s') r = h.chain s s' (f a s').1 r ((kf a).at s')
      step s (err e, s') r = r
