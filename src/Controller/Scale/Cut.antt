-- ===== src/Controller/Scale/Cut.antt =====
-- The level that `scaleUpComponents` works on.
use sleepyservice.Prelude.{
  ℕ, suc, ◌≡◌, refl, subst, String, Bool, true, false, some, List, [], ◌∷◌, ◌++◌, All, get_elem?,
  length, length-append, Bool-cases, inl, inr, ◌⊎◌, arith, append_assoc,
}
use sleepyservice.Controller.Scale.{level_loop, current_level}

-- `levels` is cut at the level of index `i`: all levels before it are ready, and it is the last
-- one or is not ready itself.
pub record IsCut (ready : List String → Bool) (levels : List (List String)) (i : ℕ) : Type 0 where
  pub before : List (List String)
  pub level : List String
  pub after : List (List String)
  pub split : levels ≡ before ++ level ∷ after
  pub index : length before ≡ i
  pub all_before : All (λ l. ready l ≡ true) before
  pub stops : (after ≡ []) ⊎ (ready level ≡ false)

All-append_one {ℓ κ} :
    {A : Type ℓ} (P : A → Type κ) (xs : List A) (x : A) → All P xs → P x → All P (xs ++ x ∷ [])
All-append_one P [] x h p = (p, tt)
All-append_one P (y ∷ xs) x h p = (h.0, All-append_one P xs x h.1 p)

module _ (ready : List String → Bool) where
  level_loop-IsCut :
      (done : List (List String)) (prev : List String) (rest : List (List String)) (i : ℕ)
      → All (λ l. ready l ≡ true) done
      → length done ≡ i
      → IsCut ready (done ++ prev ∷ rest) (level_loop ready prev (suc i) rest i)
  unfolding level_loop
  level_loop-IsCut done prev [] i h e = record {
    before = done;
    level = prev;
    after = [];
    split = refl;
    index = e;
    all_before = h;
    stops = inl refl;
  }
  level_loop-IsCut done prev (level ∷ rest) i h e = elim (Bool-cases (ready prev)) [
    | inl yes_ready ↦ rw yes_ready (
        subst (λ l. IsCut ready l (level_loop ready level (suc (suc i)) rest (suc i)))
          (append_assoc done (prev ∷ []) (level ∷ rest))
          (level_loop-IsCut (done ++ prev ∷ []) level rest (suc i)
            (All-append_one (λ l. ready l ≡ true) done prev h yes_ready)
            (omega (arith, length-append done (prev ∷ [])))))
    | inr not_ready ↦ rw not_ready (record {
      before = done;
      level = prev;
      after = level ∷ rest;
      split = refl;
      index = e;
      all_before = h;
      stops = inr not_ready;
    })
  ]

  -- If there is any level, `currentLevel` cuts the levels: all before it are ready, and it is the
  -- last one or is not ready.
  pub current_level-IsCut :
      (level : List String) (rest : List (List String))
      → (i : ℕ) × (current_level ready (level ∷ rest) ≡ some i) × IsCut ready (level ∷ rest) i
  unfolding current_level
  current_level-IsCut level rest =
      (level_loop ready level 1 rest 0, refl, level_loop-IsCut [] level rest 0 tt refl)

pub get_elem?-append {ℓ} :
    {A : Type ℓ} (xs ys : List A) (x : A) → get_elem? (xs ++ x ∷ ys) (length xs) ≡ some x
get_elem?-append [] ys x = refl
get_elem?-append (y ∷ xs) ys x = get_elem?-append xs ys x
