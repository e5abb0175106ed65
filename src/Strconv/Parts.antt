-- ===== src/Strconv/Parts.antt =====
-- Texts joined by commas are split into themselves, and trimming leaves them as they are.
use sleepyservice.Prelude.{
  ℕ, ◌≡◌, refl, ap, ◌∙◌, String, List, [], ◌∷◌, ◌++◌, All, map, codes, join, arith, ◌<>◌,
}
use sleepyservice.Prelude.Text.Digits.{codes-append}
use sleepyservice.Strconv.{trim_left, trim_right, trim_space, split}
use sleepyservice.Strconv.Signed.{IsPlain}

split_last : (s : List ℕ) → All IsPlain s → split b',' s ≡ s ∷ []
unfolding split
split_last [] h = refl
split_last (c ∷ s) h = rw (h.0.1, split_last s h.1) refl

split_first :
    (s rest : List ℕ) → All IsPlain s → split b',' (s ++ b',' ∷ rest) ≡ s ∷ split b',' rest
unfolding split
split_first [] rest h = refl
split_first (c ∷ s) rest h = rw (h.0.1, split_first s rest h.1) refl

abbrev pub AllPlain : List String → Type 0
AllPlain = All (λ s. All IsPlain (codes s))

-- A list of at least one text with no commas in them.
pub split-join :
    (x : String) (xs : List String)
    → AllPlain (x ∷ xs)
    → split b',' (codes (join "," (x ∷ xs))) ≡ map codes (x ∷ xs)
unfolding join
split-join x [] h = split_last (codes x) h.0
split-join x (y ∷ xs) h =
    ap (split b',') (
      codes-append x ("," <> join "," (y ∷ xs))
      ∙ ap (λ l. codes x ++ l) (codes-append "," (join "," (y ∷ xs))))
    ∙ split_first (codes x) (codes (join "," (y ∷ xs))) h.0
    ∙ ap (λ l. codes x ∷ l) (split-join y xs h.1)

trim_left_plain : (s : List ℕ) → All IsPlain s → trim_left s ≡ s
unfolding trim_left
trim_left_plain [] h = refl
trim_left_plain (c ∷ s) h = rw (h.0.0) refl

trim_right_plain : (s : List ℕ) → All IsPlain s → trim_right s ≡ s
unfolding trim_right
trim_right_plain [] h = refl
trim_right_plain (c ∷ s) h = ground (arith, trim_right_plain s h.1)

pub trim_space_plain : (s : List ℕ) → All IsPlain s → trim_space s ≡ s
unfolding trim_space
trim_space_plain s h = ap trim_right (trim_left_plain s h) ∙ trim_right_plain s h
