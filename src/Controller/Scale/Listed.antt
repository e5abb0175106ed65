-- ===== src/Controller/Scale/Listed.antt =====
-- Components of a list, found by their names.
use mathlib.Core.List.{Memᴰ}
use sleepyservice.Prelude.{
  In, count-nil, count-cons_ne, arith, ap, ◌<◌, ◌∷◌, subst, ◌≡◌, sym, ◌∙◌, String, Option, some,
  List, [], All, string_discrete,
}
use sleepyservice.Api.{Component}
use sleepyservice.Controller.Graph.Spec.{names}

some_injective : {A : Type 0} {x y : A} → some x ≡ some y → x ≡ y
some_injective e = cc

module _ (P : Component → Type 0) where
  pub All-listed :
      (comps cs : List Component) → All (λ comp. Memᴰ comp cs) comps → All P cs → All P comps
  All-listed [] cs ms h = tt
  All-listed (comp ∷ comps) cs ms h = (listed cs ms.0 h, All-listed comps cs ms.1 h)
    where
      listed : (cs : List Component) → Memᴰ comp cs → All P cs → P comp
      listed [] m h = elim m [ ]
      listed (x ∷ cs) (Memᴰ.head e) h = subst P (sym e) h.0
      listed (x ∷ cs) (Memᴰ.tail m) h = listed cs m h.1

  pub All-named :
      (comps : List Component)
      → All P comps
      → (by_name : String → Option Component) → All (λ comp. by_name comp.name ≡ some comp) comps
      → (comp : Component) → by_name comp.name ≡ some comp
      → In comp.name (names comps)
      → P comp
  All-named [] h by_name found comp e m = absurd (omega (arith, m, count-nil comp.name))
  All-named (x ∷ comps) h by_name found comp e m = elim (string_discrete x.name comp.name) [
    | yes same ↦ subst (P) (some_injective (sym found.0 ∙ ap by_name same ∙ e)) h.0
    | no differs ↦
        All-named comps h.1 by_name found.1 comp e
          (subst (λ n. 0 < n) (count-cons_ne comp.name x.name (names comps) differs) m)
  ]

pub by_name-listed :
    (by_name : String → Option Component) (cs : List Component) (comp : Component)
    → All (λ c. by_name c.name ≡ some c) cs
    → Memᴰ comp cs
    → by_name comp.name ≡ some comp
by_name-listed by_name [] comp h m = elim m [ ]
by_name-listed by_name (x ∷ cs) comp h (Memᴰ.head e) =
    subst (λ c. by_name c.name ≡ some c) (sym e) h.0
by_name-listed by_name (x ∷ cs) comp h (Memᴰ.tail m) = by_name-listed by_name cs comp h.1 m

pub All-by_name :
    (by_name : String → Option Component) (cs comps : List Component)
    → All (λ c. by_name c.name ≡ some c) cs
    → All (λ comp. Memᴰ comp cs) comps
    → All (λ c. by_name c.name ≡ some c) comps
All-by_name by_name cs [] h ms = tt
All-by_name by_name cs (comp ∷ comps) h ms =
    (by_name-listed by_name cs comp h ms.0, All-by_name by_name cs comps h ms.1)

pub listed-named :
    (comps cs : List Component)
    → All (λ comp. Memᴰ comp cs) comps
    → (name : String) → In name (names comps)
    → (comp : Component) × Memᴰ comp cs × (comp.name ≡ name)
listed-named [] cs ms name m = absurd (omega (arith, m, count-nil name))
listed-named (x ∷ comps) cs ms name m = elim (string_discrete x.name name) [
  | yes same ↦ (x, ms.0, same)
  | no differs ↦
      listed-named comps cs ms.1 name
        (subst (λ n. 0 < n) (count-cons_ne name x.name (names comps) differs) m)
]
