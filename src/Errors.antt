-- ===== src/Errors.antt =====
-- Go's `error` values as the code makes them, and a computation that may fail.
use sleepyservice.Prelude.{String, Bool, List, ◌<>◌, show_list}

-- `api` is an error that the Kubernetes client returns, with the answer of `errors.IsNotFound` and
-- its text. `wrapped` is `fmt.Errorf` with `%w`, by the text before the wrapped error.
-- The next ones are the errors of the dependency graph, by the values that their text shows.
-- `out_of_fuel` is no error of the program: it marks a recursion that ran out of its bound.
pub data Error : Type 0 where
  api : Bool → String → Error
  wrapped : String → Error → Error
  text : String → Error
  duplicate_component : String → Error
  missing_dependency : String → String → Error
  circular_dependency : List String → Error
  circular_involving : String → Error
  out_of_fuel : Error

pub data Result {ℓ} (A : Type ℓ) : Type ℓ where
  ok : A → Result A
  err : Error → Result A

infixl 5 ◌>>=◌ ◌>>◌
abbrev pub ◌>>=◌ {ℓ κ} : {A : Type ℓ} {B : Type κ} → Result A → (A → Result B) → Result B
ok a >>= f = f a
err e >>= f = err e

abbrev pub ◌>>◌ {ℓ κ} : {A : Type ℓ} {B : Type κ} → Result A → Result B → Result B
m >> k = m >>= λ _. k

-- `fmt.Errorf("…: %w", err)` on the error path.
abbrev pub wrap {ℓ} : {A : Type ℓ} → String → Result A → Result A
wrap s (ok a) = ok a
wrap s (err e) = err (wrapped s e)

-- What holds of the value of a success; a failure must satisfy `E`.
abbrev pub Ensures {ℓ κ} : {A : Type ℓ} → (A → Type κ) → (Error → Type κ) → Result A → Type κ
Ensures P E (ok a) = P a
Ensures P E (err e) = E e

pub Ensures-bind {ℓ κ μ ν} :
    {A : Type ℓ} {B : Type κ} (P : A → Type μ) (E : Error → Type μ) (Q : B → Type ν)
    (E' : Error → Type ν) (m : Result A) (f : A → Result B)
    → ((a : A) → P a → Ensures Q E' (f a))
    → ((e : Error) → E e → E' e)
    → Ensures P E m
    → Ensures Q E' (m >>= f)
Ensures-bind P E Q E' (ok a) f k fails h = k a h
Ensures-bind P E Q E' (err e) f k fails h = fails e h

-- `err.Error()`. The text of `out_of_fuel` is never shown.
unfoldable pub error_text : Error → String
error_text (api not_found msg) = msg
error_text (wrapped msg e) = msg <> error_text e
error_text (text msg) = msg
error_text (duplicate_component name) = "duplicate component name: " <> name
error_text (missing_dependency name dep) =
    "component '" <> name <> "' depends on '" <> dep <> "' which does not exist"
error_text (circular_dependency c) = "circular dependency detected: " <> show_list c
error_text (circular_involving dep) = "circular dependency detected involving: " <> dep
error_text out_of_fuel = "out of fuel"
