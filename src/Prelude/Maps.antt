-- ===== src/Prelude/Maps.antt =====
-- A Go map with text keys, read with the zero value at a missing key.
use Prim.Native.String.{String}
use mathlib.Core.Path.{◌≡◌}
use mathlib.Core.Logic.{◌≢◌, ite}
use native.Mathlib.Omega.{arith}
use sleepyservice.Prelude.Text.{string_discrete}

-- `m[k] = v`
unfoldable pub update {ℓ} : {V : Type ℓ} → (String → V) → String → V → String → V
update m k v j = ite (string_discrete k j) v (m j)

pub update_self {ℓ} : {V : Type ℓ} (m : String → V) (k : String) (v : V) → update m k v k ≡ v
unfolding update
update_self m k v = ground arith

pub update_ne {ℓ} :
    {V : Type ℓ} (m : String → V) (k j : String) (v : V) → k ≢ j → update m k v j ≡ m j
unfolding update
update_ne m k j v h = ground arith
