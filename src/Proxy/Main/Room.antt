-- ===== src/Proxy/Main/Room.antt =====
-- The write timeout of a server: half a minute more than the wake timeout, as an `int64`.
use sleepyservice.Prelude.{◌≡◌, true, ℤ, pos, negsuc, ◌+ℤ◌, ltb_ℤ, int64, wrap, arith}
use sleepyservice.Strconv.{fits}

pub int64-fits : (z : ℤ) → fits 63 z ≡ true → int64 z ≡ z
unfolding wrap
int64-fits (pos n) h = ground arith
int64-fits (negsuc n) h = ground arith

pub ltb-half_minute : (t : ℤ) → ltb_ℤ t (t +ℤ pos 30_000_000_000) ≡ true
unfolding ◌+ℤ◌
ltb-half_minute (pos n) = ground arith
ltb-half_minute (negsuc n) = ground arith

-- Half a minute more is an `int64`, too.
abbrev pub HasRoom : ℤ → Type 0
HasRoom timeout = fits 63 (timeout +ℤ pos 30_000_000_000) ≡ true
