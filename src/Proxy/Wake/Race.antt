-- ===== src/Proxy/Wake/Race.antt =====
-- The start of a wake as the status shows it.
use sleepyservice.Prelude.{◌≡◌, refl, some, ℕ, ℤ, String}
use sleepyservice.Proxy.Defs.{waking, Proxy, update_status}

-- Of two updates to Waking, the status shows the time of the first as its start after the first, and
-- that of the second after the second: the start that it had is not kept.
started_at-update_status :
    (first last : ℤ) (m m' : String) (n n' : ℕ) (p : Proxy)
    → ((update_status first waking m n p).wake_status.started_at ≡ some first)
      × ((update_status last waking m' n' (update_status first waking m n p)).wake_status.started_at
          ≡ some last)
unfolding update_status
started_at-update_status first last m m' n n' p = (refl, refl)
