-- ===== src/Api/Migration.antt =====
-- lib/ssd_cache_api.c, `migration`: the loop of the migration thread.
use user_level_ssd_cache_fra.Common.{ℕ, zero, suc, Option, some, ◌>>=◌}
use user_level_ssd_cache_fra.WorkQueue.{Work}
use user_level_ssd_cache_fra.Mapping.{Mapping}
use user_level_ssd_cache_fra.Mapping.Worker.{Devices, do_migration_work}

-- The loop of a thread that is not cancelled, for so many rounds: neither the sleep nor
-- `pthread_testcancel` then does anything to the mapping. A cancellation, which takes effect at
-- `pthread_testcancel`, in the sleep and in the calls on files of a transfer, is not modelled. It is
-- `none` if a round faults.
unfoldable pub migration : (d : Devices) → ℕ → Mapping → d.World → Option (Mapping × d.World)
migration d zero m w = some (m, w)
migration d (suc rounds) m w = do
  (worked, m₁, w₁) ← do_migration_work d m w
  migration d rounds m₁ w₁
