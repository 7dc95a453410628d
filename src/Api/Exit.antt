-- ===== src/Api/Exit.antt =====
-- lib/ssd_cache_api.c, `exit_ssd_cache`: the wait for the users, and each of its ends.
use user_level_ssd_cache_fra.Common.{◌⊎◌, ℕ, zero, suc, ◌≡◌, Bool, true, false, ◌||◌, none, some}
use user_level_ssd_cache_fra.Config.{shm_cache_name}
use user_level_ssd_cache_fra.Shm
use user_level_ssd_cache_fra.Spdk.Setup.{Nvme}
use user_level_ssd_cache_fra.Api.Users.{no_users}
use user_level_ssd_cache_fra.Api.{Shared, State, Threads}

module _ {World : Type 0} (os : Shm.System World) (nvme : Nvme World) (th : Threads World)
    (sizeof_cache : ℕ) where
  -- The count is 0 at one of the next `n` tests, or at the one after them.
  abbrev pub is_left : ℕ → Shared → World → Bool
  is_left zero shared w = no_users shared.count
  is_left (suc n) shared w =
      let (shared₁, w₁) = th.sleep shared w in no_users shared.count || is_left n shared₁ w₁

  -- The ends of `exit_ssd_cache`: it is refused, and nothing changes; or it has waited until the count
  -- was 0 and has stopped the worker, and then a system call to unmap or to unlink
  -- the memory has failed, or both have succeeded and the memory is gone.
  pub data Exit (st : State World) : ℕ → State World → Type 0 where
    not_mapped : st.shared_cache ≡ none → Exit st 1 st
    not_running : st.shared.running ≡ false → Exit st 1 st
    kept :
        (st' : State World) (address : ℕ) (w : World)
        → st.shared_cache ≡ some address
        → ((os.munmap address sizeof_cache w).0 ≡ false)
          ⊎ ((os.shm_unlink shm_cache_name (os.munmap address sizeof_cache w).1).0 ≡ false)
        → st'.shared.count ≡ 0
        → st'.shared.mg_worker ≡ 0
        → st'.shared_cache ≡ st.shared_cache
        → Exit st 1 st'
    gone :
        (st' : State World) (address : ℕ) (w : World)
        → st.shared_cache ≡ some address
        → (os.munmap address sizeof_cache w).0 ≡ true
        → os.shm_unlink shm_cache_name (os.munmap address sizeof_cache w).1 ≡ (true, st'.world)
        → st'.shared.count ≡ 0
        → st'.shared.mg_worker ≡ 0
        → st'.shared_cache ≡ none
        → Exit st 0 st'
