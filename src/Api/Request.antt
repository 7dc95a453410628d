-- ===== src/Api/Request.antt =====
-- lib/ssd_cache_api.c, `submit_pio`: the tests, and the request.
use user_level_ssd_cache_fra.Common.{
  ℕ, ◌≡◌, ◌∙◌, refl, ap, Bool, false, Option, none, some, [], ◌∷◌, if◌then◌else◌, ◌>>=◌, Bool-cases,
  Option-cases, inl, inr,
}
use user_level_ssd_cache_fra.Pio.{Node, Pio}
use user_level_ssd_cache_fra.Mapping.Shape.{View}
use user_level_ssd_cache_fra.Mapping.Inv.{Flight, IsMapping}
use user_level_ssd_cache_fra.Mapping.Safety.{Holds}
use user_level_ssd_cache_fra.Target.{Cache, Storage, is_discard}
use user_level_ssd_cache_fra.Target
use user_level_ssd_cache_fra.Target.Range.{HasPages}
use user_level_ssd_cache_fra.Target.Submit
use user_level_ssd_cache_fra.Api.{State, submit_pio}

-- What a request leaves of a process and of the shared memory: all but the cache.
pub record Kept {World : Type 0} (st st' : State World) : Type 0 where
  pub shared_cache : st'.shared_cache ≡ st.shared_cache
  pub running : st'.shared.running ≡ st.shared.running
  pub count : st'.shared.count ≡ st.shared.count

pub Kept-refl : {World : Type 0} (st : State World) → Kept st st
Kept-refl st = record { shared_cache = refl; running = refl; count = refl }

pub Kept-trans : {World : Type 0} {a b c : State World} → Kept a b → Kept b c → Kept a c
Kept-trans p q = record {
  shared_cache = q.shared_cache ∙ p.shared_cache;
  running = q.running ∙ p.running;
  count = q.count ∙ p.count;
}

module _ (s : Storage) (st : State (s.World)) where
  -- A request that is null is refused.
  pub submit_pio-null : submit_pio s st [] ≡ some (1, st)
  unfolding submit_pio
  submit_pio-null =
      let by_running : Bool → Option (ℕ × State (s.World)) =
        λ b. if b then some (1, st) else some (1, st) in
      let by_memory : Option ℕ → Option (ℕ × State (s.World)) =
        λ o. elim o [ none ↦ some (1, st) | some _ ↦ by_running st.shared.running ] in
      elim (Option-cases st.shared_cache) [
        | inl null ↦ ap by_memory null
        | inr (address, at) ↦ elim (Bool-cases st.shared.running) [
          | inl runs ↦ ap by_memory at ∙ ap by_running runs
          | inr stopped ↦ ap by_memory at ∙ ap by_running stopped
        ]
      ]

module _ (s : Storage) (st : State (s.World)) {v : View} {f : Flight}
    (inv : IsMapping st.shared.cache.cache_map v f) where
  -- A read or a write with all of its pages, by any process.
  pub submit_pio-served :
      (pio : Node) (next : Pio)
      → HasPages s (pio ∷ next) pio.pio_cnt
      → is_discard pio.operation ≡ false
      → (rc : ℕ) × (st' : State (s.World)) × (submit_pio s st (pio ∷ next) ≡ some (rc, st'))
        × Holds st'.shared.cache.cache_map f
        × Kept st st'
  unfolding submit_pio
  submit_pio-served pio next paged maps =
      let (rc, cache, w, step, holds) =
        Submit.submit_pio-served s st.shared.cache pio next st.world inv paged maps in
      let sent : Option (ℕ × State (s.World)) =
        some (rc, record st { shared = record (st.shared) { cache = cache }; world = w }) in
      let sends : ℕ × Cache × s.World → Option (ℕ × State (s.World)) =
        λ r. some (r.0, record st { shared = record (st.shared) { cache = r.1 }; world = r.2 }) in
      let by_running : Bool → Option (ℕ × State (s.World)) = λ b.
        if b
        then (Target.submit_pio s st.shared.cache pio next st.world >>= sends)
        else some (1, st) in
      let by_memory : Option ℕ → Option (ℕ × State (s.World)) =
        λ o. elim o [ none ↦ some (1, st) | some _ ↦ by_running st.shared.running ] in
      elim (Option-cases st.shared_cache) [
        | inl null ↦ (1, st, ap by_memory null, (v, inv), Kept-refl st)
        | inr (address, at) ↦ elim (Bool-cases st.shared.running) [
          | inr stopped ↦ (1, st, ap by_memory at ∙ ap by_running stopped, (v, inv), Kept-refl st)
          | inl runs ↦ (
            rc,
            record st { shared = record (st.shared) { cache = cache }; world = w },
            ap by_memory at ∙ ap by_running runs ∙ ap (λ o. o >>= sends) step,
            holds,
            record { shared_cache = refl; running = refl; count = refl },
          )
        ]
      ]
