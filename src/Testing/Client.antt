-- ===== src/Testing/Client.antt =====
-- A run of the client, from its link to its unlink.
use user_level_ssd_cache_fra.Common.{
  ℕ, suc, ◌+◌, ◌%◌, ◌<◌, ◌≡◌, ◌∙◌, refl, sym, ap, Bool, true, false, ◌||◌, Option, some, List, [],
  ◌∷◌, ◌==◌, if◌then◌else◌, ◌>>=◌, same_text, Bool-cases, inl, inr, arith, subst,
}
use user_level_ssd_cache_fra.Config.{unsigned_mod, page_size}
use user_level_ssd_cache_fra.Pio.{Node, create_pio}
use user_level_ssd_cache_fra.Mapping.Inv.{Flight}
use user_level_ssd_cache_fra.Mapping.Safety.{Holds}
use user_level_ssd_cache_fra.Target.{Storage, is_write, is_discard}
use user_level_ssd_cache_fra.Shm
use user_level_ssd_cache_fra.Spdk.Setup.{Nvme}
use user_level_ssd_cache_fra.Spdk.Attach.{HasNamespaces}
use user_level_ssd_cache_fra.Api.Users.{unlink_count}
use user_level_ssd_cache_fra.Api.{Shared, State, Threads, submit_pio, unlink_ssd_cache}
use user_level_ssd_cache_fra.Api.Request.{
  Kept, Kept-refl, Kept-trans, submit_pio-null, submit_pio-served,
}
use user_level_ssd_cache_fra.Api.Link.{
  link_count-unlink_count, leave_cache-shared, unlink_ssd_cache-leave_cache, Visit, refused, joins,
  link_ssd_cache-unlink_ssd_cache,
}
use user_level_ssd_cache_fra.Testing.{
  test_file, exit_line, send_line, Memory, Input, chosen, send_pio, commands, client,
}

-- The input asks for an end.
abbrev pub has_exit : List Input → Bool
has_exit [] = false
has_exit (i ∷ rest) = same_text i.line exit_line || has_exit rest

chosen-is_discard : (r : ℕ) → is_discard (chosen r) ≡ false
chosen-is_discard r = elim (Bool-cases (r % 2 == 0)) [
  | inl even ↦ rw even refl
  | inr odd ↦ rw odd refl
]

-- A buffer that `memset` can fill, and on which `strlen` ends whatever stands in memory: behind the
-- page there is a zero byte to be found.
abbrev pub IsBuffer : (s : Storage) → Memory (s.World) → ℕ → Type 0
IsBuffer s mem buffer =
    ((value : ℕ) (w : s.World) → (w' : s.World) × (mem.memset buffer value page_size w ≡ some w'))
    × ((w : s.World) → (len : ℕ) × (s.strlen buffer w ≡ some len))

module _ (s : Storage) (mem : Memory (s.World)) (buffer : ℕ) (usable : IsBuffer s mem buffer) where
  -- the memory before a request
  filled :
      (i : Input) (w : s.World)
      → (w' : s.World) × ((if is_write (chosen i.operation)
            then mem.memset buffer (65 + i.value % 25) page_size w
            else some w)
          ≡ some w')
  filled i w = elim (Bool-cases (is_write (chosen i.operation))) [
    | inl writes ↦ let (w', step) = usable.0 (65 + i.value % 25) w in (w', rw writes step)
    | inr reads ↦ (w, rw reads refl)
  ]

module _ (s : Storage) (mem : Memory (s.World)) (buffer : ℕ) (usable : IsBuffer s mem buffer)
    {f : Flight} where
  -- A request of one page is served, or its `malloc` fails and it is refused.
  send_pio-Kept :
      (i : Input) (st : State (s.World))
      → Holds st.shared.cache.cache_map f
      → (st' : State (s.World)) × (send_pio s mem buffer i st ≡ some st')
        × Holds st'.shared.cache.cache_map f
        × Kept st st'
  unfolding send_pio create_pio
  send_pio-Kept i st (v, inv) =
      let node : Node = record {
        full_path_name = test_file;
        fd = 0;
        page_index = i.page % 24;
        operation = chosen i.operation;
        buffer = buffer;
        pio_cnt = 1;
      } in
      let (w, fills) = filled s mem buffer usable i st.world in
      let st₁ = record st { world = w } in
      let submits : s.World → Option (State (s.World)) = λ w.
        submit_pio s (record st { world = w }) (if i.created then node ∷ [] else [])
        >>= (λ r. some r.1) in
      let sends : Bool → Option (State (s.World)) =
        λ b. submit_pio s st₁ (if b then node ∷ [] else []) >>= (λ r. some r.1) in
      elim (Bool-cases i.created) [
        | inr failed ↦ (
          st₁,
          ap (λ o. o >>= submits) fills
              ∙ ap sends failed
              ∙ ap (λ o. o >>= (λ r. some r.1)) (submit_pio-null s st₁),
          (v, inv),
          record { shared_cache = refl; running = refl; count = refl },
        )
        | inl created ↦
            let (rc, st', step, holds, kept) =
              submit_pio-served s st₁ inv node [] (usable.1, tt) (chosen-is_discard i.operation) in
            (
              st',
              ap (λ o. o >>= submits) fills
                  ∙ ap sends created
                  ∙ ap (λ o. o >>= (λ r. some r.1)) step,
              holds,
              record {
                shared_cache = kept.shared_cache;
                running = kept.running;
                count = kept.count;
              },
            )
      ]

  -- The loop ends at the first "exit".
  commands-Kept :
      (inputs : List Input) (st : State (s.World))
      → has_exit inputs ≡ true
      → Holds st.shared.cache.cache_map f
      → (st' : State (s.World)) × (commands s mem buffer inputs st ≡ some st')
        × Holds st'.shared.cache.cache_map f
        × Kept st st'
  unfolding commands
  commands-Kept [] st ends holds = absurd (ground arith)
  commands-Kept (i ∷ rest) st ends holds =
      let by_send : Bool → Option (State (s.World)) = λ b. elim b [
        | true ↦ send_pio s mem buffer i st >>= (λ st'. commands s mem buffer rest st')
        | false ↦ commands s mem buffer rest st
      ] in
      let by_exit : Bool → Option (State (s.World)) =
        λ b. elim b [ true ↦ some st | false ↦ by_send (same_text i.line send_line) ] in
      elim (Bool-cases (same_text i.line exit_line)) [
        | inl leaves ↦ (st, ap by_exit leaves, holds, Kept-refl st)
        | inr stays ↦
            let more : has_exit rest ≡ true = ap (λ b. b || has_exit rest) (sym stays) ∙ ends in
            elim (Bool-cases (same_text i.line send_line)) [
              | inr other ↦
                  let (st', run, holds', kept) = commands-Kept rest st more holds in
                  (st', ap by_exit stays ∙ ap by_send other ∙ run, holds', kept)
              | inl sends ↦
                  let (st₁, sent, holds₁, kept₁) = send_pio-Kept i st holds in
                  let (st', run, holds', kept) = commands-Kept rest st₁ more holds₁ in
                  (
                    st',
                    ap by_exit stays
                        ∙ ap by_send sends
                        ∙ ap (λ o. o >>= (λ st'. commands s mem buffer rest st')) sent
                        ∙ run,
                    holds',
                    Kept-trans kept₁ kept,
                  )
            ]
      ]

module _ (s : Storage) (os : Shm.System (s.World)) (nvme : Nvme (s.World)) (th : Threads (s.World))
    (mem : Memory (s.World)) (sizeof_cache : ℕ) where
  -- What follows the link.
  abbrev session : List Input → ℕ → State (s.World) → Option (State (s.World))
  session inputs rc st₁ =
      if rc == 0
      then (do
        let (buffer, w) = mem.alloc_dma_buffer st₁.world
        st₂ ← commands s mem buffer inputs (record st₁ { world = w })
        let st₃ = record st₂ { world = mem.free_dma_buffer buffer st₂.world }
        some (unlink_ssd_cache os nvme th sizeof_cache st₃).1)
      else some st₁

  freed : ℕ → State (s.World) → State (s.World)
  freed buffer st₂ = record st₂ { world = mem.free_dma_buffer buffer st₂.world }

  unlinks : ℕ → State (s.World) → Option (State (s.World))
  unfolding freed
  unlinks buffer st₂ = some (unlink_ssd_cache os nvme th sizeof_cache (freed buffer st₂)).1

  module _ {f : Flight} (usable : (w : s.World) → IsBuffer s mem (mem.alloc_dma_buffer w).0) where
    session-count :
        (inputs : List Input) (st : State (s.World)) {rc : ℕ} {st₁ : State (s.World)}
        → has_exit inputs ≡ true
        → st.shared.count < unsigned_mod
        → Holds st.shared.cache.cache_map f
        → Visit os nvme th sizeof_cache st rc st₁
        → (st' : State (s.World)) × (session inputs rc st₁ ≡ some st')
          × Holds st'.shared.cache.cache_map f
          × (st'.shared.count ≡ st.shared.count)
    unfolding unlinks freed
    session-count inputs st ends small holds (refused st₁ same) = (
      st₁,
      refl,
      subst (λ (k : Shared). Holds k.cache.cache_map f) (sym same) holds,
      ap (λ (k : Shared). k.count) same,
    )
    session-count inputs st ends small holds (joins st₁ address at runs same back released) =
        let (buffer, w) = mem.alloc_dma_buffer st₁.world in
        let holds₁ = subst (λ (k : Shared). Holds k.cache.cache_map f) (sym same) holds in
        let (st₂, run, holds₂, kept) =
          commands-Kept s mem buffer (usable st₁.world) inputs (record st₁ { world = w }) ends
            holds₁ in
        let st₃ = freed buffer st₂ in
        let leaves =
          unlink_ssd_cache-leave_cache os nvme th sizeof_cache st₃ address (kept.shared_cache ∙ at)
            (kept.running ∙ ap (λ (k : Shared). k.running) same ∙ runs) in
        let (left, device) = leave_cache-shared os nvme th sizeof_cache address st₃ in
        let out = ap (λ r. r.1.shared) leaves ∙ left in
        (
          (unlink_ssd_cache os nvme th sizeof_cache st₃).1,
          ap (λ o. o >>= unlinks buffer) run,
          subst (λ (k : Shared). Holds k.cache.cache_map f) (sym out) holds₂,
          ap (λ (k : Shared). k.count) out
              ∙ ap unlink_count (kept.count ∙ ap (λ (k : Shared). k.count) same)
              ∙ link_count-unlink_count st.shared.count small,
        )

    -- If the DMA allocation succeeds with a buffer that `memset` can fill and on which `strlen` ends,
    -- whatever stands in memory, a controller that reports a first active namespace has it, the user count is below 2 ^ 32, the
    -- mapping keeps its invariant and the input has a line "exit", then a run of the client that no other
    -- process interrupts ends without a fault, whatever the system, the device and the files answer and
    -- whatever random pages it asks for. It leaves the user count as it was and keeps the invariant.
    pub client-count :
        HasNamespaces nvme
        → (rounds : ℕ) (inputs : List Input) (st : State (s.World)) → has_exit inputs ≡ true
        → st.shared.count < unsigned_mod
        → Holds st.shared.cache.cache_map f
        → (st' : State (s.World)) × (client s os nvme th mem sizeof_cache (suc rounds) inputs st
            ≡ some st')
          × Holds st'.shared.cache.cache_map f
          × (st'.shared.count ≡ st.shared.count)
    unfolding client
    client-count has rounds inputs st ends small holds =
        let (rc, st₁, linked, visit) =
          link_ssd_cache-unlink_ssd_cache os nvme th sizeof_cache has rounds st small in
        let (st', run, holds', count) = session-count inputs st ends small holds visit in
        (st', ap (λ o. o >>= (λ r. session inputs r.0 r.1)) linked ∙ run, holds', count)
