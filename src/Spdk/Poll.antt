-- ===== src/Spdk/Poll.antt =====
-- The polling loops end when the driver runs the callback, and pass on the result of the submission.
use user_level_ssd_cache_fra.Common.{Option, none, ℕ, zero, suc, ◌≡◌, Bool, true, false, ◌||◌, some}
use user_level_ssd_cache_fra.Spdk.{QueueType, Driver}

abbrev ran : Option ℕ → Bool
ran none = false
ran (some status) = true

module _ (d : Driver) where
  -- one of the next `n` calls of `process_completions` runs the callback
  abbrev pub completes : ℕ → QueueType → d.World → Bool
  completes zero q w = false
  completes (suc n) q w =
      let (called, w₁) = d.process_completions q w in ran called || completes n q w₁

  -- A command that has been refused, or whose callback runs within `n` calls.
  abbrev pub IsAnswered : ℕ → QueueType → ℕ × d.World → Type 0
  IsAnswered n q (rc, w) = rc ≡ 0 → completes n q w ≡ true
