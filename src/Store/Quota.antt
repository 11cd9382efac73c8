-- ===== src/Store/Quota.antt =====
-- store/quota.go: the byte and count budgets. The counters are int64; a successful compare-and-swap
-- is one step, so a reservation is one function.
use buff.Common.{
  ℕ, ◌+◌, ◌≤◌, ◌<◌, ◌≡◌, Bool, true, false, not, ◌&&◌, ◌||◌, arith, add64, sub64, slt64, int64_end,
  ◌==◌, if◌then◌else◌, word, ◌⊎◌, inl, inr, dec_le,
}

pub record Config : Type 0 where
  pub max_clip : ℕ
  pub max_total : ℕ
  pub max_clips : ℕ
  pub default_ttl : ℕ

pub record Quota : Type 0 where
  pub max_clip : ℕ
  pub max_total : ℕ
  pub max_clips : ℕ
  pub bytes : ℕ
  pub clips : ℕ

unfoldable pub new_quota : Config → Quota
new_quota c = record {
  max_clip = c.max_clip;
  max_total = c.max_total;
  max_clips = c.max_clips;
  bytes = 0;
  clips = 0;
}

unfoldable pub restore_quota : Quota → ℕ → ℕ → Quota
restore_quota q bytes clips = record q { bytes = bytes; clips = clips }

unfoldable pub reserve : Quota → ℕ → Quota × Bool
reserve q n =
    if not (q.max_total == 0) && slt64 q.max_total (add64 q.bytes n)
    then (q, false)
    else (record q { bytes = add64 q.bytes n }, true)

unfoldable pub release : Quota → ℕ → Quota
release q n = if not (n == 0) then record q { bytes = sub64 q.bytes n } else q

unfoldable pub reserve_clip : Quota → Quota × Bool
reserve_clip q =
    if not (q.max_clips == 0) && slt64 q.max_clips (add64 q.clips 1)
    then (q, false)
    else (record q { clips = add64 q.clips 1 }, true)

unfoldable pub release_clip : Quota → Quota
release_clip q = record q { clips = sub64 q.clips 1 }

-- The footprint of a generation of `size` bytes.
unfoldable pub release_gen : Quota → ℕ → Quota
unfolding release release_clip
release_gen q size = release_clip (release q size)

unfoldable pub per_clip_ok : Quota → ℕ → ℕ → Bool
per_clip_ok q running n = q.max_clip == 0 || not (slt64 q.max_clip (add64 running n))

-- A reservation under a byte limit, of a chunk that does not run past int64 on top of it, is
-- granted exactly when the sum stays within the limit; granted, it adds exactly the chunk, and
-- refused it changes nothing.
pub reserve_within :
    (q : Quota) (n : ℕ)
    → 0 < q.max_total
    → q.max_total + n < int64_end
    → q.bytes ≤ q.max_total
    → ((q.bytes + n ≤ q.max_total) × (reserve q n ≡ (record q { bytes = q.bytes + n }, true)))
      ⊎ ((q.max_total < q.bytes + n) × (reserve q n ≡ (q, false)))
unfolding reserve
reserve_within q n h k w = elim (dec_le (q.bytes + n) q.max_total) [
  | yes e ↦ inl (e, ground arith)
  | no e ↦ inr (omega arith, ground arith)
]

-- What was reserved comes back: releasing a reservation restores the counters, also where the
-- counters wrap.
pub release-reserve :
    (q : Quota) (n : ℕ)
    → q.bytes < word
    → n < word
    → (reserve q n).1 ≡ true
    → release (reserve q n).0 n ≡ q
unfolding reserve release
release-reserve q n h k e = ground arith
