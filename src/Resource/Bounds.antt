-- ===== src/Resource/Bounds.antt =====
-- The bounds of a policy: Plan of internal/resource/resource.go.
use panpack.Base.{ℕ, ◌+◌, ◌-◌, ◌*◌, ◌/◌, ◌≤◌, ◌≡◌, ◌⊎◌, arith, min, max}
use panpack.Base.Int.{pos_part}
use panpack.Resource.{Snapshot, Limits, Policy, Floats, at_least_one, cgroup_memory_available, mib}

-- What the planned volume and the number of workers respect.
pub record IsSafe (f : Floats) (s : Snapshot) (l : Limits) (p : Policy) : Type 0 where
  -- The reserve is the absolute and the relative one at least, and two volumes fit beside it.
  pub absolute : l.min_free ≤ p.reserve_bytes
  pub relative : f.fraction s.disk_total ≤ p.reserve_bytes
  pub fits : p.reserve_bytes + 2 * p.volume_bytes ≤ s.disk_free
  -- The volume is the size that is wanted, between the smallest and the largest one, in as many whole
  -- tar blocks as it has: it may be less than a block below the smallest size. Wanted is the size asked
  -- for, or half of what the reserve leaves where none is, and never more than that half.
  pub wanted : ℕ
  pub asked_for :
      (wanted ≡ l.requested_volume)
      ⊎ ((l.requested_volume ≡ 0) × (wanted ≡ (s.disk_free - p.reserve_bytes) / 2))
  pub affordable : wanted ≤ (s.disk_free - p.reserve_bytes) / 2
  pub volume : p.volume_bytes ≡ 512 * (max l.min_volume (min l.max_volume wanted) / 512)
  -- Some worker, four at most at first, and never more than asked for.
  pub workers : 1 ≤ p.initial_concurrency
  pub first : p.initial_concurrency ≤ 4
  pub growing : p.initial_concurrency ≤ p.max_concurrency
  pub asked : p.max_concurrency ≤ l.max_upload_concurrency
  -- More than one worker is only planned with memory for their buffers in a third of what is free.
  pub buffers :
      (p.max_concurrency ≡ 1)
      ⊎ (p.max_concurrency * (3 * pos_part l.slice_size + 8 * mib) * 3 ≤ p.memory_available)

record VolumeOk (l : Limits) (reserve free v : ℕ) : Type 0 where
  fits : reserve + 2 * v ≤ free
  wanted : ℕ
  asked_for :
      (wanted ≡ l.requested_volume) ⊎ ((l.requested_volume ≡ 0) × (wanted ≡ (free - reserve) / 2))
  affordable : wanted ≤ (free - reserve) / 2
  volume : v ≡ 512 * (max l.min_volume (min l.max_volume wanted) / 512)

record WorkersOk (l : Limits) (memory n : ℕ) : Type 0 where
  positive : 1 ≤ n
  asked : n ≤ l.max_upload_concurrency
  buffers : (n ≡ 1) ⊎ (n * (3 * pos_part l.slice_size + 8 * mib) * 3 ≤ memory)

record WorkersLe (c a b n : ℕ) : Type 0 where
  positive : 1 ≤ n
  asked : n ≤ c
  bounded : n ≤ at_least_one a

-- Memory counts as available up to the limit: what the group has not charged, and of what it has
-- the inactive file pages, of which there are at most as many as are charged.
pub cgroup_memory_available_lem :
    (limit current inactive : ℕ)
    → cgroup_memory_available limit current inactive
      ≡ min limit ((limit - current) + min inactive current)
unfolding cgroup_memory_available
cgroup_memory_available_lem limit current inactive = ground arith
