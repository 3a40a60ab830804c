-- ===== src/Resource.antt =====
-- The resource policy: internal/resource/resource.go. Sizes are int64 values that are not negative,
-- far below 2 ^ 63, as natural numbers; the slice size and the one difference that may be negative are
-- integers.
-- The two computations in float64 are parameters.
pub mod Bounds
use panpack.Base.{
  ℕ, ◌+◌, ◌-◌, ◌*◌, ◌/◌, ◌%◌, ◌^◌, Bool, true, false, not, ◌&&◌, ◌||◌, Option, none, some, Error,
  message, Result, ok, err, ltb, leb, ◌==◌, if◌then◌else◌, List, [], ◌∷◌,
}
use panpack.Base.Int.{ℤ, pos, pos_part, sub_ℕ, leb_ℤ, ltb_ℤ}

abbrev pub mib : ℕ
mib = 2 ^ 20

abbrev pub gib : ℕ
gib = 2 ^ 30

abbrev pub max_int64 : ℕ
max_int64 = 2 ^ 63 - 1

pub record Snapshot : Type 0 where
  pub disk_free : ℕ
  pub disk_total : ℕ
  pub memory_limit : ℕ
  pub memory_current : ℕ
  pub memory_available : ℕ

pub record Limits : Type 0 where
  pub min_free : ℕ
  pub min_volume : ℕ
  pub max_volume : ℕ
  pub requested_volume : ℕ
  pub max_upload_concurrency : ℕ
  pub slice_size : ℤ

pub record Policy : Type 0 where
  pub reserve_bytes : ℕ
  pub volume_bytes : ℕ
  pub initial_concurrency : ℕ
  pub max_concurrency : ℕ
  pub memory_available : ℕ
  pub disk_free : ℕ

-- int64(float64(s.DiskTotal) * l.ReserveFraction), and int(math.Ceil(cpu * 16)) for the quota of
-- the snapshot, or for the number of processors where there is none.
pub record Floats : Type 0 where
  pub fraction : ℕ → ℕ
  pub cpu_requests : ℕ

abbrev pub default_limits : Limits
default_limits = record {
  min_free = 4 * gib;
  min_volume = 64 * mib;
  max_volume = 2 * gib;
  requested_volume = 0;
  max_upload_concurrency = 16;
  slice_size = pos (4 * mib);
}

min_int : ℕ → List ℕ → ℕ
min_int v [] = v
min_int v (n ∷ rest) = min_int (if ltb n v then n else v) rest

-- The reserve: the larger of the absolute and the relative one.
reserve_of : Floats → Snapshot → Limits → ℕ
reserve_of f s l =
    let part = f.fraction s.disk_total in if ltb l.min_free part then part else l.min_free

-- The volume within its bounds, in whole tar blocks.
clamp_volume : Limits → ℕ → ℕ
clamp_volume l volume =
    let high = if ltb l.max_volume volume then l.max_volume else volume in
    let low = if ltb high l.min_volume then l.min_volume else high in low - low % 512

-- What the volume may take of the safe size.
volume_of : Limits → ℕ → Result ℕ
unfolding clamp_volume
volume_of l safe =
    if ltb 0 l.requested_volume && ltb safe l.requested_volume
    then err (message "requested volume exceeds current safe disk cap")
    else ok (clamp_volume l (if ltb 0 l.requested_volume then l.requested_volume else safe))

memory_of : Snapshot → ℕ
memory_of s =
    if ltb 0 s.memory_available
    then s.memory_available
    else if ltb s.memory_current s.memory_limit
    then s.memory_limit - s.memory_current
    else 512 * mib

at_least_one : ℕ → ℕ
at_least_one n = if ltb n 1 then 1 else n

concurrency_of : Floats → Snapshot → Limits → ℕ
unfolding min_int memory_of at_least_one
concurrency_of f s l = min_int l.max_upload_concurrency (
    at_least_one (memory_of s / 3 / (3 * pos_part l.slice_size + 8 * mib))
    ∷ at_least_one f.cpu_requests
    ∷ [])

policy_of : Floats → Snapshot → Limits → ℕ → Result ℕ → Result Policy
unfolding concurrency_of
policy_of f s l reserve (err e) = err e
policy_of f s l reserve (ok volume) =
    let highest = concurrency_of f s l in
    ok (record {
      reserve_bytes = reserve;
      volume_bytes = volume;
      initial_concurrency = if ltb 4 highest then 4 else highest;
      max_concurrency = highest;
      memory_available = memory_of s;
      disk_free = s.disk_free;
    })

unfoldable pub plan : Floats → Snapshot → Limits → Result Policy
unfolding policy_of volume_of reserve_of
plan f s l =
    let reserve = reserve_of f s l in
    let usable = sub_ℕ s.disk_free reserve in
    if l.min_volume == 0 || ltb l.max_volume l.min_volume
    then err (message "invalid volume-size bounds")
    else if leb_ℤ l.slice_size (pos 0)
    then err (message "slice size must be positive")
    else if ltb l.max_upload_concurrency 1
    then err (message "max upload concurrency must be at least 1")
    else if ltb_ℤ usable (pos (l.min_volume * 2))
    then err (message "not enough free space")
    else policy_of f s l reserve (volume_of l ((s.disk_free - reserve) / 2))

-- The product, or the largest int64.
unfoldable pub saturating_mul : ℕ → ℕ → ℕ
saturating_mul a b =
    if a == 0 || b == 0 then 0 else if ltb (max_int64 / b) a then max_int64 else a * b

-- The values are int64 that are not negative; a negative one counts as 0 in the source.
unfoldable pub cgroup_memory_available : ℕ → ℕ → ℕ → ℕ
cgroup_memory_available limit current inactive_file =
    let inactive = if ltb current inactive_file then current else inactive_file in
    let headroom = limit - current in
    if limit == 0 then 0 else if leb (limit - headroom) inactive then limit else headroom + inactive
