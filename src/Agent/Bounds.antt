-- ===== src/Agent/Bounds.antt =====
-- What the agent of cmd/agent/main.go reports of its memory and its disk.
use native.Mathlib.Nat.{mod-eq_of_lt, mul-le-mul_right}
use mini_bk.Prelude.{ℕ, ◌+◌, ◌-◌, ◌*◌, ◌%◌, ◌^◌, ◌<◌, ◌≤◌, String, ◌≡◌, arith, ltb, if◌then◌else◌}
use mini_bk.Prelude.Int.{pos, ◌≤ℤ◌, ◌<ℤ◌}
use mini_bk.Model.Errors.{ok}
use mini_bk.Agent.Machine.{
  Machine, Statfs, bytes, detect_memory, detect_memory_sysctl, detect_memory_proc, detect_disk,
  get_disk_used,
}
use mini_bk.Agent.Words.{collect_resources}

module _ {F : Type 0} (m : Machine F) where
  detect_memory-positive : 0 < detect_memory m
  unfolding detect_memory
  detect_memory-positive = by_size (detect_memory_sysctl m) (detect_memory_proc m)
    where
      by_size : (a b : ℕ) → 0 < (if ltb 0 a then a else if ltb 0 b then b else 8192)
      by_size a b = ground arith

  used-le :
      (fs : Statfs)
      → fs.free ≤ fs.blocks
      → fs.blocks * fs.block_size < 2 ^ 64
      → (bytes fs.blocks fs.block_size + 2 ^ 64 - bytes fs.free fs.block_size) % 2 ^ 64
        ≤ bytes fs.blocks fs.block_size
  used-le fs free small =
      let fewer : fs.free * fs.block_size ≤ fs.blocks * fs.block_size =
        mul-le-mul_right fs.block_size free in
      let total : bytes fs.blocks fs.block_size ≡ fs.blocks * fs.block_size = mod-eq_of_lt small in
      let rest : bytes fs.free fs.block_size ≡ fs.free * fs.block_size =
        mod-eq_of_lt (omega (arith, fewer, small)) in
      rw (total, rest) (omega (arith, fewer, small))

  get_disk_used-le :
      (path : String) (fs : Statfs)
      → m.statfs path ≡ ok fs
      → fs.free ≤ fs.blocks
      → fs.blocks * fs.block_size < 2 ^ 64
      → get_disk_used m path ≤ detect_disk m path
  unfolding get_disk_used detect_disk
  get_disk_used-le path fs h free small =
      let le = used-le fs free small in rw (get_disk_used, detect_disk, h) (omega (arith, le))

  -- Of what the agent sends with a heartbeat, the total memory is positive whatever the machine answers,
  -- and the used part of a disk of less than 2^64 bytes, whose free blocks are not more than its
  -- blocks, is not larger than the disk.
  pub collect_resources-bounds :
      (fs : Statfs)
      → m.statfs "/" ≡ ok fs
      → fs.free ≤ fs.blocks
      → fs.blocks * fs.block_size < 2 ^ 64
      → let r = collect_resources m in
        (pos 0 <ℤ r.memory_total_mb)
        × (pos 0 ≤ℤ r.disk_used_mb)
        × (r.disk_used_mb ≤ℤ r.disk_total_mb)
  unfolding collect_resources
  collect_resources-bounds fs h free small = (
    omega (arith, detect_memory-positive),
    omega arith,
    omega (arith, get_disk_used-le "/" fs h free small),
  )
