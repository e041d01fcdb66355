-- ===== src/Agent/Machine.antt =====
-- What the agent of cmd/agent/main.go finds out about its machine. The operating system is a parameter:
-- what it answers to the calls, and how its texts of the load read as `float64`.
use Prim.Native.Char.{code}
use mini_bk.Prelude.{
  ℕ, ◌+◌, ◌-◌, ◌*◌, ◌/◌, ◌%◌, ◌^◌, String, List, [], ◌∷◌, Option, none, some, Bool, true, false,
  ◌&&◌, ◌||◌, if◌then◌else◌, ◌==◌, leb, ltb,
}
use mini_bk.Prelude.Int.{ℤ, pos, ◌-ℤ◌}
use mini_bk.Prelude.Text.{strip}
use mini_bk.Prelude.Decimal.{scan_digits, is_digit, max_int}
use mini_bk.Model.Errors.{Result, ok, err}
use mini_bk.Executor.Output.{pieces}

-- A `Statfs_t`: blocks, their size, and how many are free, words of 64 bits.
pub record Statfs : Type 0 where
  pub blocks : ℕ
  pub block_size : ℕ
  pub free : ℕ

pub record Machine (F : Type 0) : Type 0 where
  pub hostname : Result String
  pub outbound : Result String
  pub num_cpu : ℤ
  pub sysctl : String → Result String
  pub read_file : String → Result String
  pub statfs : String → Result Statfs
  pub zero_load : F
  pub load_of_file : String → F
  pub load_of_sysctl : String → F

abbrev is_blank : ℕ → Bool
is_blank c = c == b' ' || c == 9

unfoldable pub skip_blanks : String → String
skip_blanks String.[] = String.[]
skip_blanks (String.◌∷◌ c s) =
    let rest = skip_blanks s in if is_blank (code c) then rest else String.◌∷◌ c s

-- The digits at the start of a text, and what comes after them.
unfoldable pub starts_with_digit : String → Bool
starts_with_digit String.[] = false
starts_with_digit (String.◌∷◌ c s) = is_digit (code c)

unfoldable pub after_digits : String → String
after_digits String.[] = String.[]
after_digits (String.◌∷◌ c s) =
    let rest = after_digits s in if is_digit (code c) then rest else String.◌∷◌ c s

-- `Sscanf(raw, "%d", &memBytes)` into a `uint64`, 0 on any error.
unfoldable pub scan_uint64 : String → ℕ
unfolding skip_blanks
scan_uint64 s = let n = scan_digits 0 (skip_blanks s) in if ltb n (2 ^ 64) then n else 0

-- A blank and the unit, at the end of the format.
starts_with_blank : String → Bool
starts_with_blank String.[] = false
starts_with_blank (String.◌∷◌ c s) = is_blank (code c)

abbrev has_rest : Option String → Bool
has_rest none = false
has_rest (some s) = true

unit_follows : String → Bool
unfolding starts_with_blank skip_blanks
unit_follows s = starts_with_blank s && has_rest (strip "kB" (skip_blanks s))

-- A number of digits as `%d` reads it into an `int`: nothing if there is none, or if it does not fit.
kilobytes : String → Option ℕ
unfolding starts_with_digit
kilobytes s =
    let n = scan_digits 0 s in if starts_with_digit s && leb n max_int then some n else none

-- `Sscanf(line, "MemTotal: %d kB", &kb)` after the name: the number that was stored, and whether there was
-- no error. /proc/meminfo has no signs.
unfoldable pub scan_kb : Option String → Option ℕ × Bool
unfolding kilobytes unit_follows starts_with_blank skip_blanks after_digits
scan_kb none = (none, false)
scan_kb (some rest) =
    let s = skip_blanks rest in
    if starts_with_blank rest then (kilobytes s, unit_follows (after_digits s)) else (none, false)

-- A total that was read without an error.
abbrev total_or : Option ℕ × Bool → ℕ → ℕ
total_or (some n, true) later = n / 1024
total_or (some n, false) later = later
total_or (none, _) later = later

-- What the loop of getMemoryUsed has read so far, each 0 at first.
pub record MemInfo : Type 0 where
  pub total : ℕ
  pub available : ℕ
  pub free : ℕ

abbrev or_old : Option ℕ × Bool → ℕ → ℕ
or_old (some n, _) old = n
or_old (none, _) old = old

-- A line of the total, of the available memory, or of the free memory where none is available.
unfoldable pub read_line : String → MemInfo → MemInfo
unfolding scan_kb
read_line line i =
    let total = or_old (scan_kb (strip "MemTotal:" line)) i.total in
    let available = or_old (scan_kb (strip "MemAvailable:" line)) i.available in
    record {
      total = total;
      available = available;
      free = if available == 0 then or_old (scan_kb (strip "MemFree:" line)) i.free else i.free;
    }

unfoldable pub read_lines : List String → MemInfo → MemInfo
unfolding read_line
read_lines [] i = i
read_lines (line ∷ rest) i = read_lines rest (read_line line i)

-- A difference over 1024, which Go rounds towards 0.
unfoldable pub megabytes : ℕ → ℕ → ℤ
megabytes total rest =
    if leb rest total then pos ((total - rest) / 1024) else pos 0 -ℤ pos ((rest - total) / 1024)

unfoldable pub used_of_info : MemInfo → ℤ
unfolding megabytes
used_of_info i =
    if ltb 0 i.available
    then megabytes i.total i.available
    else if ltb 0 i.free
    then megabytes i.total i.free
    else pos 0

-- Products and differences of words of 64 bits.
abbrev pub bytes : ℕ → ℕ → ℕ
bytes count size = count * size % 2 ^ 64

module _ {F : Type 0} (m : Machine F) where
  abbrev memory_bytes : Result String → ℕ
  memory_bytes (err e) = 0
  memory_bytes (ok raw) = scan_uint64 raw / 1024 / 1024

  unfoldable pub detect_memory_sysctl : ℕ
  unfolding scan_uint64
  detect_memory_sysctl = memory_bytes (m.sysctl "hw.memsize")

  -- The first line of the total that can be read.
  unfoldable pub total_line : List String → ℕ
  unfolding scan_kb
  total_line [] = 0
  total_line (line ∷ rest) =
      let later = total_line rest in total_or (scan_kb (strip "MemTotal:" line)) later

  abbrev total_of : Result String → ℕ
  total_of (err e) = 0
  total_of (ok content) = total_line (pieces content)

  unfoldable pub detect_memory_proc : ℕ
  unfolding total_line
  detect_memory_proc = total_of (m.read_file "/proc/meminfo")

  unfoldable pub detect_memory : ℕ
  unfolding detect_memory_sysctl detect_memory_proc
  detect_memory =
      if ltb 0 detect_memory_sysctl
      then detect_memory_sysctl
      else if ltb 0 detect_memory_proc
      then detect_memory_proc
      else 8192

  abbrev used_of : Result String → ℤ
  used_of (err e) = pos 0
  used_of (ok content) =
      used_of_info (read_lines (pieces content) (record { total = 0; available = 0; free = 0 }))

  unfoldable pub get_memory_used : ℤ
  unfolding used_of_info read_lines
  get_memory_used = used_of (m.read_file "/proc/meminfo")

  abbrev disk_total : Result Statfs → ℕ
  disk_total (err e) = 102_400
  disk_total (ok fs) = bytes fs.blocks fs.block_size / 1024 / 1024

  unfoldable pub detect_disk : String → ℕ
  detect_disk path = disk_total (m.statfs path)

  abbrev disk_used : Result Statfs → ℕ
  disk_used (err e) = 0
  disk_used (ok fs) =
      (bytes fs.blocks fs.block_size + 2 ^ 64 - bytes fs.free fs.block_size) % 2 ^ 64 / 1024 / 1024

  unfoldable pub get_disk_used : String → ℕ
  get_disk_used path = disk_used (m.statfs path)

  abbrev load_of_proc : Result String → F
  load_of_proc (err e) = m.zero_load
  load_of_proc (ok content) = m.load_of_file content

  abbrev load_of : Result String → F
  load_of (err e) = load_of_proc (m.read_file "/proc/loadavg")
  load_of (ok raw) = m.load_of_sysctl raw

  unfoldable pub get_load_avg : F
  get_load_avg = load_of (m.sysctl "vm.loadavg")

  abbrev or_loopback : Result String → String
  or_loopback (err e) = "127.0.0.1"
  or_loopback (ok ip) = ip

  unfoldable pub get_outbound_ip : String
  get_outbound_ip = or_loopback m.outbound
