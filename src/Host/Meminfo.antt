-- ===== src/Host/Meminfo.antt =====
-- src/lib.rs `native_host_stats`: the load and the memory of the host, as the kernel reports them.
use allgres.Base.{ℕ, ◌-◌, ◌/◌, Option, none, some, List, [], ◌∷◌, Map, empty_map, insert, value_or}
use allgres.Bytes.{Bytes, lit}
use allgres.Bytes.Compare.{bytes_key}
use allgres.Bytes.Split.{lines, split_once, split_whitespace, trim}
use allgres.Json.{Json, null, num, obj, end, entry, ◌>>=◌}

-- The three averages; `to_f64` reads a number and gives it as JSON.
pub parse_loadavg : (Bytes → Option Json) → List Bytes → Option Json
parse_loadavg to_f64 (a ∷ b ∷ c ∷ rest) = do
  one ← to_f64 a
  five ← to_f64 b
  fifteen ← to_f64 c
  some (obj (entry "load1" one (entry "load5" five (entry "load15" fifteen end))))
parse_loadavg to_f64 _ = none

abbrev first_word : List Bytes → Option Bytes
first_word [] = none
first_word (w ∷ ws) = some w

-- One line, `key: number unit`; a line of another form ends it all.
unfoldable pub read_line : (Bytes → Option ℕ) → Bytes → Map Bytes ℕ → Option (Map Bytes ℕ)
read_line to_u64 line kv = do
  parts ← split_once b':' line
  word ← first_word (split_whitespace (trim parts.1))
  n ← to_u64 word
  some (insert parts.0 n kv)

unfoldable pub read_lines : (Bytes → Option ℕ) → List Bytes → Map Bytes ℕ → Option (Map Bytes ℕ)
read_lines to_u64 [] kv = some kv
read_lines to_u64 (l ∷ ls) kv = read_line to_u64 l kv >>= read_lines to_u64 ls

-- `used_pct` is a floating-point number of both; the digits of a number are an argument.
pub memory_of : (ℕ → ℕ → Json) → (ℕ → Bytes) → Map Bytes ℕ → Option Json
memory_of pct digits kv = do
  total_kb ← kv (lit "MemTotal")
  avail_kb ← kv (lit "MemAvailable")
  some (
      obj (
        entry "total_mb" (num (digits (total_kb / 1024))) (
          entry "used_mb" (num (digits ((total_kb - avail_kb) / 1024))) (
            entry "available_mb" (num (digits (avail_kb / 1024)))
              (entry "used_pct" (pct (total_kb - avail_kb) total_kb) end)))))

abbrev or_null : Option Json → Json
or_null = value_or null

-- The two files, where they can be read, and the number of processors.
pub native_host_stats :
    (Bytes → Option Json)
    → (Bytes → Option ℕ)
    → (ℕ → ℕ → Json)
    → (ℕ → Bytes)
    → Option Bytes
    → Option Bytes
    → ℕ
    → Json
native_host_stats to_f64 to_u64 pct digits loadavg meminfo cpus = obj (
    entry "load" (or_null (loadavg >>= (λ s. parse_loadavg to_f64 (split_whitespace s)))) (
      entry "memory"
        (or_null
          (meminfo >>= (λ s. read_lines to_u64 (lines s) empty_map >>= memory_of pct digits)))
        (entry "cpu_count" (num (digits cpus)) end)))
