-- ===== src/Region/SystemTests.antt =====
-- The files and directories of regions over the system of Region/Sample, their times and headers.
use libclod.Prelude.{◌*◌, ◌%◌, ℤ, zero, suc, ℕ, ◌+◌, ◌≡◌, refl, arith, inr, false, some, pos}
use libclod.Vmath.Group.{vec_group}
use libclod.BigEndian.{beu_dec}
use libclod.Region.Options.{starts_with}
use libclod.Region.System.{Process, descriptor}
use libclod.Region.File
use libclod.Region.File.{file_close, file_unmap}
use libclod.Region.File.Balance.{IsSettled, file_open-IsSettled}
use libclod.Region.File.Truncate.{file_truncate_one}
use libclod.Region.Time.{time, timespec_diff_ns, timespec_diff_ns-exact}
use libclod.Region.Format.{
  Location, format_chunk_get, IsLocated, format_chunk_get-IsLocated, header_version,
  vanilla_location,
}
use libclod.Region.Sample.{name, granting, start, plain, file_of, owing}

file_open-IsSettled_example :
    IsSettled File.holds start (descriptor 3) (File.file_open granting start 51 name false plain)
file_open-IsSettled_example = file_open-IsSettled granting (descriptor 3) start 51 name false plain

file_truncate_one_run :
    (r : ℕ × File.File × Process ℕ) × (File.file_truncate granting owing (file_of 7) 100 ≡ some r)
    × (r.0 ≡ 1)
file_truncate_one_run =
    file_truncate_one granting owing (file_of 7) 100 refl (λ e. ground (arith, e))
      (inr (omega arith))

timespec_diff_ns-exact_example : timespec_diff_ns (time 4 999999999) (time 5 0) ≡ pos 1
timespec_diff_ns-exact_example =
    timespec_diff_ns-exact 4 999999999 5 0 (omega arith) (omega arith) (omega arith) (omega arith)

-- A file that is large enough for the locations, and numbers its bytes.
abbrev numbered_file : ℕ → ℕ
numbered_file i = i % 256

-- The position (3, 1): the entry of index 35 stands at 140.
abbrev place : ℕ → ℤ
place zero = pos 3
place (suc i) = pos 1

-- Of the entry 140, 141, 142, 143.
abbrev located : Location
located = ((140 * 65536 + 141 * 256 + 142) * 4096, 143 * 4096)

numbered_file-located : format_chunk_get numbered_file 8192 place 2 ≡ some located
unfolding format_chunk_get header_version vanilla_location starts_with beu_dec vec_group
numbered_file-located = refl

format_chunk_get-IsLocated_example : IsLocated numbered_file 8192 ((vec_group place 2 10).0) located
format_chunk_get-IsLocated_example =
    format_chunk_get-IsLocated numbered_file 8192 place 2 located numbered_file-located
