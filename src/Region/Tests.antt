-- ===== src/Region/Tests.antt =====
-- src/region/filename.c at the prefix `r`, the extension `mca` and one-digit coordinates.
use libclod.Prelude.{
  ℕ, true, ◌+◌, ◌-◌, false, Option, some, none, List, [], ◌∷◌, ◌≡◌, refl, if◌then◌else◌, ltb, leb,
  get_or, ℤ, pos, negsuc,
}
use libclod.Region.Filename.{
  copy_loop, str_copy, print_text, make_loop, filename_make, match_loop, pos_loop,
  extension_matches, filename_parse_pos,
}
use libclod.Compression.Support.{Libraries, compression_support}
use libclod.Region.Options.{
  RegionOpts, read_steps, read_opts, read_version, read_dims, read_mode, read_unix, read_prefix,
  read_exts, read_compression, and_then, store_fd, is_vanilla_compatible, starts_with,
}
use libclod.Region.Accepted.{IsInRange, read_opts_one, read_opts_lem}
use libclod.Region.StrCopy.{EndsAt, copied, str_copy_lem}

abbrev prefix : ℕ → ℕ
prefix a = get_or (114 ∷ []) a 0

abbrev extension : ℕ → ℕ
extension a = get_or (109 ∷ 99 ∷ 97 ∷ []) a 0

-- `r.5.mca`
abbrev filename : ℕ → ℕ
filename a = get_or (114 ∷ 46 ∷ 53 ∷ 46 ∷ 109 ∷ 99 ∷ 97 ∷ []) a 0

-- Numbers of one digit.
abbrev print : ℤ → List ℕ
print (pos n) = (48 + n) ∷ []
print (negsuc n) = 45 ∷ (49 + n) ∷ []

abbrev strtoll : (ℕ → ℕ) → ℕ → ℤ × ℕ
strtoll text at =
    (pos (text at - 48), if leb 48 (text at) then if ltb (text at) 58 then at + 1 else at else at)

abbrev shown : Option ((ℕ → ℕ) × ℕ) → List ℕ
shown none = []
shown (some (f, n)) = n ∷ f 0 ∷ f 1 ∷ f 2 ∷ f 3 ∷ f 4 ∷ f 5 ∷ f 6 ∷ f 7 ∷ []

makes_name :
    shown (filename_make print prefix extension (pos 5 ∷ []))
    ≡ 7 ∷ 114 ∷ 46 ∷ 53 ∷ 46 ∷ 109 ∷ 99 ∷ 97 ∷ 0 ∷ []
unfolding filename_make str_copy copy_loop make_loop print_text
makes_name = refl

-- The name that is made of a coordinate is not read back: the offset behind it is added twice.
parses_back : filename_parse_pos strtoll filename prefix extension 1 ≡ (false, pos 5 ∷ [])
unfolding filename_parse_pos match_loop pos_loop extension_matches
parses_back = refl

str_copy_lem_example :
    (n : ℕ) × (EndsAt 255 2 0 46 filename 0 7 n)
    × ((str_copy (λ a. 0) 255 2 filename 7 0 46).1 ≡ 2 + n)
    × ((str_copy (λ a. 0) 255 2 filename 7 0 46).2 ≡ 0 + n)
    × ((a : ℕ)
        → (str_copy (λ b. 0) 255 2 filename 7 0 46).0 a ≡ copied 255 2 0 46 filename (λ b. 0) 0 n a)
str_copy_lem_example = str_copy_lem 255 2 0 46 filename (λ a. 0) 7

abbrev no_libraries : Libraries
no_libraries = record { deflate = false; lz4 = false; lzma = false; zstd = false; bz2 = false }

abbrev nothing_set : RegionOpts
nothing_set = record {
  version = 0;
  dims = 0;
  mode = 0;
  compression = 0;
  unix_fd = pos 0;
  unix_file_perms = 0;
  prefix = λ i. 0;
  region_ext = λ i. 0;
  chunk_ext = λ i. 0;
}

abbrev three_dims : RegionOpts
three_dims = record nothing_set { version = 1; dims = 3 }

three_dims-passes : (read_steps no_libraries nothing_set three_dims).0 ≡ true
unfolding read_steps read_version read_dims read_mode read_unix read_prefix read_exts
    read_compression and_then store_fd is_vanilla_compatible starts_with compression_support
three_dims-passes = refl

-- Options of another version are refused, with the same result as those that are accepted.
nothing_set-fails : (read_steps no_libraries nothing_set nothing_set).0 ≡ false
unfolding read_steps read_version and_then
nothing_set-fails = refl

refused_one : (read_opts no_libraries nothing_set nothing_set).0 ≡ 1
refused_one = read_opts_one no_libraries nothing_set nothing_set

read_opts_lem_example :
    ((read_opts no_libraries nothing_set three_dims).0 ≡ 1)
    × IsInRange (read_opts no_libraries nothing_set three_dims).1
read_opts_lem_example = read_opts_lem no_libraries nothing_set three_dims three_dims-passes
