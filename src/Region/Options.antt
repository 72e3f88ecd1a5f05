-- ===== src/Region/Options.antt =====
-- The reading of a region's options: `read_opts` of src/region/region_open.c, with
-- `is_vanilla_compatible` of src/region/region_impl.h. The messages that `region_error` prints are left out.
use libclod.Prelude.{
  ℕ, zero, suc, ◌+◌, Bool, true, false, List, [], ◌∷◌, ltb, ◌==◌, ◌&&◌, ◌||◌, not, if◌then◌else◌,
  set, count, get_or, ℤ, pos, negsuc,
}
use libclod.Compression.Support.{Libraries, compression_support}
use libclod.Region.Filename.{prefix_max, dimensions_max}

-- `struct clod_region_opts`, less the sector size, which `read_opts` does not touch.
pub record RegionOpts : Type 0 where
  pub version : ℕ
  pub dims : ℕ
  pub mode : ℕ
  pub compression : ℕ
  pub unix_fd : ℤ
  pub unix_file_perms : ℕ
  pub prefix : ℕ → ℕ
  pub region_ext : ℕ → ℕ
  pub chunk_ext : ℕ → ℕ

abbrev extension_length : ℕ
extension_length = 10

abbrev pub literal : List ℕ → ℕ → ℕ
literal chars i = get_or chars i 0

-- `"region"`, `"mcr"`, `"mca"` and `"mcc"`
abbrev region_name : List ℕ
region_name = 114 ∷ 101 ∷ 103 ∷ 105 ∷ 111 ∷ 110 ∷ []

abbrev mcr : List ℕ
mcr = 109 ∷ 99 ∷ 114 ∷ []

abbrev mca : List ℕ
mca = 109 ∷ 99 ∷ 97 ∷ []

abbrev mcc : List ℕ
mcc = 109 ∷ 99 ∷ 99 ∷ []

-- `strncpy(dst, src, n)`: the text, and zeros up to `n`.
unfoldable pub strncpy : (ℕ → ℕ) → (ℕ → ℕ) → ℕ → ℕ → ℕ
strncpy dst src n i =
    if not (ltb i n) then dst i else if count (λ j. src j == 0) i == 0 then src i else 0

-- `memcmp(a, text, strlen(text)) == 0`
unfoldable pub starts_with : (ℕ → ℕ) → List ℕ → Bool
starts_with a [] = true
starts_with a (c ∷ text) = a 0 == c && starts_with (λ i. a (i + 1)) text

-- `is_vanilla_compatible(opts)`
unfoldable pub is_vanilla_compatible : RegionOpts → Bool
is_vanilla_compatible opts =
    opts.dims == 2
    && starts_with opts.prefix region_name
    && (starts_with opts.region_ext mca || starts_with opts.region_ext mcr)

-- The options so far, and whether the reading goes on.
abbrev pub Reading : Type 0
Reading = Bool × RegionOpts

unfoldable pub read_version : RegionOpts → RegionOpts → Reading
read_version dst src = if src.version == 1 then (true, record dst { version = 1 }) else (false, dst)

unfoldable pub read_dims : RegionOpts → RegionOpts → Reading
read_dims dst src =
    if src.dims == 0
    then (true, record dst { dims = 2 })
    else if ltb dimensions_max src.dims
    then (false, dst)
    else (true, record dst { dims = src.dims })

unfoldable pub read_mode : RegionOpts → RegionOpts → Reading
read_mode dst src =
    if src.mode == 0
    then (true, record dst { mode = 2 })
    else if not (src.mode == 2) && not (src.mode == 1)
    then (false, dst)
    else (true, record dst { mode = src.mode })

unfoldable pub store_fd : RegionOpts → ℤ → Reading
store_fd dst (pos zero) = (true, dst)
store_fd dst (pos (suc n)) = (true, record dst { unix_fd = pos (suc n) })
store_fd dst (negsuc n) = (false, dst)

-- The descriptor and, if it is accepted, the permissions.
unfoldable pub read_unix : RegionOpts → RegionOpts → Reading
read_unix dst src =
    let (passed, d) = store_fd dst src.unix_fd in
    let perms = if src.unix_file_perms == 0 then d.unix_file_perms else src.unix_file_perms in
    (passed, if passed then record d { unix_file_perms = perms } else d)

unfoldable pub read_prefix : RegionOpts → RegionOpts → Reading
read_prefix dst src =
    let dotted = ltb 0 (count (λ i. src.prefix i == 46) prefix_max) in
    let copied = set (strncpy dst.prefix src.prefix prefix_max) prefix_max 0 in
    let standard = strncpy dst.prefix (literal region_name) (prefix_max + 1) in
    if src.prefix 0 == 0
    then (true, record dst { prefix = standard })
    else if dotted
    then (false, dst)
    else (true, record dst { prefix = copied })

-- An extension: the caller's, or the one that is given in its place.
unfoldable pub read_ext : (ℕ → ℕ) → (ℕ → ℕ) → List ℕ → ℕ → ℕ
read_ext dst src standard =
    if src 0 == 0
    then strncpy dst (literal standard) (extension_length + 1)
    else set (strncpy dst src extension_length) extension_length 0

unfoldable pub read_exts : RegionOpts → RegionOpts → RegionOpts
read_exts dst src = record dst {
  region_ext = read_ext dst.region_ext src.region_ext mcr;
  chunk_ext = read_ext dst.chunk_ext src.chunk_ext mcc;
}

unfoldable pub read_compression : Libraries → RegionOpts → RegionOpts → Reading
read_compression libs dst src =
    if not (src.compression == 0)
    then if compression_support libs src.compression
      then (true, record dst { compression = src.compression })
      else (false, dst)
    else if is_vanilla_compatible dst
    then (compression_support libs 3, dst)
    else (true, record dst { compression = if compression_support libs 5 then 5 else 1 })

-- An early return with `CLOD_REGION_INVALID_USAGE`, or the next step.
unfoldable pub and_then : Reading → (RegionOpts → Reading) → Reading
and_then (true, dst) next = next dst
and_then (false, dst) next = (false, dst)

-- The steps of `read_opts`: whether all of them are passed, and the options written.
unfoldable pub read_steps : Libraries → RegionOpts → RegionOpts → Reading
read_steps libs dst src = and_then (read_version dst src) (λ d1. and_then (read_dims d1 src) (λ d2.
    and_then (read_mode d2 src) (λ d3.
      and_then (read_unix d3 src) (λ d4.
        and_then (read_prefix d4 src) (λ d5. read_compression libs (read_exts d5 src) src)))))

-- `CLOD_REGION_INVALID_USAGE`, and `true` as a `clod_region_result`
abbrev pub result_of : Bool → ℕ
result_of false = 1
result_of true = 1

-- `read_opts(dst, src)`: the result and the options written.
unfoldable pub read_opts : Libraries → RegionOpts → RegionOpts → ℕ × RegionOpts
read_opts libs dst src = let (passed, opts) = read_steps libs dst src in (result_of passed, opts)
