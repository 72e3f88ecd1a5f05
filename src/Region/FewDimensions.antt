-- ===== src/Region/FewDimensions.antt =====
-- The number of dimensions that `read_opts` of src/region/region_open.c writes.
use libclod.Prelude.{◌≤◌, arith, true, false}
use libclod.Compression.Support.{Libraries}
use libclod.Region.Options.{
  RegionOpts, Reading, read_version, read_dims, read_mode, read_unix, read_prefix, read_exts,
  read_compression, and_then, read_steps, read_opts,
}
use libclod.Region.Accepted.{read_unix_keeps}

-- Each step of `read_opts` leaves at most 10 dimensions.
abbrev Few : Reading → Type 0
Few r = r.1.dims ≤ 10

and_then-Few :
    (r : Reading) (next : RegionOpts → Reading)
    → Few r
    → ((o : RegionOpts) → o.dims ≤ 10 → Few (next o))
    → Few (and_then r next)
unfolding and_then
and_then-Few (true, o) next few rest = rest o few
and_then-Few (false, o) next few rest = few

module _ (libs : Libraries) (dst src : RegionOpts) (few : dst.dims ≤ 10) where
  read_version-Few : Few (read_version dst src)
  unfolding read_version
  read_version-Few = ground (arith, few)

  read_dims-Few : Few (read_dims dst src)
  unfolding read_dims
  read_dims-Few = ground (arith, few)

  read_mode-Few : Few (read_mode dst src)
  unfolding read_mode
  read_mode-Few = ground (arith, few)

  read_prefix-Few : Few (read_prefix dst src)
  unfolding read_prefix
  read_prefix-Few = ground (arith, few)

  read_compression-Few : Few (read_compression libs dst src)
  unfolding read_compression
  read_compression-Few = ground (arith, few)

  read_unix-Few : Few (read_unix dst src)
  read_unix-Few = let (mode, dims) = read_unix_keeps libs dst src in omega (arith, dims, few)

-- `read_opts` writes at most 10 dimensions, also where it refuses the options.
pub read_opts_few :
    (libs : Libraries) (dst src : RegionOpts) → dst.dims ≤ 10 → (read_opts libs dst src).1.dims ≤ 10
unfolding read_opts read_steps read_exts
read_opts_few libs dst src few =
    and_then-Few (read_version dst src) _ (read_version-Few libs dst src few) (λ o1 few1.
      and_then-Few (read_dims o1 src) _ (read_dims-Few libs o1 src few1) (λ o2 few2.
        and_then-Few (read_mode o2 src) _ (read_mode-Few libs o2 src few2) (λ o3 few3.
          and_then-Few (read_unix o3 src) _ (read_unix-Few libs o3 src few3) (λ o4 few4.
            and_then-Few (read_prefix o4 src) _ (read_prefix-Few libs o4 src few4)
              (λ o5 few5. read_compression-Few libs _ src few5)))))
