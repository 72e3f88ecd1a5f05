-- ===== src/Region/Accepted.antt =====
-- What `read_opts` of src/region/region_open.c accepts and returns.
use libclod.Prelude.{
  zero, suc, ◌≤◌, ◌≡◌, refl, ◌∙◌, ◌⊎◌, inl, inr, Bool, true, false, Bool-cases, ℤ, pos, negsuc,
  ◌==◌, arith,
}
use libclod.Compression.Support.{Libraries}
use libclod.Region.Options.{
  RegionOpts, Reading, read_version, read_dims, read_mode, store_fd, read_unix, read_prefix,
  read_exts, read_compression, and_then, read_steps, result_of, read_opts,
}

-- The dimensions and the mode are in range.
unfoldable pub IsInRange : RegionOpts → Type 0
IsInRange o = (1 ≤ o.dims) × (o.dims ≤ 10) × ((o.mode ≡ 1) ⊎ (o.mode ≡ 2))

and_then-IsInRange :
    (r : Reading) (next : RegionOpts → Reading)
    → (and_then r next).0 ≡ true
    → (r.0 ≡ true → (next r.1).0 ≡ true → IsInRange (next r.1).1)
    → IsInRange (and_then r next).1
unfolding and_then
and_then-IsInRange (true, dst) next passed rest = rest refl passed
and_then-IsInRange (false, dst) next passed rest = absurd (ground arith)

store_fd_keeps :
    (dst : RegionOpts) (fd : ℤ)
    → ((store_fd dst fd).1.mode ≡ dst.mode) × ((store_fd dst fd).1.dims ≡ dst.dims)
unfolding store_fd
store_fd_keeps dst (pos zero) = (refl, refl)
store_fd_keeps dst (pos (suc n)) = (refl, refl)
store_fd_keeps dst (negsuc n) = (refl, refl)

module _ (libs : Libraries) (dst src : RegionOpts) where
  read_dims_lem :
      (read_dims dst src).0 ≡ true
      → (1 ≤ (read_dims dst src).1.dims) × ((read_dims dst src).1.dims ≤ 10)
  unfolding read_dims
  read_dims_lem passed = (ground arith, ground arith)

  read_mode_lem :
      (read_mode dst src).0 ≡ true
      → (((read_mode dst src).1.mode ≡ 1) ⊎ ((read_mode dst src).1.mode ≡ 2))
        × ((read_mode dst src).1.dims ≡ dst.dims)
  unfolding read_mode
  read_mode_lem passed = elim (Bool-cases (src.mode == 0)) [
    | inl none ↦ rw none (inr refl, refl)
    | inr given ↦ elim (Bool-cases (src.mode == 2)) [
      | inl writes ↦ rw (given, writes) (inr (ground arith), refl)
      | inr not_both ↦ elim (Bool-cases (src.mode == 1)) [
        | inl reads ↦ rw (given, not_both, reads) (inl (ground arith), refl)
        | inr neither ↦ absurd (ground arith)
      ]
    ]
  ]

  pub read_unix_keeps :
      ((read_unix dst src).1.mode ≡ dst.mode) × ((read_unix dst src).1.dims ≡ dst.dims)
  unfolding read_unix
  read_unix_keeps =
      let (mode, dims) = store_fd_keeps dst src.unix_fd in
      elim (Bool-cases ((store_fd dst src.unix_fd).0)) [
        | inl passed ↦ rw passed (mode, dims)
        | inr stopped ↦ rw stopped (mode, dims)
      ]

  read_prefix_keeps :
      ((read_prefix dst src).1.mode ≡ dst.mode) × ((read_prefix dst src).1.dims ≡ dst.dims)
  unfolding read_prefix
  read_prefix_keeps = (ground arith, ground arith)

  read_compression_keeps :
      ((read_compression libs dst src).1.mode ≡ dst.mode)
      × ((read_compression libs dst src).1.dims ≡ dst.dims)
  unfolding read_compression
  read_compression_keeps = (ground arith, ground arith)

-- Options that pass every test of `read_opts` have between 1 and 10 dimensions and one of the two
-- modes.
pub read_steps-IsInRange :
    (libs : Libraries) (dst src : RegionOpts)
    → (read_steps libs dst src).0 ≡ true
    → IsInRange (read_steps libs dst src).1
unfolding read_steps read_exts IsInRange
read_steps-IsInRange libs dst src passed =
    let d1 = (read_version dst src).1 in
    let d2 = (read_dims d1 src).1 in
    let d3 = (read_mode d2 src).1 in
    let d4 = (read_unix d3 src).1 in
    let d5 = read_exts ((read_prefix d4 src).1) src in
    and_then-IsInRange (read_version dst src) _ passed (λ version_ok p1.
      and_then-IsInRange (read_dims d1 src) _ p1 (λ dims_ok p2.
        and_then-IsInRange (read_mode d2 src) _ p2 (λ mode_ok p3.
          and_then-IsInRange (read_unix d3 src) _ p3 (λ unix_ok p4.
            and_then-IsInRange (read_prefix d4 src) _ p4 (λ prefix_ok p5.
              let (mode5, dims5) = read_compression_keeps libs d5 src in
              let (mode4, dims4) = read_prefix_keeps libs d4 src in
              let (mode3, dims3) = read_unix_keeps libs d3 src in
              let (mode2, dims2) = read_mode_lem libs d2 src mode_ok in
              let (low, high) = read_dims_lem libs d1 src dims_ok in
              let dims = dims5 ∙ dims4 ∙ dims3 ∙ dims2 in
              let mode = mode5 ∙ mode4 ∙ mode3 in rw (dims, mode) (low, high, mode2))))))

-- Nothing in the result tells whether the options were accepted.
pub read_opts_one : (libs : Libraries) (dst src : RegionOpts) → (read_opts libs dst src).0 ≡ 1
unfolding read_opts
read_opts_one libs dst src = always_one (read_steps libs dst src).0
  where
    always_one : (passed : Bool) → result_of passed ≡ 1
    always_one true = refl
    always_one false = refl

-- From options that pass every test, `read_opts` writes between 1 and 10 dimensions and one of the
-- two modes; its result is 1.
pub read_opts_lem :
    (libs : Libraries) (dst src : RegionOpts)
    → (read_steps libs dst src).0 ≡ true
    → ((read_opts libs dst src).0 ≡ 1) × IsInRange (read_opts libs dst src).1
unfolding read_opts
read_opts_lem libs dst src passed =
    (read_opts_one libs dst src, read_steps-IsInRange libs dst src passed)
