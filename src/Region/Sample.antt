-- ===== src/Region/Sample.antt =====
-- A system that grants every call and answers with the next number each time, and a region over it.
use libclod.Prelude.{
  none, ℕ, ◌+◌, ◌≤◌, arith, true, false, some, List, [], ◌∷◌, ℤ, pos, negsuc, length, if◌then◌else◌,
  ltb,
}
use libclod.Compression.Support.{Libraries}
use libclod.Region.Options.{RegionOpts}
use libclod.Region.System.{opened, DirAnswer, dir_end, dir_entry, Os, Process}
use libclod.Region.File
use libclod.Region.File.{file_close, file_unmap}
use libclod.Region.Time.{time}
use libclod.Region.Cache.{FileCache, Region}

abbrev pub name : ℕ → ℕ
name i = 97

-- Two entries, the first of which is no regular file; the second comes without its type.
abbrev entries : ℕ → DirAnswer × ℕ
entries w =
    if ltb w 1
    then (dir_entry name (some false), 1)
    else if ltb w 2
    then (dir_entry name none, 2)
    else (dir_end, w)

abbrev pub granting : Os ℕ
granting = record {
  enoent = 2;
  have_statx = true;
  have_mremap = false;
  sizeof_file = 32;
  sizeof_region_file = 64;
  sizeof_region = 256;
  openat = λ w d n flags mode. (opened w, w + 1);
  open_directory = λ w at path. (some w, w + 1);
  have_d_type = true;
  dup = λ w fd. (some w, w + 1);
  fdopendir = λ w fd. (some w, w + 1);
  closedir = λ w d. (false, w);
  readdir = λ w d. entries w;
  dirfd = λ w d. (some w, w);
  is_regular = λ w fd n. (some true, w);
  renameat = λ w d a b. (false, w);
  statx = λ w fd. (some 4096, w);
  fstat = λ w fd. (some 4096, w);
  mmap = λ w size write fd. (some w, w + 1);
  munmap = λ w a size. (false, w);
  mremap = λ w a old new. (some w, w + 1);
  ftruncate = λ w fd size. (false, w);
  close = λ w fd. (false, w);
  malloc = λ w size. (some w, w + 1);
  free = λ w a. w;
  monotonic_now = λ w. (some (time 5 0), w);
  more_procs = λ w. (1, w);
}

abbrev pub start : Process ℕ
start = record { world = 3; owed = λ x. 0; readers = λ a. 0; cache_max = 0 }

abbrev pub digit : ℤ → List ℕ
digit (pos n) = (48 + n) ∷ []
digit (negsuc n) = 45 ∷ (49 + n) ∷ []

pub digit_short : (z : ℤ) → length (digit z) ≤ 20
digit_short (pos n) = omega arith
digit_short (negsuc n) = omega arith

abbrev pub plain : RegionOpts
plain = record {
  version = 1;
  dims = 2;
  mode = 2;
  compression = 1;
  unix_fd = pos 0;
  unix_file_perms = 0;
  prefix = λ i. 0;
  region_ext = λ i. 0;
  chunk_ext = λ i. 0;
}

abbrev pub no_libraries : Libraries
no_libraries = record { deflate = false; lz4 = false; lzma = false; zstd = false; bz2 = false }

abbrev pub origin : List ℤ
origin = pos 0 ∷ pos 0 ∷ []

abbrev pub beside : List ℤ
beside = pos 1 ∷ pos 0 ∷ []

abbrev pub file_of : ℕ → File.File
file_of n = record { address = n; map = some n; size = 4096; fd = n; writeable = true }

-- The slot of an open file that was last used in the second `s`.
abbrev pub slot : ℕ → ℕ → List ℤ → FileCache
slot n s at = record {
  rf = some (record { address = 100 + n; f = file_of n });
  last_access = time s 0;
  pos = at;
}

abbrev pub two_slots : Region
two_slots = record {
  address = 50;
  opts = plain;
  inside = 0;
  locked = false;
  dir = 51;
  cache_block = some 52;
  cache = slot 10 4 origin ∷ slot 11 4 beside ∷ [];
}

-- A process that owes ten of everything.
abbrev pub owing : Process ℕ
owing = record start { owed = λ x. 10 }
