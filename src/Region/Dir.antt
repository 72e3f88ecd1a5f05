-- ===== src/Region/Dir.antt =====
-- Directories and their iteration: src/region/platform/unix/dir.c and dir_iter.c. A directory is its
-- descriptor, an iterator the address of its stream. The messages are left out.
pub mod Laws
use libclod.Prelude.{
  ℕ, zero, suc, ◌+◌, ◌-◌, Bool, true, false, not, ◌&&◌, ◌==◌, Option, none, some, ℤ, pos, negsuc,
  if◌then◌else◌, if_null,
}
use libclod.Region.Options.{RegionOpts}
use libclod.Region.System.{
  ok, invalid_usage, Resource, descriptor, stream, one, DirAnswer, dir_end, dir_failed, dir_entry,
  Os, Process, moved, took, gave, took_some, sys_open_directory, sys_close,
}
use libclod.Region.File.{Got, refuse}

-- `"."`
abbrev pub here : ℕ → ℕ
here zero = 46
here (suc i) = 0

-- `path && path[0] ? path : "."`
unfoldable pub dir_path : Option (ℕ → ℕ) → ℕ → ℕ
dir_path path = if_null path here (λ s. if s 0 == 0 then here else s)

-- `opts->unix_fd`, if it is not 0
unfoldable pub dir_at : ℤ → Option ℤ
dir_at (pos zero) = none
dir_at (pos (suc n)) = some (pos (suc n))
dir_at (negsuc n) = some (negsuc n)

module _ {W : Type 0} (os : Os W) where
  -- `dir_open(d, path, opts)`
  unfoldable pub dir_open : Process W → Option (ℕ → ℕ) → RegionOpts → Got ℕ W
  dir_open p path opts =
      let (answer, p1) = sys_open_directory os p (dir_at opts.unix_fd) (dir_path path) in
      if_null answer (refuse invalid_usage p1) (λ fd. (ok, some fd, p1))

  -- `dir_rename(d, old_name, new_name)`
  unfoldable pub dir_rename : Process W → ℕ → (ℕ → ℕ) → (ℕ → ℕ) → ℕ × Process W
  dir_rename p d old_name new_name =
      let (failed, w) = os.renameat p.world d old_name new_name in
      (if failed then invalid_usage else ok, moved p w)

  -- `dir_close(d)`
  unfoldable pub dir_close : Process W → ℕ → ℕ × Process W
  dir_close p d = let (failed, p1) = sys_close os p d in (if failed then invalid_usage else ok, p1)

  -- `fcntl(fd, F_DUPFD, 0)`
  unfoldable pub sys_dup : Process W → ℕ → Option ℕ × Process W
  sys_dup p fd = took_some p (os.dup p.world fd) descriptor

  -- `fdopendir(fd)`: on success the stream owns the descriptor.
  unfoldable pub sys_fdopendir : Process W → ℕ → Option ℕ × Process W
  sys_fdopendir p fd =
      let (answer, w) = os.fdopendir p.world fd in
      if_null answer (none, moved p w)
        (λ dirp. (some dirp, took (gave p w (one (descriptor fd))) w (one (stream dirp))))

  -- `dir_iter_open(iter, d)`
  unfoldable pub dir_iter_open : Process W → ℕ → Got ℕ W
  dir_iter_open p d =
      let (answer, p1) = sys_dup p d in
      if_null answer (refuse invalid_usage p1) (λ fd.
        let (dirp, p2) = sys_fdopendir p1 fd in
        if_null dirp (refuse invalid_usage ((sys_close os p2 fd).1)) (λ iter. (ok, some iter, p2)))

  -- `dir_iter_close(iter)`
  unfoldable pub dir_iter_close : Process W → ℕ → ℕ × Process W
  dir_iter_close p iter =
      let (failed, w) = os.closedir p.world iter in
      (if failed then invalid_usage else ok, gave p w (one (stream iter)))

  -- A name to return, or an entry to pass over.
  abbrev pub Entry : Type 0
  Entry = ℕ × Option (ℕ → ℕ) × Bool × W

  abbrev passed : W → Entry
  passed w = (ok, none, true, w)

  -- From `dirfd` on: whether the name is that of a regular file, asked of the file.
  unfoldable pub dir_iter_stat : W → ℕ → (ℕ → ℕ) → Entry
  dir_iter_stat w iter name =
      let (answer, w1) = os.dirfd w iter in
      if_null answer (invalid_usage, none, false, w1)
        (λ fd.
          let (regular, w2) = os.is_regular w1 fd name in
          if_null regular (invalid_usage, none, false, w2)
            (λ is_file. if is_file then (ok, some name, false, w2) else passed w2))

  -- The body of the loop of `dir_iter_next`.
  unfoldable pub dir_iter_step : DirAnswer → W → ℕ → Entry
  dir_iter_step dir_end w iter = (ok, none, false, w)
  dir_iter_step dir_failed w iter = (invalid_usage, none, false, w)
  dir_iter_step (dir_entry name none) w iter = dir_iter_stat w iter name
  dir_iter_step (dir_entry name (some regular)) w iter =
      if os.have_d_type
      then if regular then (ok, some name, false, w) else passed w
      else dir_iter_stat w iter name

  -- `dir_iter_next(iter, name)`: the result, `*name` and the world, within a number of rounds.
  unfoldable pub dir_iter_next : ℕ → W → ℕ → Option (ℕ × Option (ℕ → ℕ) × W)
  dir_iter_next zero w iter = none
  dir_iter_next (suc rounds) w iter =
      let (answer, w1) = os.readdir w iter in
      let (result, name, again, w2) = dir_iter_step answer w1 iter in
      let rest = dir_iter_next rounds w2 iter in if again then rest else some (result, name, w2)
