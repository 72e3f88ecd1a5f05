-- ===== src/Region/Dir/Laws.antt =====
-- What the iterators of src/region/platform/unix/dir_iter.c hold, and what they give.
use libclod.Prelude.{
  ℕ, ◌+◌, ◌≡◌, ◌⊎◌, refl, arith, Bool, true, false, Option, none, some, List, [], ◌∷◌, Option-cases,
  inl, inr,
}
use libclod.Region.System.{
  ok, invalid_usage, dir_failed, Resource, descriptor, stream, one, taken, dir_end, dir_entry, Os,
  Process, sys_close, took_some-owed,
}
use libclod.Region.File.Balance.{given, IsSettled}
use libclod.Region.Dir

module _ {W : Type 0} (os : Os W) (x : Resource) where
  sys_dup-owed :
      (p : Process W) (fd : ℕ)
      → (Dir.sys_dup os p fd).1.owed x ≡ p.owed x + taken (Dir.sys_dup os p fd).0 descriptor x
  unfolding Dir.sys_dup
  sys_dup-owed p fd = took_some-owed os p x (os.dup p.world fd) descriptor

  -- Whatever the system answers, `dir_iter_open` leaves as much owed as before and, exactly with
  -- `CLOD_REGION_OK`, besides it the stream of the iterator.
  pub dir_iter_open-IsSettled :
      (p : Process W) (d : ℕ) → IsSettled (λ iter. one (stream iter)) p x (Dir.dir_iter_open os p d)
  unfolding Dir.dir_iter_open Dir.sys_fdopendir sys_close IsSettled
  dir_iter_open-IsSettled p d =
      let owed = sys_dup-owed p d in
      let p1 = (Dir.sys_dup os p d).1 in
      elim (Option-cases ((Dir.sys_dup os p d).0)) [
        | inl refused ↦ let owed' = rw refused at owed in rw refused (owed', refl)
        | inr (fd, opened) ↦
            let owed' = rw opened at owed in
            elim (Option-cases ((os.fdopendir p1.world fd).0)) [
              | inl failed ↦ rw (opened, failed) (omega (arith, owed'), refl)
              | inr (dirp, given) ↦ rw (opened, given) (omega (arith, owed'), refl)
            ]
      ]

-- What the entry with a name, and with what `d_type` says of it, turns out to be: a regular file or
-- not, or `none` if the system does not tell. It is told by `d_type`, if the build has it and it is
-- known, else by the file itself.
pub data Told {W : Type 0} (os : Os W) (iter : ℕ) (name : ℕ → ℕ)
    : Option Bool → W → W → Option Bool → Type 0 where
  by_type :
      (regular : Bool) (w : W)
      → os.have_d_type ≡ true
      → Told os iter name (some regular) w w (some regular)
  by_file :
      (type answer : Option Bool) (w w1 w2 : W) (fd : ℕ)
      → (os.have_d_type ≡ false) ⊎ (type ≡ none)
      → os.dirfd w iter ≡ (some fd, w1)
      → os.is_regular w1 fd name ≡ (answer, w2)
      → Told os iter name type w w2 answer
  by_nothing :
      (type : Option Bool) (w w1 : W)
      → (os.have_d_type ≡ false) ⊎ (type ≡ none)
      → os.dirfd w iter ≡ (none, w1)
      → Told os iter name type w w1 none

-- The entries that `readdir` has to give from a state of the world on, each with whether it is a
-- regular file, up to the end of the directory, with `CLOD_REGION_OK`, or to a failure of `readdir`
-- or of the calls that tell what an entry is, with `CLOD_REGION_INVALID_USAGE`.
pub data Listed {W : Type 0} (os : Os W) (iter : ℕ) : W → List ((ℕ → ℕ) × Bool) → ℕ → Type 0 where
  at_end : (w w1 : W) → os.readdir w iter ≡ (dir_end, w1) → Listed os iter w [] ok
  at_failure : (w w1 : W) → os.readdir w iter ≡ (dir_failed, w1) → Listed os iter w [] invalid_usage
  at_unknown :
      (w w1 w2 : W) (name : ℕ → ℕ) (type : Option Bool)
      → os.readdir w iter ≡ (dir_entry name type, w1)
      → Told os iter name type w1 w2 none
      → Listed os iter w [] invalid_usage
  at_entry :
      (w w1 w2 : W) (name : ℕ → ℕ) (type : Option Bool) (regular : Bool)
      (rest : List ((ℕ → ℕ) × Bool)) (last : ℕ)
      → os.readdir w iter ≡ (dir_entry name type, w1)
      → Told os iter name type w1 w2 (some regular)
      → Listed os iter w2 rest last
      → Listed os iter w ((name, regular) ∷ rest) last

-- `CLOD_REGION_OK` and the first name of a regular file; without one, the result at the end.
abbrev pub first_regular : List ((ℕ → ℕ) × Bool) → ℕ → ℕ × Option (ℕ → ℕ)
first_regular [] last = (last, none)
first_regular ((name, true) ∷ rest) last = (ok, some name)
first_regular ((name, false) ∷ rest) last = first_regular rest last

module _ {W : Type 0} (os : Os W) (iter : ℕ) where
  -- The result of a round for what an entry turned out to be.
  abbrev entry_for : (ℕ → ℕ) → Option Bool → W → Dir.Entry os
  entry_for name none w = (invalid_usage, none, false, w)
  entry_for name (some true) w = (ok, some name, false, w)
  entry_for name (some false) w = (ok, none, true, w)
