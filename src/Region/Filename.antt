-- ===== src/Region/Filename.antt =====
-- File names of regions: src/region/filename.c. A char array is a function from indices. The C
-- library's number formats are parameters: `print` is the text that `%` PRId64 makes of a number,
-- and `strtoll` gives the value and the index behind what it read.
pub mod Length
use libclod.Prelude.{
  ℕ, zero, suc, ◌+◌, ◌-◌, Bool, false, Option, none, some, List, [], ◌∷◌, ◌++◌, ltb, leb, ◌==◌,
  ◌||◌, ◌&&◌, if◌then◌else◌, set, length, get_or, ℤ,
}

abbrev pub prefix_max : ℕ
prefix_max = 30

abbrev pub extension_max : ℕ
extension_max = 14

abbrev pub dimensions_max : ℕ
dimensions_max = 10

abbrev pub region_filename_max : ℕ
region_filename_max = 255

-- The loop of `str_copy`, with `left` bytes of the source to go: the array and `i`.
unfoldable pub copy_loop : ℕ → (ℕ → ℕ) → ℕ → ℕ → (ℕ → ℕ) → ℕ → ℕ → ℕ → (ℕ → ℕ) × ℕ
copy_loop zero dst dst_max d src s delim i = (dst, i)
copy_loop (suc left) dst dst_max d src s delim i =
    let dst' = if ltb (i + d) dst_max then set dst (i + d) (src (i + s)) else dst in
    let rest = copy_loop left dst' dst_max d src s delim (suc i) in
    if src (i + s) == 0 || src (i + s) == delim then (dst, i) else rest

-- `str_copy(dst, dst_max, &d, src, src_max, &s, delim)`: the array and both offsets.
unfoldable pub str_copy : (ℕ → ℕ) → ℕ → ℕ → (ℕ → ℕ) → ℕ → ℕ → ℕ → (ℕ → ℕ) × ℕ × ℕ
str_copy dst dst_max d src src_max s delim =
    let (dst', i) = copy_loop (src_max - s) dst dst_max d src s delim 0 in (dst', d + i, s + i)

-- What `snprintf` writes of a text where `size` bytes have room, with a zero behind it.
unfoldable pub print_text : (ℕ → ℕ) → ℕ → ℕ → List ℕ → ℕ → ℕ
print_text dst at size text a =
    let shown = if ltb (length text) size then length text else size - 1 in
    if size == 0
    then dst a
    else if leb at a && ltb a (at + shown)
    then get_or text (a - at) 0
    else if a == at + shown
    then 0
    else dst a

abbrev pub dot : ℕ → ℕ
dot a = 46

module _ (print : ℤ → List ℕ) where
  -- The loop of `filename_make` over the coordinates.
  unfoldable pub make_loop : List ℤ → (ℕ → ℕ) → ℕ → (ℕ → ℕ) × ℕ
  make_loop [] filename offset = (filename, offset)
  make_loop (p ∷ pos) filename offset =
      let text = print p ++ 46 ∷ [] in
      let past = ltb region_filename_max offset in
      let max_len = if past then 0 else region_filename_max - offset in
      let cursor = if past then region_filename_max else offset in
      make_loop pos (print_text filename cursor max_len text) (offset + length text)

  -- `filename_make(filename, prefix, extension, pos, dims)`, `none` if an assertion fails.
  unfoldable pub filename_make : (ℕ → ℕ) → (ℕ → ℕ) → List ℤ → Option ((ℕ → ℕ) × ℕ)
  filename_make prefix extension pos =
      let (f1, d1, s1) = str_copy (λ a. 0) region_filename_max 0 prefix prefix_max 0 46 in
      let (f2, d2, s2) = str_copy f1 region_filename_max d1 dot 1 0 0 in
      let (f3, d3) = make_loop pos f2 d2 in
      let (f4, d4, s4) = str_copy f3 region_filename_max d3 extension extension_max 0 0 in
      if leb (length pos) dimensions_max && leb d4 region_filename_max then some (f4, d4) else none

-- Both comparing loops of `filename_parse_pos`: the offset in the file name behind the text.
unfoldable pub match_loop : ℕ → (ℕ → ℕ) → (ℕ → ℕ) → ℕ → ℕ → Option ℕ
match_loop zero text filename at offset = some offset
match_loop (suc left) text filename at offset =
    let rest = match_loop left text filename (suc at) (suc offset) in
    if text at == 0 then some offset else if text at == filename offset then rest else none

module _ (strtoll : (ℕ → ℕ) → ℕ → ℤ × ℕ) where
  -- The loop over the coordinates: those read, in order, and the offset if all are.
  unfoldable pub pos_loop : ℕ → (ℕ → ℕ) → ℕ → List ℤ × Option ℕ
  pos_loop zero filename offset = ([], some offset)
  pos_loop (suc dims) filename offset =
      let (value, end) = strtoll filename offset in
      let (values, found) = pos_loop dims filename (offset + end + 1) in
      if end == offset then (value ∷ [], none) else (value ∷ values, found)

  -- The end of `filename_parse_pos`, from the comparison of the extension on.
  unfoldable pub extension_matches : (ℕ → ℕ) → (ℕ → ℕ) → ℕ → Bool
  extension_matches extension filename offset =
      elim (match_loop extension_max extension filename 0 offset) [
        | none ↦ false
        | some end ↦ filename end == 0
      ]

  -- `filename_parse_pos(filename, prefix, extension, pos, dims)`: the result, and what it writes.
  unfoldable pub filename_parse_pos : (ℕ → ℕ) → (ℕ → ℕ) → (ℕ → ℕ) → ℕ → Bool × List ℤ
  filename_parse_pos filename prefix extension dims =
      elim (match_loop prefix_max prefix filename 0 0) [
        | none ↦ (false, [])
        | some offset ↦
            let (pos, found) = pos_loop dims filename (suc offset) in
            if filename offset == 46
            then elim found [
              | none ↦ (false, pos)
              | some end ↦ (extension_matches extension filename end, pos)
            ]
            else (false, [])
      ]
