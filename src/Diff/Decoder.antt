-- ===== src/Diff/Decoder.antt =====
-- src/diff.rs, `DiffDecoder`.
use lencode.Prelude.{
  ℕ, zero, suc, ◌+◌, ◌-◌, ◌%◌, ◌^◌, min, max, ltb, ◌==◌, if◌then◌else◌, Bool, true, false, Option,
  none, some, List, [], ◌++◌, length,
}
use mathlib.Core.List.{map}
use lencode.Prelude.Slices.{slice}
use lencode.Io.{
  M, Result, ok, err, fault, pure, throw, crash, ◌>>=◌, Read, invalid_data, reader_out_of_data,
  slice_index,
}
use lencode.Io.Context.{on_right}
use lencode.Varint.Fixed.{decode_varint_u64}
use lencode.Diff.Xor.{reconstruct}
use lencode.Bytes.Zstd.{Zstd, zstd_decompress}
use lencode.Diff.Blobs
use lencode.Diff.Blobs.{Blobs}

pub record DiffDecoder : Type 0 where
  pub blobs : Blobs
  pub current_key : Option ℕ

unfoldable pub new : DiffDecoder
new = record { blobs = []; current_key = none }

unfoldable pub with_capacity : ℕ → DiffDecoder
with_capacity num_keys = record { blobs = []; current_key = none }

unfoldable pub set_key : ℕ → DiffDecoder → DiffDecoder
set_key key d = record d { current_key = some key }

unfoldable pub clear_key : DiffDecoder → DiffDecoder
clear_key d = record d { current_key = none }

unfoldable pub clear : DiffDecoder → DiffDecoder
clear d = record d { blobs = []; current_key = none }

unfoldable pub num_keys : DiffDecoder → ℕ
num_keys d = length d.blobs

unfoldable pub contains_key : ℕ → DiffDecoder → Bool
unfolding Blobs.get
contains_key key d = elim (Blobs.get key d.blobs) [ none ↦ false | some blob ↦ true ]

unfoldable pub keys : DiffDecoder → List ℕ
keys d = map (λ p. p.0) d.blobs

unfoldable pub remove_key : ℕ → DiffDecoder → DiffDecoder
unfolding Blobs.remove
remove_key key d = record d { blobs = Blobs.remove key d.blobs }

unfoldable pub cached_bytes : DiffDecoder → ℕ
unfolding Blobs.total_len
cached_bytes d = Blobs.total_len d.blobs

-- `self.store.insert(key, result.clone())`
unfoldable pub insert : ℕ → List ℕ → DiffDecoder → DiffDecoder
unfolding Blobs.insert
insert key blob d = record d { blobs = Blobs.insert key blob d.blobs }

-- The blob of the active key, `ok_or(Error::InvalidData)` twice.
abbrev pub blob_under : DiffDecoder → Option ℕ → Option (ℕ × List ℕ)
blob_under d none = none
blob_under d (some key) = elim (Blobs.get key d.blobs) [ none ↦ none | some old ↦ some (key, old) ]

unfoldable pub old_blob : DiffDecoder → Option (ℕ × List ℕ)
unfolding Blobs.get
old_blob d = blob_under d d.current_key

-- What remains of the old blob behind the last patch.
unfoldable pub old_tail : List ℕ → ℕ → ℕ → List ℕ
old_tail old new_len old_cursor =
    let shorter = min (length old) new_len in
    let remaining = shorter - min old_cursor shorter in
    if remaining == 0
    then []
    else if ltb old_cursor (length old)
    then slice old_cursor (min (old_cursor + remaining) (length old)) old
    else []

module _ {R : Type 0} ⦃io : Read R⦄ where
  -- `reader.read` into `len` bytes, which has to fill them.
  unfoldable pub read_all : ℕ → M R (List ℕ)
  read_all len =
      io.read len >>= λ bytes. if length bytes == len then pure bytes else throw reader_out_of_data

  -- Nothing is read if `len` is 0.
  unfoldable pub read_some : ℕ → M R (List ℕ)
  unfolding read_all
  read_some len = if len == 0 then pure [] else read_all len

  -- One patch, from its gap and length on: the old blob's cursor behind it, and the result so far.
  -- The sums are those of `usize`, without overflow checks.
  unfoldable pub patch_at : List ℕ → ℕ → List ℕ → ℕ → ℕ → M R (ℕ × List ℕ)
  unfolding read_all
  patch_at old old_cursor result gap patch_len =
      let copy_end = (old_cursor + gap) % 2 ^ 64 in
      if ltb (length old) copy_end
      then throw invalid_data
      else if ltb copy_end old_cursor
      then crash slice_index
      else (read_all patch_len >>= λ bytes.
          pure
            ((copy_end + patch_len) % 2 ^ 64, (result ++ slice old_cursor copy_end old) ++ bytes))

  unfoldable pub read_patch : List ℕ → ℕ × List ℕ → M R (ℕ × List ℕ)
  unfolding patch_at
  read_patch old (old_cursor, result) =
      decode_varint_u64 >>= λ gap. decode_varint_u64 >>= patch_at old old_cursor result gap

  -- `for _ in 0..num_patches`
  unfoldable pub read_patches : List ℕ → ℕ → ℕ × List ℕ → M R (ℕ × List ℕ)
  unfolding read_patch
  read_patches old zero so_far = pure so_far
  read_patches old (suc n) so_far = read_patch old so_far >>= read_patches old n

  -- `if result.len() != new_len { return Err(Error::InvalidData); }`
  abbrev pub checked : ℕ → List ℕ → M R (List ℕ)
  checked new_len result = if length result == new_len then pure result else throw invalid_data

  -- The result, with what remains of the old blob.
  unfoldable pub finished : List ℕ → ℕ → ℕ × List ℕ → M R (List ℕ)
  unfolding old_tail
  finished old new_len (old_cursor, result) =
      checked new_len (result ++ old_tail old new_len old_cursor)

  unfoldable pub apply_patches : List ℕ → ℕ → ℕ → M R (List ℕ)
  unfolding read_patches finished
  apply_patches old new_len num_patches =
      read_patches old num_patches (0, []) >>= finished old new_len

  abbrev pub lifted : {A : Type 0} → Result A → M R A
  lifted (ok a) = pure a
  lifted (err e) = throw e
  lifted (fault x) = crash x

  unfoldable pub apply_xor : Zstd → List ℕ → ℕ → ℕ → M R (List ℕ)
  unfolding read_some
  apply_xor Z old new_len compressed_len = read_some compressed_len >>= λ compressed.
      lifted (zstd_decompress Z compressed (max (length old) new_len)) >>= λ xor.
      checked new_len (reconstruct old xor new_len)

  -- The blob that a call on the reader returns is stored under the key.
  abbrev pub stored : ℕ → DiffDecoder → R × Result (List ℕ) → (DiffDecoder × R) × Result (List ℕ)
  stored key d (r, ok blob) = ((insert key blob d, r), ok blob)
  stored key d (r, err e) = ((d, r), err e)
  stored key d (r, fault x) = ((d, r), fault x)

  abbrev pub stored_under :
      DiffDecoder → R × Result (List ℕ) → Option ℕ → (DiffDecoder × R) × Result (List ℕ)
  stored_under d out (some key) = stored key d out
  stored_under d out none = ((d, out.0), out.1)

  abbrev pub stored_if_active :
      DiffDecoder → R × Result (List ℕ) → (DiffDecoder × R) × Result (List ℕ)
  stored_if_active d out = stored_under d out d.current_key

  -- A difference: two numbers, and what they and the active key's blob make of the bytes.
  abbrev pub apply_to :
      (List ℕ → ℕ → ℕ → M R (List ℕ))
      → DiffDecoder
      → R
      → ℕ × ℕ
      → Option (ℕ × List ℕ)
      → (DiffDecoder × R) × Result (List ℕ)
  apply_to apply d r numbers none = ((d, r), err invalid_data)
  apply_to apply d r numbers (some (key, old)) = stored key d (apply old numbers.0 numbers.1 r)

  unfoldable pub decode_difference : (List ℕ → ℕ → ℕ → M R (List ℕ)) → M (DiffDecoder × R) (List ℕ)
  unfolding old_blob insert
  decode_difference apply =
      on_right
        (decode_varint_u64 >>= λ new_len. decode_varint_u64 >>= λ count. pure (new_len, count))
      >>= λ numbers (d, r). apply_to apply d r numbers (old_blob d)

  unfoldable pub decode_mode : Zstd → ℕ → M (DiffDecoder × R) (List ℕ)
  unfolding read_some apply_patches apply_xor decode_difference
  decode_mode Z mode (d, r) =
      if mode == 0
      then stored_if_active d ((decode_varint_u64 >>= read_some) r)
      else if mode == 1
      then decode_difference apply_patches (d, r)
      else if mode == 2
      then decode_difference (apply_xor Z) (d, r)
      else ((d, r), err invalid_data)

  unfoldable pub decode_blob : Zstd → M (DiffDecoder × R) (List ℕ)
  unfolding decode_mode
  decode_blob Z = on_right decode_varint_u64 >>= decode_mode Z
