-- ===== src/Diff/Sync.antt =====
-- The invariant between the encoder and the decoder of src/diff.rs, and the bytes for a blob.
use lencode.Prelude.{
  ℕ, ◌^◌, ◌<◌, ◌≡◌, ◌⊎◌, refl, sym, ◌∙◌, leb, ◌==◌, if◌then◌else◌, Bool, true, false, Bool-cases,
  inl, inr, Option, none, some, List, ◌++◌, length,
}
use mathlib.Core.Path.{subst}
use lencode.Varint.Encoding.{encoding}
use lencode.Bytes.Zstd.{Zstd}
use lencode.Diff.Blobs
use lencode.Diff.Blobs.{get-insert}
use lencode.Diff.Encoder
use lencode.Diff.Encoder.{
  DiffEncoder, encode_rle_to_buf, encode_xor_to_buf, winner, smaller, is_tiny, difference,
  write_full, encode_blob,
}
use lencode.Diff.Decoder
use lencode.Diff.Decoder.{
  DiffDecoder, old_blob, read_some, stored, stored_if_active, decode_difference, decode_mode,
  decode_blob, apply_patches, apply_xor,
}

-- The encoder and the decoder have seen the same blobs, and have the same key active.
pub record Sync (e : DiffEncoder) (d : DiffDecoder) : Type 0 where
  pub same : (key : ℕ) → Blobs.get key e.blobs ≡ Blobs.get key d.blobs
  pub active : e.current_key ≡ d.current_key
  pub small : (key : ℕ) (blob : List ℕ) → Blobs.get key e.blobs ≡ some blob → length blob < 2 ^ 64

abbrev pub full_bytes : List ℕ → List ℕ
full_bytes blob = encoding 8 0 ++ (encoding 8 (length blob) ++ blob)

abbrev pub coded_as : List ℕ → Option (List ℕ) → List ℕ
coded_as blob none = full_bytes blob
coded_as blob (some buf) = buf

abbrev pub chosen : Zstd → DiffEncoder → List ℕ → Option ℕ → Option (List ℕ)
chosen Z e blob none = none
chosen Z e blob (some key) = difference Z e key blob

-- The bytes for a blob in a state: a difference, or the blob in full.
abbrev pub coded : Zstd → DiffEncoder → List ℕ → List ℕ
coded Z e blob = coded_as blob (chosen Z e blob e.current_key)

abbrev pub stored_as : DiffEncoder → List ℕ → Option ℕ → DiffEncoder
stored_as e blob none = e
stored_as e blob (some key) = Encoder.insert key blob e

-- The states after a blob: it is stored under the active key.
abbrev pub after_blob : DiffEncoder → List ℕ → DiffEncoder
after_blob e blob = stored_as e blob e.current_key

abbrev pub read_as : DiffDecoder → List ℕ → Option ℕ → DiffDecoder
read_as d blob none = d
read_as d blob (some key) = Decoder.insert key blob d

abbrev pub after_read_blob : DiffDecoder → List ℕ → DiffDecoder
after_read_blob d blob = read_as d blob d.current_key

-- What `encode_blob` chooses is one of the two buffers.
winner_from :
    (blob buf : List ℕ) (tiny : Bool) (rle xor : Option (List ℕ))
    → smaller rle (if tiny then none else xor) ≡ some buf
    → (rle ≡ some buf) ⊎ (xor ≡ some buf)
winner_from blob buf true none xor h = cc
winner_from blob buf true (some r) xor h = inl h
winner_from blob buf false none xor h = inr h
winner_from blob buf false (some r) none h = inl h
winner_from blob buf false (some r) (some x) h = elim (Bool-cases (leb (length r) (length x))) [
  | inl shorter ↦ inl (rw shorter at h)
  | inr longer ↦ inr (rw longer at h)
]

pub winner_lem :
    (Z : Zstd) (old blob buf : List ℕ)
    → winner Z old blob ≡ some buf
    → (encode_rle_to_buf old blob ≡ some buf) ⊎ (encode_xor_to_buf Z old blob ≡ some buf)
unfolding winner
winner_lem Z old blob buf h =
    winner_from blob buf (is_tiny (length blob) (encode_rle_to_buf old blob))
      (encode_rle_to_buf old blob) (encode_xor_to_buf Z old blob) h

-- A difference stands against the blob that the encoder has for the key.
pub difference_lem :
    (Z : Zstd) (e : DiffEncoder) (key : ℕ) (blob buf : List ℕ)
    → difference Z e key blob ≡ some buf
    → (old : List ℕ) × (Blobs.get key e.blobs ≡ some old) × (winner Z old blob ≡ some buf)
unfolding difference
difference_lem Z e key blob buf = go (Blobs.get key e.blobs) refl
  where
    go :
        (o : Option (List ℕ))
        → Blobs.get key e.blobs ≡ o
        → difference Z e key blob ≡ some buf
        → (old : List ℕ) × (Blobs.get key e.blobs ≡ some old) × (winner Z old blob ≡ some buf)
    go none g h = cc (rw (g, difference) at h)
    go (some old) g h = (old, g, rw (g, difference) at h)

-- If the encoder and the decoder have the same blobs and the same active key, they have so again
-- after any blob shorter than 2 ^ 64.
pub after_blob-Sync :
    (e : DiffEncoder) (d : DiffDecoder) (blob : List ℕ)
    → Sync e d
    → length blob < 2 ^ 64
    → Sync (after_blob e blob) (after_read_blob d blob)
after_blob-Sync e d blob s h =
    subst (λ o. Sync (after_blob e blob) (read_as d blob o)) s.active (go e.current_key)
  where
    inserted :
        (key : ℕ) (j : ℕ) (b : List ℕ)
        → Blobs.get j (Blobs.insert key blob e.blobs) ≡ some b
        → length b < 2 ^ 64
    inserted key j b g = elim (Bool-cases (key == j)) [
      | inl at ↦
          let same : some blob ≡ some b = rw (get-insert j key blob e.blobs, at) at g in
          let is : blob ≡ b = cc same in rw is at h
      | inr other ↦ s.small j b (rw (get-insert j key blob e.blobs, other) at g)
    ]

    go : (o : Option ℕ) → Sync (stored_as e blob o) (read_as d blob o)
    go none = s
    go (some key) = record {
      same = λ j.
          unfold Encoder.insert Decoder.insert in
          get-insert j key blob e.blobs ∙ rw (s.same j) (sym (get-insert j key blob d.blobs));
      active = unfold Encoder.insert Decoder.insert in s.active;
      small = λ j b g. unfold Encoder.insert in inserted key j b g;
    }
