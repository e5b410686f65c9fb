-- ===== src/Codec/Examples.antt =====
-- The theorems on the types of src/lib.rs at concrete values.
use lencode.Prelude.{
  ℕ, ◌≡◌, refl, sym, arith, append-nil, true, false, Option, none, some, List, [], ◌∷◌, ◌++◌, ◌==◌,
  ==_iff, ◌↔◌, if◌then◌else◌,
}
use lencode.Io.{ok}
use lencode.Io.VecWriter.{vec_write}
use lencode.Io.Cursor.{Cursor, cursor_read}
use lencode.Bytes.Trimmer.{trimmer, trimmer_laws}
use lencode.Dedupe.Flags.{flags}
use lencode.Context.Encoder as EncCtx
use lencode.Context.Decoder as DecCtx
use lencode.Context.Sync.{ContextSync, ContextSync-with_all}
use mathlib.Core.List.{Perm}
use mathlib.Core.List.Perm
use lencode.Io.Context.{ReadsWith}
use lencode.Io.CursorLaws.{cursor_read_laws}
use lencode.Codec.Traits.{Coding}
use lencode.Codec.Plain.{plain, plain-CodingLaws}
use lencode.Codec.Primitives
use lencode.Codec.Primitives.{number}
use lencode.Codec.PrimitiveLaws.{number-PlainLaws, u16-NumberLaws}
use lencode.Codec.Lists.{list_coded}
use lencode.Codec.Collections.{entry, decode_hash_map, decode_heap}
use lencode.Codec.CollectionLaws.{entry-CodingLaws}
use lencode.Codec.HashLaws.{
  Keys, HashMap, BinaryHeap, lookup, decode_hash_map-Reads, decode_heap-Reads,
}
use lencode.Bytes.Vec.{compressed_payload}
use lencode.Varint.Encoding.{encoding}
use lencode.Codec.Blobs.{decode_byte_deque}
use lencode.Codec.BlobLaws.{blob_coded}
use lencode.Codec.ByteLaws.{Packable, packed_bytes, decode_byte_deque-Reads}
use lencode.Codec.Products.{RangeInclusive, decode_range_inclusive}
use lencode.Codec.RangeLaws.{decode_range_inclusive-Reads}
use lencode.Codec.Laws.{CodingLaws}
use lencode.Io.Cursor.{cursor_write}

abbrev full_enc : Option (EncCtx.EncoderContext flags)
full_enc = some (EncCtx.with_all flags)

abbrev full_dec : Option (DecCtx.DecoderContext flags)
full_dec = some (DecCtx.with_all flags)

abbrev at_start : List ℕ → Cursor
at_start bytes = record { stream = bytes; position = 0 }

-- Keys that are numbers, and maps and heaps that are lists.
abbrev same_number : (a b : ℕ) → (a == b ≡ true) ↔ (a ≡ b)
same_number a b = ==_iff a b

abbrev number_keys : Keys ℕ
number_keys = record { eq = λ a b. a == b; eq_iff = same_number }

abbrev find : ℕ → List (ℕ × ℕ) → Option ℕ
find k [] = none
find k ((j, v) ∷ m) = if j == k then some v else find k m

abbrev list_map : HashMap ℕ ℕ number_keys
list_map = record {
  Map = List (ℕ × ℕ);
  new = [];
  insert = λ k v m. (k, v) ∷ m;
  get = find;
  get-new = λ k. refl;
  get-insert = λ j k v m. refl;
}

abbrev list_heap : BinaryHeap ℕ
list_heap = record {
  Heap = List ℕ;
  new = [];
  push = λ a h. a ∷ h;
  values = λ h. h;
  values-new = refl;
  values-push = λ a h. Perm.refl (a ∷ h);
}

abbrev small_numbers : Coding (EncCtx.EncoderContext flags) (DecCtx.DecoderContext flags)
small_numbers = plain (number Primitives.u16)

abbrev small_laws : CodingLaws (ContextSync flags) small_numbers
small_laws = plain-CodingLaws (ContextSync flags) (number-PlainLaws u16-NumberLaws)

-- Two entries in an order of the map's own.
abbrev entries : List (ℕ × ℕ)
entries = (7, 70) ∷ (2, 20) ∷ []

abbrev entry_laws : CodingLaws (ContextSync flags) (entry small_numbers small_numbers)
entry_laws = entry-CodingLaws (ContextSync flags) small_numbers small_numbers small_laws small_laws

abbrev entry_bytes : List ℕ
entry_bytes =
    list_coded (ContextSync flags) (entry small_numbers small_numbers) entry_laws full_enc entries

decode_hash_map-Reads_example :
    (m : List (ℕ × ℕ)) × ReadsWith cursor_read_laws
      (decode_hash_map small_numbers small_numbers list_map.insert [])
      full_dec
      (at_start entry_bytes)
      m
      full_dec
      []
    × ((k : ℕ) → find k m ≡ lookup number_keys k entries)
decode_hash_map-Reads_example =
    decode_hash_map-Reads (ContextSync flags) small_numbers small_numbers small_laws small_laws
      number_keys list_map cursor_read_laws full_enc full_dec entries [] (at_start entry_bytes)
      (ContextSync-with_all flags) ((refl, tt), (tt, tt)) (omega arith) (omega arith)
      (sym (append-nil entry_bytes))

abbrev number_bytes : List ℕ
number_bytes = list_coded (ContextSync flags) small_numbers small_laws none (5 ∷ 900 ∷ 5 ∷ [])

decode_heap-Reads_example :
    (heap : List ℕ) × ReadsWith cursor_read_laws
      (decode_heap small_numbers list_heap.push [])
      none
      (at_start number_bytes)
      heap
      none
      []
    × Perm heap (5 ∷ 900 ∷ 5 ∷ [])
decode_heap-Reads_example =
    decode_heap-Reads (ContextSync flags) small_numbers small_laws list_heap cursor_read_laws none
      none (5 ∷ 900 ∷ 5 ∷ []) [] (at_start number_bytes) tt (omega arith) (omega arith)
      (sym (append-nil number_bytes))

short_raw : compressed_payload trimmer (1 ∷ 2 ∷ 3 ∷ []) ≡ ok none
unfolding compressed_payload
short_raw = refl

-- A deque of two slices, too short to be compressed.
deque-Packable : Packable trimmer (1 ∷ 2 ∷ 3 ∷ [])
deque-Packable = record { small = omega arith; chosen = none; is_chosen = short_raw }

abbrev deque_bytes : List ℕ
deque_bytes = blob_coded flags trimmer (packed_bytes trimmer (1 ∷ 2 ∷ 3 ∷ [])) none (1 ∷ 2 ∷ 3 ∷ [])

decode_byte_deque-Reads_example :
    ReadsWith cursor_read_laws
      (decode_byte_deque flags trimmer)
      none
      (at_start deque_bytes)
      (1 ∷ 2 ∷ 3 ∷ [])
      none
      []
decode_byte_deque-Reads_example =
    decode_byte_deque-Reads flags trimmer trimmer_laws cursor_read_laws none none (1 ∷ 2 ∷ [])
      (3 ∷ []) [] (at_start deque_bytes) tt deque-Packable (omega arith)
      (sym (append-nil deque_bytes))

-- A range that an iterator has used up comes back as one that is not.
abbrev used_up : RangeInclusive ℕ
used_up = record { start = 1; end = 1; exhausted = true }

decode_range_inclusive-Reads_example :
    ReadsWith cursor_read_laws
      (decode_range_inclusive small_numbers)
      none
      (at_start (encoding 2 1 ++ encoding 2 1))
      (record { start = 1; end = 1; exhausted = false })
      none
      []
decode_range_inclusive-Reads_example =
    decode_range_inclusive-Reads (ContextSync flags) small_numbers small_laws cursor_read_laws none
      none used_up [] (at_start (encoding 2 1 ++ encoding 2 1)) tt (omega arith) (omega arith)
      (sym (append-nil (encoding 2 1 ++ encoding 2 1)))
