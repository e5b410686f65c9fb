-- ===== src/Codec/Sequences.antt =====
-- src/lib.rs, `Encode` and `Decode` for `Vec<T>` at a type other than `u8`, `VecDeque<V>` at one,
-- `LinkedList<V>` and `[T; N]`.
use lencode.Prelude.{ℕ, zero, suc, ◌*◌, Option, none, some, List, [], ◌∷◌, length}
use lencode.Io.{M, Read, Write, modify, pure, ◌>>=◌, ◌>>◌, ◌⊕◌}
use lencode.Io.Context.{on_right}
use lencode.Codec.Traits.{Coding, Codec, encode_len, decode_len}

module _ {X Y : Type 0} where
  -- `for item in self { total_written += item.encode_ext(writer, ctx.as_deref_mut())?; }`
  unfoldable pub encode_items :
      (C : Coding X Y) {W : Type 0} ⦃io : Write W⦄ → List C.Value → M (Option X × W) ℕ
  encode_items C [] = pure 0
  encode_items C (item ∷ items) = C.encode_ext item ⊕ encode_items C items

  -- `for _ in 0..len { collection.push(T::decode_ext(reader, ctx.as_deref_mut())?); }`
  unfoldable pub decode_items :
      (C : Coding X Y) {R : Type 0} ⦃io : Read R⦄ → ℕ → M (Option Y × R) (List C.Value)
  decode_items C zero = pure []
  decode_items C (suc len) =
      C.decode_ext >>= λ item. decode_items C len >>= λ items. pure (item ∷ items)

  -- `LinkedList`, and `VecDeque` at a type other than `u8`: the length, then each item.
  unfoldable pub encode_list :
      (C : Coding X Y) {W : Type 0} ⦃io : Write W⦄ → List C.Value → M (Option X × W) ℕ
  unfolding encode_items encode_len
  encode_list C items = on_right (encode_len (length items)) ⊕ encode_items C items

  unfoldable pub decode_list :
      (C : Coding X Y) {R : Type 0} ⦃io : Read R⦄ → M (Option Y × R) (List C.Value)
  unfolding decode_items decode_len
  decode_list C = on_right decode_len >>= decode_items C

  abbrev pub linked_list : Coding X Y → Coding X Y
  linked_list C = record {
    Value = List C.Value;
    size_of = 24;
    encode_ext = encode_list C;
    decode_ext = decode_list C;
  }

  -- The items of a `Vec`: with no context, room is made and `encode_slice` writes them all.
  unfoldable pub vec_items :
      (C : Codec X Y) {W : Type 0} ⦃io : Write W⦄ → List C.Value → M (Option X × W) ℕ
  unfolding encode_items
  vec_items C ⦃io⦄ items (none, w) =
      on_right (modify (io.reserve (length items * C.size_of)) >> C.encode_slice items) (none, w)
  vec_items C items (some x, w) = encode_items C.coding items (some x, w)

  unfoldable pub encode_vec :
      (C : Codec X Y) {W : Type 0} ⦃io : Write W⦄ → List C.Value → M (Option X × W) ℕ
  unfolding vec_items encode_len
  encode_vec C items = on_right (encode_len (length items)) ⊕ vec_items C items

  unfoldable pub vec_items_read :
      (C : Codec X Y) {R : Type 0} ⦃io : Read R⦄ → ℕ → M (Option Y × R) (List C.Value)
  unfolding decode_items
  vec_items_read C len (none, r) = on_right (C.decode_vec len) (none, r)
  vec_items_read C len (some y, r) = decode_items C.coding len (some y, r)

  unfoldable pub decode_vec :
      (C : Codec X Y) {R : Type 0} ⦃io : Read R⦄ → M (Option Y × R) (List C.Value)
  unfolding vec_items_read decode_len
  decode_vec C = on_right decode_len >>= vec_items_read C

  abbrev pub vec : Codec X Y → Coding X Y
  vec C = record {
    Value = List C.Value;
    size_of = 24;
    encode_ext = encode_vec C;
    decode_ext = decode_vec C;
  }

  -- `[T; N]` at a type other than `u8`: the items, and nothing of their number.
  abbrev pub array : ℕ → Codec X Y → Coding X Y
  array n C = record {
    Value = List C.Value;
    size_of = n * C.size_of;
    encode_ext = encode_items C.coding;
    decode_ext = decode_items C.coding n;
  }

  -- `VecDeque<V>` at a type other than `u8`, front to back.
  abbrev pub vec_deque : Coding X Y → Coding X Y
  vec_deque C = record {
    Value = List C.Value;
    size_of = 32;
    encode_ext = encode_list C;
    decode_ext = decode_list C;
  }
