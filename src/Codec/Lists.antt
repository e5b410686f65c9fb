-- ===== src/Codec/Lists.antt =====
-- The sequences of src/lib.rs keep the promise of their items.
use lencode.Prelude.{ℕ, ◌+◌, ◌^◌, ◌<◌, ◌≡◌, arith, ◌∙◌, Option, List, ◌++◌, length, append_assoc}
use lencode.Io.{M, pure, ◌>>=◌, Read, Write, ReadLaws, WriteLaws}
use lencode.Io.Context.{
  AppendsWith, ReadsWith, AppendsWith-chain, Room-append, ReadsWith-bind, on_right,
  on_right-AppendsWith, on_right-ReadsWith,
}
use lencode.Varint.Encoding.{encoding}
use lencode.Varint.Encode.{encode_word-Appends}
use lencode.Varint.Decode.{decode_word-Reads}
use lencode.Varint.Fixed.{encode_varint_u64, decode_varint_u64}
use lencode.Codec.Traits.{Coding, encode_len, decode_len}
use lencode.Context.Sync.{InStep}
use lencode.Codec.Laws.{CodingLaws}
use lencode.Codec.Sequences.{
  encode_items, decode_items, encode_list, decode_list, linked_list, vec_deque,
}
use lencode.Codec.Items.{
  items_coded, ItemsCodable, after_items, after_items_read, after_items-InStep,
  encode_items-Appends, decode_items-Reads,
}

-- A length, and what is written behind it.
pub len-chain-Appends :
    {E W : Type 0} ⦃io : Write W⦄ (laws : WriteLaws io) (len : ℕ) (act : M (E × W) ℕ) (e e' : E)
    (bs : List ℕ) (m : ℕ) (w : W)
    → len < 2 ^ 64
    → laws.Room w (length (encoding 8 len ++ bs) + m)
    → ((w' : W) → laws.Room w' (length bs + m) → AppendsWith laws act e w' bs e' m)
    → AppendsWith laws
        (on_right (encode_len len) >>= λ x. act >>= λ y. pure (x + y))
        e
        w
        (encoding 8 len ++ bs)
        e'
        m
unfolding encode_len encode_varint_u64
len-chain-Appends laws len act e e' bs m w small room next =
    AppendsWith-chain laws (on_right (encode_varint_u64 len)) act e e e' w (encoding 8 len) bs m
      (on_right-AppendsWith laws e (encode_varint_u64 len) w (encoding 8 len) _
        (encode_word-Appends laws 8 len _ w (omega arith) small (Room-append laws w _ _ m room)))
      next

pub len-bind-Reads :
    {D R A : Type 0} ⦃io : Read R⦄ (laws : ReadLaws io) (len : ℕ) (f : ℕ → M (D × R) A) (d d' : D)
    (bs : List ℕ) (rest : List ℕ) (r : R) (a : A)
    → len < 2 ^ 64
    → laws.IsValid r
    → laws.remaining r ≡ (encoding 8 len ++ bs) ++ rest
    → ((r' : R)
        → laws.IsValid r'
        → laws.remaining r' ≡ bs ++ rest
        → ReadsWith laws (f len) d r' a d' rest)
    → ReadsWith laws (on_right decode_len >>= f) d r a d' rest
unfolding decode_len decode_varint_u64
len-bind-Reads laws len f d d' bs rest r a small valid left next =
    ReadsWith-bind laws (on_right decode_varint_u64) f d d d' r len a (bs ++ rest) rest
      (on_right-ReadsWith laws d decode_varint_u64 r len (bs ++ rest) (
        decode_word-Reads laws 8 len (bs ++ rest) r (omega arith) small valid
          (left ∙ append_assoc _ bs rest)))
      next

module _ {X Y : Type 0} (S : X → Y → Type 0) (C : Coding X Y) (L : CodingLaws S C) where
  abbrev pub ListCodable : Option X → List C.Value → Type 0
  ListCodable e vs = (length vs < 2 ^ 64) × ItemsCodable S C L e vs

  abbrev pub list_coded : Option X → List C.Value → List ℕ
  list_coded e vs = encoding 8 (length vs) ++ items_coded S C L e vs

  pub encode_list-Appends :
      {W : Type 0} ⦃io : Write W⦄ (laws : WriteLaws io) (e : Option X) (d : Option Y)
      (vs : List C.Value) (m : ℕ) (w : W)
      → InStep S e d
      → ListCodable e vs
      → laws.Room w (length (list_coded e vs) + m)
      → 0 < m
      → AppendsWith laws (encode_list C vs) e w (list_coded e vs) (after_items S C L e vs) m
  unfolding encode_list
  encode_list-Appends laws e d vs m w s (small, fits) room more =
      len-chain-Appends laws (length vs) (encode_items C vs) e (after_items S C L e vs)
        (items_coded S C L e vs) m w small room
        (λ w' room'. encode_items-Appends S C L laws e d vs m w' s fits room' more)

  pub decode_list-Reads :
      {R : Type 0} ⦃io : Read R⦄ (laws : ReadLaws io) (e : Option X) (d : Option Y)
      (vs : List C.Value) (rest : List ℕ) (r : R)
      → InStep S e d
      → ListCodable e vs
      → laws.IsValid r
      → laws.remaining r ≡ list_coded e vs ++ rest
      → ReadsWith laws (decode_list C) d r vs (after_items_read S C L e d vs) rest
  unfolding decode_list
  decode_list-Reads laws e d vs rest r s (small, fits) valid left =
      len-bind-Reads laws (length vs) (decode_items C) d (after_items_read S C L e d vs)
        (items_coded S C L e vs) rest r vs small valid left
        (λ r' valid' left'. decode_items-Reads S C L laws e d vs rest r' s fits valid' left')

  abbrev pub linked_list-CodingLaws : CodingLaws S (linked_list C)
  linked_list-CodingLaws = record {
    coded = list_coded;
    IsCodable = ListCodable;
    after = after_items S C L;
    after_read = after_items_read S C L;
    after-InStep = λ e d vs s fits. after_items-InStep S C L e d vs s fits.1;
    encode-Appends =
        λ laws e d vs m w s fits room more. encode_list-Appends laws e d vs m w s fits room more;
    decode-Reads = λ laws e d vs rest r s fits valid left.
        decode_list-Reads laws e d vs rest r s fits valid left;
  }

  abbrev pub vec_deque-CodingLaws : CodingLaws S (vec_deque C)
  vec_deque-CodingLaws = record {
    coded = list_coded;
    IsCodable = ListCodable;
    after = after_items S C L;
    after_read = after_items_read S C L;
    after-InStep = λ e d vs s fits. after_items-InStep S C L e d vs s fits.1;
    encode-Appends =
        λ laws e d vs m w s fits room more. encode_list-Appends laws e d vs m w s fits room more;
    decode-Reads = λ laws e d vs rest r s fits valid left.
        decode_list-Reads laws e d vs rest r s fits valid left;
  }
