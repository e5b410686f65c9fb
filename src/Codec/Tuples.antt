-- ===== src/Codec/Tuples.antt =====
-- The arities of src/tuples.rs, each an implementation of its own there.
use lencode.Prelude.{[], ◌∷◌}
use lencode.Codec.Traits.{Coding}
use lencode.Codec.Products.{tuple}

module _ {X Y : Type 0} where
  abbrev pub tuple1 : Coding X Y → Coding X Y
  tuple1 A = tuple (A ∷ [])

  abbrev pub tuple2 : (A B : Coding X Y) → Coding X Y
  tuple2 A B = tuple (A ∷ B ∷ [])

  abbrev pub tuple3 : (A B C : Coding X Y) → Coding X Y
  tuple3 A B C = tuple (A ∷ B ∷ C ∷ [])

  abbrev pub tuple4 : (A B C D : Coding X Y) → Coding X Y
  tuple4 A B C D = tuple (A ∷ B ∷ C ∷ D ∷ [])

  abbrev pub tuple5 : (A B C D E : Coding X Y) → Coding X Y
  tuple5 A B C D E = tuple (A ∷ B ∷ C ∷ D ∷ E ∷ [])

  abbrev pub tuple6 : (A B C D E F : Coding X Y) → Coding X Y
  tuple6 A B C D E F = tuple (A ∷ B ∷ C ∷ D ∷ E ∷ F ∷ [])

  abbrev pub tuple7 : (A B C D E F G : Coding X Y) → Coding X Y
  tuple7 A B C D E F G = tuple (A ∷ B ∷ C ∷ D ∷ E ∷ F ∷ G ∷ [])

  abbrev pub tuple8 : (A B C D E F G H : Coding X Y) → Coding X Y
  tuple8 A B C D E F G H = tuple (A ∷ B ∷ C ∷ D ∷ E ∷ F ∷ G ∷ H ∷ [])

  abbrev pub tuple9 : (A B C D E F G H I : Coding X Y) → Coding X Y
  tuple9 A B C D E F G H I = tuple (A ∷ B ∷ C ∷ D ∷ E ∷ F ∷ G ∷ H ∷ I ∷ [])

  abbrev pub tuple10 : (A B C D E F G H I J : Coding X Y) → Coding X Y
  tuple10 A B C D E F G H I J = tuple (A ∷ B ∷ C ∷ D ∷ E ∷ F ∷ G ∷ H ∷ I ∷ J ∷ [])

  abbrev pub tuple11 : (A B C D E F G H I J K : Coding X Y) → Coding X Y
  tuple11 A B C D E F G H I J K = tuple (A ∷ B ∷ C ∷ D ∷ E ∷ F ∷ G ∷ H ∷ I ∷ J ∷ K ∷ [])
