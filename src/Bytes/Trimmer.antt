-- ===== src/Bytes/Trimmer.antt =====
-- A compressor for examples: it drops the zeros at the end.
use lencode.Prelude.{
  ℕ, zero, suc, ◌<◌, ◌≡◌, refl, sym, ap, ◌∙◌, arith, Option, none, some, List, [], ◌∷◌, length,
}
use lencode.Bytes.Zstd.{Zstd, ZstdLaws}

-- A byte before others that were kept: a zero before nothing goes too.
abbrev kept_byte : ℕ → List ℕ → List ℕ
kept_byte zero [] = []
kept_byte zero (y ∷ ys) = zero ∷ y ∷ ys
kept_byte (suc x) ys = suc x ∷ ys

abbrev trimmed : List ℕ → List ℕ
trimmed [] = []
trimmed (x ∷ xs) = kept_byte x (trimmed xs)

abbrev padded : ℕ → List ℕ → List ℕ
padded zero ys = []
padded (suc n) [] = 0 ∷ padded n []
padded (suc n) (y ∷ ys) = y ∷ padded n ys

padded-kept_byte : (n x : ℕ) (ys : List ℕ) → padded (suc n) (kept_byte x ys) ≡ x ∷ padded n ys
padded-kept_byte n zero [] = refl
padded-kept_byte n zero (y ∷ ys) = refl
padded-kept_byte n (suc x) ys = refl

padded-trimmed : (xs : List ℕ) → padded (length xs) (trimmed xs) ≡ xs
padded-trimmed [] = refl
padded-trimmed (x ∷ xs) =
    padded-kept_byte (length xs) x (trimmed xs) ∙ ap (λ t. x ∷ t) (padded-trimmed xs)

-- The length stands before the bytes.
abbrev declared : List ℕ → Option ℕ
declared [] = none
declared (n ∷ ys) = some n

abbrev expand : List ℕ → Option (List ℕ)
expand [] = none
expand (n ∷ ys) = some (padded n ys)

abbrev pub trimmer : Zstd
trimmer = record {
  compress = λ xs. some (length xs ∷ trimmed xs);
  decompress = λ n c. expand c;
  content_size = declared;
}

pub trimmer_lem :
    (xs c : List ℕ)
    → some (length xs ∷ trimmed xs) ≡ some c
    → (expand c ≡ some xs) × (declared c ≡ some (length xs)) × (0 < length c)
trimmer_lem xs c h =
    let e : length xs ∷ trimmed xs ≡ c = cc h in
    (
      ap expand (sym e) ∙ ap some (padded-trimmed xs),
      ap declared (sym e),
      omega (arith, ap length e),
    )

abbrev pub trimmer_laws : ZstdLaws trimmer
trimmer_laws = record {
  decompress-compress = λ xs c n h fits. (trimmer_lem xs c h).0;
  content_size-compress = λ xs c h. (trimmer_lem xs c h).1;
  length-compress_pos = λ xs c h. (trimmer_lem xs c h).2;
}
