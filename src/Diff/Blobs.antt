-- ===== src/Diff/Blobs.antt =====
-- The map of src/diff.rs from keys to blobs, `HashMap<u64, Vec<u8>>`, as an association list that
-- holds a key once.
use lencode.Prelude.{
  ℕ, ◌+◌, ◌≡◌, ◌==◌, arith, if◌then◌else◌, Option, none, some, List, [], ◌∷◌, length,
}

abbrev pub Blobs : Type 0
Blobs = List (ℕ × List ℕ)

unfoldable pub get : ℕ → Blobs → Option (List ℕ)
get key [] = none
get key ((k, blob) ∷ blobs) = if k == key then some blob else get key blobs

unfoldable pub insert : ℕ → List ℕ → Blobs → Blobs
insert key new_blob [] = (key, new_blob) ∷ []
insert key new_blob ((k, blob) ∷ blobs) =
    if k == key then (key, new_blob) ∷ blobs else (k, blob) ∷ insert key new_blob blobs

unfoldable pub remove : ℕ → Blobs → Blobs
remove key [] = []
remove key ((k, blob) ∷ blobs) =
    let others = remove key blobs in if k == key then others else (k, blob) ∷ others

-- `store.values().map(|v| v.len()).sum()`
unfoldable pub total_len : Blobs → ℕ
total_len [] = 0
total_len ((k, blob) ∷ blobs) = length blob + total_len blobs

pub get-insert :
    (j key : ℕ) (blob : List ℕ) (blobs : Blobs)
    → get j (insert key blob blobs) ≡ (if key == j then some blob else get j blobs)
unfolding get insert
get-insert j key blob [] = ground arith
get-insert j key blob ((k, old) ∷ blobs) = ground (arith, get-insert j key blob blobs)

pub get-remove :
    (j key : ℕ) (blobs : Blobs)
    → get j (remove key blobs) ≡ (if key == j then none else get j blobs)
unfolding get remove
get-remove j key [] = ground arith
get-remove j key ((k, old) ∷ blobs) = ground (arith, get-remove j key blobs)
