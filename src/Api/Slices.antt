-- ===== src/Api/Slices.antt =====
-- The byte ranges that `uploadChunk` sends: what they are, and that together they are the file.
use cloud_file.Base.{
  ℕ, zero, suc, ◌+◌, ◌-◌, ◌*◌, ◌≤◌, ◌<◌, min, ◌≡◌, refl, ap, sym, ◌∙◌, List, [], ◌∷◌, ◌++◌, arith,
  length, take, drop, take-append-drop, length-take, length-drop,
}
use cloud_file.Api.{chunk_count_of, slice_of}

-- The slices of the indexes `i`, `i + 1`, … , `i + n - 1`, one after the other.
unfoldable pub slices_from : ℕ → List ℕ → ℕ → ℕ → List ℕ
slices_from chunk bytes i zero = []
slices_from chunk bytes i (suc n) =
    slice_of chunk (length bytes) bytes i ++ slices_from chunk bytes (i + 1) n

take-min : (n m : ℕ) (xs : List ℕ) → m ≡ min n (length xs) → take m xs ≡ take n xs
take-min zero zero [] h = refl
take-min zero zero (x ∷ xs) h = refl
take-min zero (suc m) xs h = absurd (omega arith)
take-min (suc n) zero [] h = refl
take-min (suc n) (suc m) [] h = refl
take-min (suc n) zero (x ∷ xs) h = absurd (omega arith)
take-min (suc n) (suc m) (x ∷ xs) h = ap (λ t. x ∷ t) (take-min n m xs (omega arith))

drop-nil : (n : ℕ) → drop {A = ℕ} n [] ≡ []
drop-nil zero = refl
drop-nil (suc n) = refl

drop-drop : (n m k : ℕ) (xs : List ℕ) → k ≡ m + n → drop n (drop m xs) ≡ drop k xs
drop-drop n zero k xs h = let e : k ≡ n = omega arith in rw e
drop-drop n (suc m) k [] h = drop-nil n ∙ sym (drop-nil k)
drop-drop n (suc m) zero (x ∷ xs) h = absurd (omega arith)
drop-drop n (suc m) (suc k) (x ∷ xs) h = drop-drop n m k xs (omega arith)

-- a slice is the chunk's worth of bytes from its start, or what is left of them
slice_of-take :
    (chunk : ℕ) (bytes : List ℕ) (i : ℕ)
    → slice_of chunk (length bytes) bytes i ≡ take chunk (drop (i * chunk) bytes)
unfolding slice_of
slice_of-take chunk bytes i =
    take-min chunk _ (drop (i * chunk) bytes) (omega (arith, length-drop (i * chunk) bytes))

drop_all : (n : ℕ) (xs : List ℕ) → length xs ≤ n → drop n xs ≡ []
drop_all zero [] h = refl
drop_all (suc n) [] h = refl
drop_all zero (x ∷ xs) h = absurd (omega arith)
drop_all (suc n) (x ∷ xs) h = drop_all n xs (omega arith)

slices_from-drop :
    (chunk : ℕ) (bytes : List ℕ) (i n : ℕ)
    → length bytes ≤ (i + n) * chunk
    → slices_from chunk bytes i n ≡ drop (i * chunk) bytes
unfolding slices_from
slices_from-drop chunk bytes i zero h = sym (drop_all (i * chunk) bytes (omega arith))
slices_from-drop chunk bytes i (suc n) h =
    rw
      (
        slice_of-take chunk bytes i,
        slices_from-drop chunk bytes (i + 1) n (omega arith),
        ← drop-drop chunk (i * chunk) ((i + 1) * chunk) bytes (omega arith),
      )
      (take-append-drop chunk (drop (i * chunk) bytes))

chunk_count-covers : (chunk size : ℕ) → 0 < chunk → size ≤ chunk_count_of chunk size * chunk
unfolding chunk_count_of
chunk_count-covers chunk size h = grind arith

drop_none : (bytes : List ℕ) (n : ℕ) → drop (0 * n) bytes ≡ bytes
drop_none bytes n = let e : 0 * n ≡ 0 = omega arith in rw e

-- The slices of all indexes below the chunk count, in order, are the bytes of the file.
pub slices_from-eq-bytes :
    (chunk : ℕ) (bytes : List ℕ)
    → 0 < chunk
    → slices_from chunk bytes 0 (chunk_count_of chunk (length bytes)) ≡ bytes
slices_from-eq-bytes chunk bytes h =
    slices_from-drop chunk bytes 0 (chunk_count_of chunk (length bytes))
      (omega (arith, chunk_count-covers chunk (length bytes) h))
    ∙ drop_none bytes chunk

chunk_count-inner :
    (chunk size i : ℕ) → 0 < chunk → suc i < chunk_count_of chunk size → suc i * chunk < size
unfolding chunk_count_of
chunk_count-inner chunk size i h k = grind arith

chunk_count-last :
    (chunk size i : ℕ)
    → 0 < chunk
    → 0 < size
    → suc i ≡ chunk_count_of chunk size
    → (i * chunk < size) × (size ≤ suc i * chunk)
unfolding chunk_count_of
chunk_count-last chunk size i h k e = (grind arith, grind arith)

length-slice_of-min :
    (chunk : ℕ) (bytes : List ℕ) (i : ℕ)
    → length (slice_of chunk (length bytes) bytes i) ≡ min chunk (length bytes - i * chunk)
length-slice_of-min chunk bytes i =
    rw (slice_of-take chunk bytes i)
      (omega (arith, length-take chunk (drop (i * chunk) bytes), length-drop (i * chunk) bytes))

-- Every slice but the last of a file is a whole chunk.
pub length-slice_of :
    (chunk : ℕ) (bytes : List ℕ) (i : ℕ)
    → 0 < chunk
    → suc i < chunk_count_of chunk (length bytes)
    → length (slice_of chunk (length bytes) bytes i) ≡ chunk
length-slice_of chunk bytes i h inner =
    omega
      (arith, length-slice_of-min chunk bytes i, chunk_count-inner chunk (length bytes) i h inner)

-- The last slice of a file with bytes has at least one byte, and at most a chunk.
pub length-slice_of_last :
    (chunk : ℕ) (bytes : List ℕ) (i : ℕ)
    → 0 < chunk
    → 0 < length bytes
    → suc i ≡ chunk_count_of chunk (length bytes)
    → (0 < length (slice_of chunk (length bytes) bytes i))
      × (length (slice_of chunk (length bytes) bytes i) ≤ chunk)
length-slice_of_last chunk bytes i h k last =
    omega
      (arith, length-slice_of-min chunk bytes i, chunk_count-last chunk (length bytes) i h k last)
