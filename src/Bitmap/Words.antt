-- ===== src/Bitmap/Words.antt =====
-- The operations of lib/bitmap.c on all words of masks: `bitmap_and`, `bitmap_or`, `bitmap_andnot`,
-- `bitmap_zero` and `bitmap_empty`. The masks may be the same, since a word is read before it is
-- written.
use libvzctl.Common.{
  ℕ, zero, suc, ◌+◌, ◌*◌, ◌≤◌, ◌<◌, ◌/◌, Bool, true, false, not, ◌&&◌, ◌||◌, ltb, leb, ◌==◌,
  if◌then◌else◌, ◌≡◌, refl, ap, arith,
}
use libvzctl.OnOff.{Mask}
use libvzctl.Bitmap.{any_from, is_nonzero_word}
use libvzctl.Bitmap.Search.{any_from_none}

-- `dst[i] = …`, for the bits that `of` says.
unfoldable pub put_word : Mask → ℕ → Mask → Mask
put_word dst i of = λ b. if b / 64 == i then of b else dst b

-- The loop over `k` words from `i` on, with `result != 0`.
unfoldable pub words_from : (of dst : Mask) → ℕ → ℕ → Mask × Bool
unfolding put_word
words_from of dst i zero = (dst, false)
words_from of dst i (suc k) =
    let now = put_word dst i of in
    let rest = words_from of now (i + 1) k in (rest.0, is_nonzero_word now i || rest.1)

unfoldable pub bitmap_and : (dst map1 map2 : Mask) → (size : ℕ) → Mask × Bool
unfolding words_from
bitmap_and dst map1 map2 size = words_from (λ b. map1 b && map2 b) dst 0 (size / 8)

pub bitmap_or : (dst map1 map2 : Mask) → (size : ℕ) → Mask × Bool
unfolding words_from
bitmap_or dst map1 map2 size = words_from (λ b. map1 b || map2 b) dst 0 (size / 8)

pub bitmap_andnot : (dst map1 map2 : Mask) → (size : ℕ) → Mask × Bool
unfolding words_from
bitmap_andnot dst map1 map2 size = words_from (λ b. map1 b && not (map2 b)) dst 0 (size / 8)

-- `memset(map, 0, size)`.
pub bitmap_zero : Mask → (size : ℕ) → Mask
bitmap_zero map size = λ b. if ltb (b / 8) size then false else map b

unfoldable pub empty_words : Mask → ℕ → ℕ → Bool
empty_words map i zero = true
empty_words map i (suc k) =
    let rest = empty_words map (i + 1) k in if is_nonzero_word map i then false else rest

unfoldable pub bitmap_empty : Mask → (size : ℕ) → Bool
unfolding empty_words
bitmap_empty map size = empty_words map 0 (size / 8)

-- The loop writes the words from `i` on and no others.
words_from-bits :
    (of dst : Mask) (i k b : ℕ)
    → (words_from of dst i k).0 b ≡ (if leb i (b / 64) && ltb (b / 64) (i + k) then of b else dst b)
unfolding words_from put_word
words_from-bits of dst i zero b = ground arith
words_from-bits of dst i (suc k) b =
    ground (arith, words_from-bits of (put_word dst i of) (i + 1) k b)

-- The whole words of `size` bytes hold what the operation gives, and the rest is kept.
pub bitmap_and-bits :
    (dst map1 map2 : Mask) (size b : ℕ)
    → (bitmap_and dst map1 map2 size).0 b
      ≡ (if ltb (b / 64) (size / 8) then map1 b && map2 b else dst b)
unfolding bitmap_and
bitmap_and-bits dst map1 map2 size b =
    ground (arith, words_from-bits (λ c. map1 c && map2 c) dst 0 (size / 8) b)

pub bitmap_or-bits :
    (dst map1 map2 : Mask) (size b : ℕ)
    → (bitmap_or dst map1 map2 size).0 b
      ≡ (if ltb (b / 64) (size / 8) then map1 b || map2 b else dst b)
unfolding bitmap_or
bitmap_or-bits dst map1 map2 size b =
    ground (arith, words_from-bits (λ c. map1 c || map2 c) dst 0 (size / 8) b)

pub bitmap_andnot-bits :
    (dst map1 map2 : Mask) (size b : ℕ)
    → (bitmap_andnot dst map1 map2 size).0 b
      ≡ (if ltb (b / 64) (size / 8) then map1 b && not (map2 b) else dst b)
unfolding bitmap_andnot
bitmap_andnot-bits dst map1 map2 size b =
    ground (arith, words_from-bits (λ c. map1 c && not (map2 c)) dst 0 (size / 8) b)

any_from-same :
    (m n : Mask) (i k : ℕ)
    → ((b : ℕ) → i ≤ b → b < i + k → m b ≡ n b)
    → any_from m i k ≡ any_from n i k
unfolding any_from
any_from-same m n i zero h = refl
any_from-same m n i (suc k) h = rw (h i (omega arith) (omega arith)) (
    ap (λ t. n i || t)
      (any_from-same m n (i + 1) k (λ b l u. h b (omega (arith, l)) (omega (arith, u)))))

-- The later rounds of the loop leave word `i` alone.
word-kept :
    (of dst : Mask) (i k : ℕ)
    → is_nonzero_word (words_from of dst (i + 1) k).0 i ≡ is_nonzero_word dst i
unfolding is_nonzero_word
word-kept of dst i k =
    any_from-same (words_from of dst (i + 1) k).0 dst (i * 64) 64
      (λ b l u. ground (arith, words_from-bits of dst (i + 1) k b))

words_from-empty_words :
    (of dst : Mask) (i k : ℕ)
    → (words_from of dst i k).1 ≡ not (empty_words (words_from of dst i k).0 i k)
unfolding words_from empty_words
words_from-empty_words of dst i zero = refl
words_from-empty_words of dst i (suc k) =
    let now = put_word dst i of in
    ground (arith, word-kept of now i k, words_from-empty_words of now (i + 1) k)

-- Each of the three operations says whether the mask that it leaves has bits.
pub bitmap_operations-bitmap_empty :
    (dst map1 map2 : Mask) (size : ℕ)
    → ((bitmap_and dst map1 map2 size).1
        ≡ not (bitmap_empty (bitmap_and dst map1 map2 size).0 size))
      × ((bitmap_or dst map1 map2 size).1
          ≡ not (bitmap_empty (bitmap_or dst map1 map2 size).0 size))
      × ((bitmap_andnot dst map1 map2 size).1
          ≡ not (bitmap_empty (bitmap_andnot dst map1 map2 size).0 size))
unfolding bitmap_and bitmap_or bitmap_andnot bitmap_empty
bitmap_operations-bitmap_empty dst map1 map2 size = (
  words_from-empty_words (λ b. map1 b && map2 b) dst 0 (size / 8),
  words_from-empty_words (λ b. map1 b || map2 b) dst 0 (size / 8),
  words_from-empty_words (λ b. map1 b && not (map2 b)) dst 0 (size / 8),
)

empty_words-clear :
    (m : Mask) (i k : ℕ) → ((b : ℕ) → b < (i + k) * 64 → m b ≡ false) → empty_words m i k ≡ true
unfolding empty_words is_nonzero_word
empty_words-clear m i zero h = refl
empty_words-clear m i (suc k) h =
    rw (any_from_none m (i * 64) 64 (λ b l u. h b (omega (arith, u))))
      (empty_words-clear m (i + 1) k (λ b u. h b (omega (arith, u))))

-- A mask that has been zeroed is empty.
pub bitmap_empty-bitmap_zero :
    (map : Mask) (size : ℕ) → bitmap_empty (bitmap_zero map size) size ≡ true
unfolding bitmap_empty bitmap_zero
bitmap_empty-bitmap_zero map size =
    empty_words-clear (bitmap_zero map size) 0 (size / 8) (λ b u. ground arith)
