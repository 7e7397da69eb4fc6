-- ===== src/Protocol/RoundTrip.antt =====
-- include/protocol.h: words that are written to a datagram are read back.
use crystalline_lattice.Common.{
  ℕ, zero, suc, ◌+◌, ◌*◌, ◌^◌, ◌<◌, ◌≡◌, ◌∙◌, List, [], ◌∷◌, ◌++◌, arith, get_or, length, All, ap,
}
use crystalline_lattice.Protocol.{u32_at, u32_bytes, words_bytes, word}

u32_at-bytes : (n : ℕ) (rest : List ℕ) → n < 2 ^ 32 → u32_at 0 (u32_bytes n ++ rest) ≡ n
unfolding u32_at
u32_at-bytes n rest h = omega arith

get_or-skip :
    (b c d e : ℕ) (rest : List ℕ) (j i : ℕ)
    → j ≡ suc (suc (suc (suc i)))
    → get_or (b ∷ c ∷ d ∷ e ∷ rest) j 0 ≡ get_or rest i 0
get_or-skip b c d e rest j i h = rw h

u32_at-skip : (i n : ℕ) (rest : List ℕ) → u32_at (4 + i) (u32_bytes n ++ rest) ≡ u32_at i rest
unfolding u32_at
u32_at-skip i n rest = omega (
  arith,
  skip (4 + i) i,
  skip (4 + i + 1) (i + 1),
  skip (4 + i + 2) (i + 2),
  skip (4 + i + 3) (i + 3),
)
  where
    skip :
        (j k : ℕ) → j ≡ suc (suc (suc (suc k))) → get_or (u32_bytes n ++ rest) j 0 ≡ get_or rest k 0
    skip = get_or-skip _ _ _ _ rest

-- Every field of a structure of words below 2 ^ 32 is read back from its bytes, whatever follows
-- them.
pub word-words_bytes :
    (ns : List ℕ) (i : ℕ) (rest : List ℕ)
    → All (λ n. n < 2 ^ 32) ns
    → i < length ns
    → word i (words_bytes ns ++ rest) ≡ get_or ns i 0
unfolding words_bytes
word-words_bytes [] i rest fit h = absurd (omega arith)
word-words_bytes (n ∷ ns) zero rest fit h = u32_at-bytes n (words_bytes ns ++ rest) fit.0
word-words_bytes (n ∷ ns) (suc i) rest fit h =
    ap (λ (k : ℕ). u32_at k (u32_bytes n ++ (words_bytes ns ++ rest))) (omega arith)
    ∙ u32_at-skip (4 * i) n (words_bytes ns ++ rest)
    ∙ word-words_bytes ns i rest fit.1 (omega arith)
