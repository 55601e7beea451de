-- ===== src/Chunking/Split.antt =====
-- `split_oversized`: overlapping windows of words. Token counts are natural numbers.
pub mod Windows
use exais_vector_store.Prelude.{
  ℕ, zero, suc, Bool, List, [], ◌∷◌, ◌+◌, ◌-◌, ◌*◌, ◌/◌, min, max, map, length, slice, ltb, leb,
  ◌==◌, if◌then◌else◌,
}
use exais_vector_store.Prelude.Text.{Text}
use exais_vector_store.Chunking.Words.{words, join_words}

abbrev pub approx_words : ℕ → ℕ
approx_words max_tokens = max 80 (max_tokens * 3 / 4)

abbrev pub overlap_words : ℕ → ℕ
overlap_words overlap_tokens = max 0 (overlap_tokens * 3 / 4)

-- `start` and `end` in each pass of the loop
unfoldable pub windows_from : ℕ → ℕ → ℕ → ℕ → ℕ → List (ℕ × ℕ)
windows_from zero count size overlap start = []
windows_from (suc fuel) count size overlap start =
    let end = min count (start + size) in
    let rest = windows_from fuel count size overlap (max (end - overlap) (start + 1)) in
    if ltb start count
    then (if end == count then (start, end) ∷ [] else (start, end) ∷ rest)
    else []

-- each pass moves `start` on, so that there are at most as many passes as words
unfoldable pub windows : ℕ → ℕ → ℕ → List (ℕ × ℕ)
unfolding windows_from
windows count size overlap = windows_from count count size overlap 0

-- `' '.join(words[start:end])`
unfoldable pub window_text : List Text → ℕ × ℕ → Text
window_text ws (start, end) = join_words (slice start end ws)

unfoldable pub split_oversized : Text → ℕ → ℕ → List Text
unfolding windows window_text
split_oversized text max_tokens overlap_tokens =
    let ws = words text in
    let size = approx_words max_tokens in
    if leb (length ws) size
    then text ∷ []
    else map (window_text ws) (windows (length ws) size (overlap_words overlap_tokens))
