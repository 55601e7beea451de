-- ===== src/Chunking/Split/Windows.antt =====
-- The windows cover every word and are short; so the chunks do and are.
use exais_vector_store.Prelude.{
  ℕ, zero, suc, dec_lt, ◌≡◌, ◌≤◌, ◌<◌, refl, sym, ap, ◌∙◌, subst, inl, inr, true, List, [], ◌∷◌,
  ◌+◌, ◌-◌, min, max, map, arith, length, take, drop, slice, lt-length_of_some, get_elem?, some,
  ltb, leb, ◌==◌, if◌then◌else◌, Bool-cases, All, length-take, ◌⊎◌, lt-length_of_some,
}
use exais_vector_store.Prelude.Text.{Text, contains, text_eq_refl}
use exais_vector_store.Chunking.Words.{
  words, estimate_tokens, IsWord, words-IsWord, words-join, slice-All,
}
use exais_vector_store.Chunking.Split.{
  approx_words, overlap_words, windows_from, windows, window_text, split_oversized,
}

-- the window is not empty, is within the words, and has at most `size` of them
abbrev pub Sized : ℕ → ℕ → ℕ × ℕ → Type 0
Sized count size (start, end) = (start < end) × (end ≤ count) × (end ≤ start + size)

windows-Sized :
    (fuel count size overlap start : ℕ)
    → 0 < size
    → All (Sized count size) (windows_from fuel count size overlap start)
unfolding windows_from
windows-Sized zero count size overlap start some_size = tt
windows-Sized (suc fuel) count size overlap start some_size =
    let end = min count (start + size) in
    let next = max (end - overlap) (start + 1) in
    let rest = windows-Sized fuel count size overlap next some_size in
    elim (Bool-cases (ltb start count)) [
      | inl below ↦
          let sized : Sized count size (start, end) = (ground arith, ground arith, ground arith) in
          elim (Bool-cases (end == count)) [
            | inl last ↦ rw (below, last, if◌then◌else◌) (sized, tt)
            | inr more ↦ rw (below, more, if◌then◌else◌) (sized, rest)
          ]
      | inr done ↦ rw (done, if◌then◌else◌) tt
    ]

-- `i` lies in one of the windows
abbrev pub Covers : List (ℕ × ℕ) → ℕ → Type 0
Covers [] i = ⊥
Covers ((start, end) ∷ spans) i = ((start ≤ i) × (i < end)) ⊎ Covers spans i

windows-Covers :
    (fuel count size overlap start i : ℕ)
    → 0 < size
    → count ≤ start + fuel
    → start ≤ i
    → i < count
    → Covers (windows_from fuel count size overlap start) i
unfolding windows_from
windows-Covers zero count size overlap start i some_size enough low high = absurd (omega arith)
windows-Covers (suc fuel) count size overlap start i some_size enough low high =
    let end = min count (start + size) in
    let next = max (end - overlap) (start + 1) in
    let below : ltb start count ≡ true = ground arith in
    elim (Bool-cases (end == count)) [
      | inl last ↦ rw (below, last, if◌then◌else◌) (inl (low, ground arith))
      | inr more ↦
          rw (below, more, if◌then◌else◌)
            elim (dec_lt i end) [
              | yes before ↦ inl (low, before)
              | no after ↦ inr (
                  windows-Covers fuel count size overlap next i some_size (ground arith)
                    (ground arith) high)
            ]
    ]

-- `w` is a word of one of the chunks
abbrev pub HoldsWord : Text → List Text → Type 0
HoldsWord w [] = ⊥
HoldsWord w (chunk ∷ chunks) = (contains (words chunk) w ≡ true) ⊎ HoldsWord w chunks

get_elem?-drop :
    {A : Type 0} (n i : ℕ) (xs : List A) → get_elem? (drop n xs) i ≡ get_elem? xs (n + i)
get_elem?-drop zero i xs = ap (get_elem? xs) (omega arith)
get_elem?-drop (suc n) i [] = refl
get_elem?-drop (suc n) i (x ∷ xs) =
    let moved : suc (n + i) ≡ suc n + i = omega arith in
    get_elem?-drop n i xs ∙ ap (get_elem? (x ∷ xs)) moved

get_elem?-take :
    {A : Type 0} (n i : ℕ) (xs : List A) → i < n → get_elem? (take n xs) i ≡ get_elem? xs i
get_elem?-take zero i xs h = absurd (omega arith)
get_elem?-take (suc n) i [] h = refl
get_elem?-take (suc n) zero (x ∷ xs) h = refl
get_elem?-take (suc n) (suc i) (x ∷ xs) h = get_elem?-take n i xs (omega arith)

contains-get : (xs : List Text) (i : ℕ) (w : Text) → get_elem? xs i ≡ some w → contains xs w ≡ true
contains-get [] i w found = cc
contains-get (x ∷ xs) zero w found = let same : x ≡ w = cc in rw (same, text_eq_refl w) refl
contains-get (x ∷ xs) (suc i) w found = ground (arith, contains-get xs i w found)

contains-slice :
    (start end i : ℕ) (xs : List Text) (w : Text)
    → start ≤ i
    → i < end
    → get_elem? xs i ≡ some w
    → contains (slice start end xs) w ≡ true
contains-slice start end i xs w low high found =
    let back : start + (i - start) ≡ i = omega arith in
    contains-get (slice start end xs) (i - start) w (
      get_elem?-take (end - start) (i - start) (drop start xs) (omega arith)
      ∙ get_elem?-drop start (i - start) xs
      ∙ ap (get_elem? xs) back
      ∙ found)

words-window :
    (text : Text) (start end : ℕ)
    → words (window_text (words text) (start, end)) ≡ slice start end (words text)
unfolding window_text
words-window text start end =
    words-join (slice start end (words text))
      (slice-All IsWord start end (words text) (words-IsWord text))

Covers-HoldsWord :
    (text : Text) (spans : List (ℕ × ℕ)) (i : ℕ) (w : Text)
    → get_elem? (words text) i ≡ some w
    → Covers spans i
    → HoldsWord w (map (window_text (words text)) spans)
Covers-HoldsWord text [] i w found covered = covered
Covers-HoldsWord text ((start, end) ∷ spans) i w found (inl (low, high)) = inl (
    subst (λ ws. contains ws w ≡ true) (sym (words-window text start end))
      (contains-slice start end i (words text) w low high found))
Covers-HoldsWord text ((start, end) ∷ spans) i w found (inr later) =
    inr (Covers-HoldsWord text spans i w found later)

-- Splitting an oversized text loses no word: each word of the text is a word of some chunk.
pub split_oversized-HoldsWord :
    (text : Text) (max_tokens overlap_tokens i : ℕ) (w : Text)
    → get_elem? (words text) i ≡ some w
    → HoldsWord w (split_oversized text max_tokens overlap_tokens)
unfolding split_oversized windows
split_oversized-HoldsWord text max_tokens overlap_tokens i w found =
    let count = length (words text) in
    let size = approx_words max_tokens in
    let overlap = overlap_words overlap_tokens in
    elim (Bool-cases (leb count size)) [
      | inl fits ↦ rw (fits, if◌then◌else◌) (inl (contains-get (words text) i w found))
      | inr over ↦
          rw (over, if◌then◌else◌)
            (Covers-HoldsWord text (windows count size overlap) i w found (
              windows-Covers count count size overlap 0 i (omega arith) (omega arith) (omega arith)
                (lt-length_of_some (words text) i w found)))
    ]

window-tokens :
    (text : Text) (max_tokens : ℕ) (span : ℕ × ℕ)
    → Sized (length (words text)) (approx_words max_tokens) span
    → estimate_tokens (window_text (words text) span) ≤ max 106 max_tokens
unfolding estimate_tokens
window-tokens text max_tokens (start, end) (_, _, short) =
    let size : length (words (window_text (words text) (start, end))) ≤ approx_words max_tokens =
      rw (words-window text start end, length-take (end - start) (drop start (words text)))
        (omega arith) in
    omega arith

All-map :
    {A B : Type 0} {P : A → Type 0} (Q : B → Type 0) (f : A → B)
    → ((a : A) → P a → Q (f a))
    → (xs : List A) → All P xs
    → All Q (map f xs)
All-map Q f step [] a = tt
All-map Q f step (x ∷ xs) (p, a) = (step x p, All-map Q f step xs a)

-- No chunk is estimated at more tokens than asked for, or than 106 where less is asked for.
pub estimate-split_oversized :
    (text : Text) (max_tokens overlap_tokens : ℕ)
    → All
        (λ chunk. estimate_tokens chunk ≤ max 106 max_tokens)
        (split_oversized text max_tokens overlap_tokens)
unfolding split_oversized windows estimate_tokens
estimate-split_oversized text max_tokens overlap_tokens =
    let count = length (words text) in
    let size = approx_words max_tokens in
    let sized = windows-Sized count count size (overlap_words overlap_tokens) 0 (omega arith) in
    elim (Bool-cases (leb count size)) [
      | inl fits ↦ rw (fits, if◌then◌else◌) (ground arith, tt)
      | inr over ↦
          rw (over, if◌then◌else◌)
            (All-map (λ chunk. estimate_tokens chunk ≤ max 106 max_tokens)
              (window_text (words text)) (window-tokens text max_tokens) _ sized)
    ]
