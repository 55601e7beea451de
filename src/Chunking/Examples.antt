-- ===== src/Chunking/Examples.antt =====
-- Concrete texts.
use exais_vector_store.Prelude.{
  ◌≡◌, ◌≤◌, refl, [], ◌∷◌, ◌++◌, some, max, All, concat, replicate, get_elem?,
}
use exais_vector_store.Prelude.Text.{Text, codes}
use exais_vector_store.Chunking.Words.{words, estimate_tokens}
use exais_vector_store.Chunking.Split.{split_oversized, windows}
use exais_vector_store.Chunking.Split.Windows.{
  HoldsWord, split_oversized-HoldsWord, estimate-split_oversized,
}

-- ninety words
abbrev long_text : Text
long_text = concat (replicate 89 (codes "a ")) ++ codes "end"

-- the second window starts seven words before the first ends
two_windows : windows 90 80 7 ≡ (0, 80) ∷ (73, 90) ∷ []
unfolding windows
two_windows = refl

last_word : get_elem? (words long_text) 89 ≡ some (codes "end")
unfolding words
last_word = refl

split_oversized-HoldsWord_example : HoldsWord (codes "end") (split_oversized long_text 100 10)
split_oversized-HoldsWord_example =
    split_oversized-HoldsWord long_text 100 10 89 (codes "end") last_word

estimate-split_oversized_run :
    All (λ chunk. estimate_tokens chunk ≤ max 106 100) (split_oversized long_text 100 10)
estimate-split_oversized_run = estimate-split_oversized long_text 100 10
