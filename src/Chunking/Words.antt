-- ===== src/Chunking/Words.antt =====
-- The words of a text, `str.split()` and `' '.join`, and what joining and splitting them gives back.
use exais_vector_store.Prelude.{
  ℕ, ◌≡◌, ◌∙◌, sym, refl, ap, inl, inr, Bool, true, false, not, ◌&&◌, List, [], ◌∷◌, ◌++◌, ◌*◌, ◌/◌,
  max, arith, if◌then◌else◌, Bool-cases, All, length, take, drop, slice, suc, ◌-◌, zero,
}
use exais_vector_store.Prelude.Text.{Text, is_space}

-- the text ends here or goes on with white space
abbrev pub at_boundary : Text → Bool
at_boundary [] = true
at_boundary (x ∷ t) = is_space x

abbrev cons_head : ℕ → List Text → List Text
cons_head c [] = (c ∷ []) ∷ []
cons_head c (w ∷ ws) = (c ∷ w) ∷ ws

-- `text.split()`
unfoldable pub words : Text → List Text
words [] = []
words (c ∷ t) =
    let rest = words t in
    if is_space c then rest else if at_boundary t then (c ∷ []) ∷ rest else cons_head c rest

-- `' '.join(parts)`
unfoldable pub join_words : List Text → Text
join_words [] = []
join_words (w ∷ []) = w
join_words (w ∷ v ∷ ws) = w ++ b' ' ∷ join_words (v ∷ ws)

-- `estimate_tokens`
unfoldable pub estimate_tokens : Text → ℕ
estimate_tokens text = max 1 (length (words text) * 4 / 3)

abbrev no_space : Text → Bool
no_space [] = true
no_space (x ∷ t) = not (is_space x) && no_space t

-- a word has a character, and none that is white space
abbrev pub IsWord : Text → Type 0
IsWord [] = ⊥
IsWord (x ∷ t) = no_space (x ∷ t) ≡ true

IsWord-cons_head :
    (c : ℕ) (ws : List Text) → is_space c ≡ false → All IsWord ws → All IsWord (cons_head c ws)
IsWord-cons_head c [] plain a = (ground arith, tt)
IsWord-cons_head c ([] ∷ ws) plain (empty, a) = absurd empty
IsWord-cons_head c ((x ∷ w) ∷ ws) plain (h, a) = (ground arith, a)

pub words-IsWord : (t : Text) → All IsWord (words t)
unfolding words
words-IsWord [] = tt
words-IsWord (c ∷ t) = elim (Bool-cases (is_space c)) [
  | inl space ↦ rw (space, if◌then◌else◌) (words-IsWord t)
  | inr plain ↦ elim (Bool-cases (at_boundary t)) [
    | inl ends ↦ rw (plain, if◌then◌else◌, ends) (ground arith, words-IsWord t)
    | inr goes_on ↦
        rw (plain, if◌then◌else◌, goes_on) (IsWord-cons_head c (words t) plain (words-IsWord t))
  ]
]

words-cons :
    (x : ℕ) (t : Text)
    → is_space x ≡ false
    → at_boundary t ≡ false
    → words (x ∷ t) ≡ cons_head x (words t)
unfolding words
words-cons x t plain goes_on = rw (plain, goes_on, if◌then◌else◌) refl

append_nil : (t : Text) → t ++ [] ≡ t
append_nil [] = refl
append_nil (x ∷ t) = ap (◌∷◌ x) (append_nil t)

-- one word in front of white space or of the end
words-append :
    (x : ℕ) (w rest : Text)
    → no_space (x ∷ w) ≡ true
    → at_boundary rest ≡ true
    → words ((x ∷ w) ++ rest) ≡ (x ∷ w) ∷ words rest
unfolding words
words-append x [] rest plain ends = ground arith
words-append x (y ∷ w) rest plain ends =
    let inner : words ((y ∷ w) ++ rest) ≡ (y ∷ w) ∷ words rest =
      words-append y w rest (ground arith) ends in
    let here : is_space x ≡ false = ground arith in
    let next : is_space y ≡ false = ground arith in
    words-cons x ((y ∷ w) ++ rest) here next ∙ ap (cons_head x) inner

pub words-join : (ws : List Text) → All IsWord ws → words (join_words ws) ≡ ws
unfolding join_words words
words-join [] a = refl
words-join ([] ∷ ws) (empty, a) = absurd empty
words-join ((x ∷ w) ∷ []) (h, a) =
    ap words (ap (◌∷◌ x) (sym (append_nil w))) ∙ words-append x w [] h refl
words-join ((x ∷ w) ∷ v ∷ ws) (h, a) =
    words-append x w (b' ' ∷ join_words (v ∷ ws)) h refl ∙ ap (◌∷◌ (x ∷ w)) (words-join (v ∷ ws) a)

module _ {A : Type 0} (P : A → Type 0) where
  take-All : (n : ℕ) (xs : List A) → All P xs → All P (take n xs)
  take-All zero xs a = tt
  take-All (suc n) [] a = tt
  take-All (suc n) (x ∷ xs) (p, a) = (p, take-All n xs a)

  drop-All : (n : ℕ) (xs : List A) → All P xs → All P (drop n xs)
  drop-All zero xs a = a
  drop-All (suc n) [] a = tt
  drop-All (suc n) (x ∷ xs) (p, a) = drop-All n xs a

  pub slice-All : (start end : ℕ) (xs : List A) → All P xs → All P (slice start end xs)
  slice-All start end xs a = take-All (end - start) (drop start xs) (drop-All start xs a)
