-- ===== src/Prelude/Text.antt =====
-- Python's `str` as the list of its code points, with the methods that the components call.
use Prim.Native.Char.{code}
use exais_vector_store.Prelude.{
  ℕ, ◌≡◌, refl, Bool, true, false, ◌&&◌, ◌||◌, List, [], ◌∷◌, arith, leb, ◌==◌, if◌then◌else◌, ◌+◌,
}
use Prim.Native.String.{String}

abbrev pub Text : Type 0
Text = List ℕ

-- the code points of a literal
abbrev pub codes : String → Text
codes String.[] = []
codes (String.◌∷◌ c s) = code c ∷ codes s

abbrev pub text_eq : Text → Text → Bool
text_eq [] [] = true
text_eq [] (y ∷ ys) = false
text_eq (x ∷ xs) [] = false
text_eq (x ∷ xs) (y ∷ ys) = (x == y) && text_eq xs ys

pub text_eq_sound : (s t : Text) → text_eq s t ≡ true → s ≡ t
text_eq_sound [] [] h = refl
text_eq_sound [] (y ∷ ys) h = cc
text_eq_sound (x ∷ xs) [] h = cc
text_eq_sound (x ∷ xs) (y ∷ ys) h = ground (arith, text_eq_sound xs ys)

pub text_eq_refl : (s : Text) → text_eq s s ≡ true
text_eq_refl [] = refl
text_eq_refl (x ∷ xs) = ground (arith, text_eq_refl xs)

-- `t in texts`
abbrev pub contains : List Text → Text → Bool
contains [] t = false
contains (s ∷ texts) t = text_eq s t || contains texts t

-- `c in t`
abbrev pub has_code : ℕ → Text → Bool
has_code c [] = false
has_code c (x ∷ t) = (x == c) || has_code c t

-- `t.split(c, 1)[0]`
abbrev pub before_code : ℕ → Text → Text
before_code c [] = []
before_code c (x ∷ t) = if x == c then [] else x ∷ before_code c t

-- `str.isspace` of one character
abbrev pub is_space : ℕ → Bool
is_space c =
    (leb 9 c && leb c 13)
    || (leb 28 c && leb c 32)
    || (c == 133)
    || (c == 160)
    || (c == 5760)
    || (leb 8192 c && leb c 8202)
    || (c == 8232)
    || (c == 8233)
    || (c == 8239)
    || (c == 8287)
    || (c == 12288)

unfoldable pub lstrip : Text → Text
lstrip [] = []
lstrip (x ∷ t) = if is_space x then lstrip t else x ∷ t

unfoldable pub rstrip : Text → Text
rstrip [] = []
rstrip (x ∷ t) = elim (rstrip t) [ [] ↦ if is_space x then [] else x ∷ [] | y ∷ r ↦ x ∷ y ∷ r ]

unfoldable pub strip : Text → Text
unfolding lstrip rstrip
strip t = rstrip (lstrip t)

abbrev pub is_empty : Text → Bool
is_empty [] = true
is_empty (x ∷ t) = false

-- a list comprehension with a test
abbrev pub filter_by : {A : Type 0} → (A → Bool) → List A → List A
filter_by p [] = []
filter_by p (x ∷ xs) = let rest = filter_by p xs in if p x then x ∷ rest else rest

-- `t.startswith(prefix)`
abbrev pub starts_with : Text → Text → Bool
starts_with [] t = true
starts_with (p ∷ prefix) [] = false
starts_with (p ∷ prefix) (x ∷ t) = (p == x) && starts_with prefix t

-- `t.split(c, 1)[1]`, where there is one
abbrev pub after_code : ℕ → Text → Text
after_code c [] = []
after_code c (x ∷ t) = if x == c then t else after_code c t

-- `str.lower` of one character, as far as the ASCII letters go
abbrev pub lower_ascii : ℕ → ℕ
lower_ascii c = if leb 65 c && leb c 90 then c + 32 else c

pub text_eq_sym : (s t : Text) → text_eq s t ≡ text_eq t s
text_eq_sym [] [] = refl
text_eq_sym [] (y ∷ t) = refl
text_eq_sym (x ∷ s) [] = refl
text_eq_sym (x ∷ s) (y ∷ t) = ground (arith, text_eq_sym s t)

module _ {A : Type 0} (test : A → Bool) (x : A) (xs : List A) where
  pub filter_by_hit : test x ≡ true → filter_by test (x ∷ xs) ≡ x ∷ filter_by test xs
  filter_by_hit hit = rw (hit, if◌then◌else◌) refl

  pub filter_by_miss : test x ≡ false → filter_by test (x ∷ xs) ≡ filter_by test xs
  filter_by_miss miss = rw (miss, if◌then◌else◌) refl
