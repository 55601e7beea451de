-- ===== src/Metadata/Strategy.antt =====
-- What an accepted chunking strategy and an accepted expiry policy hold.
use exais_vector_store.Prelude.{
  some-inj, ℕ, ◌≡◌, sym, subst, inl, inr, ◌⊎◌, not, ◌||◌, List, [], ◌∷◌, Option, none, some, arith,
  ltb, ◌*◌, ◌≤◌, false, refl,
}
use exais_vector_store.Prelude.Int.{pos, negsuc}
use exais_vector_store.Prelude.Result.{ok, ◌>>=◌, both_ok, ok-inj, past_guard, branch_ok, branch_ok}
use exais_vector_store.Prelude.Text.{Text, codes}
use exais_vector_store.Metadata.{
  Value, null, boolean, integer, real, nonfinite, string, nested, object, false,
}
use exais_vector_store.Metadata.Requests.{
  get, has_extra, is_text, validate_max_tokens, validate_overlap, effective_max, static_fields,
  auto_fields, validate_chunking_strategy,
}

abbrev pub InSize : Option ℕ → Type 0
InSize none = Unit
InSize (some n) = (100 ≤ n) × (n ≤ 4096)

abbrev pub InOverlap : Option ℕ → Option ℕ → Type 0
InOverlap size none = Unit
InOverlap size (some n) = 2 * n ≤ effective_max size

validate_max_tokens-InSize :
    (v : Value) (size : Option ℕ) → validate_max_tokens v ≡ ok size → InSize size
unfolding validate_max_tokens
validate_max_tokens-InSize null size is = subst InSize (ok-inj is) tt
validate_max_tokens-InSize (integer (pos n)) size is =
    let (inside, kept) = past_guard (ltb n 100 || ltb 4096 n) _ _ is in
    subst InSize (ok-inj kept) (ground (arith, inside), ground (arith, inside))
validate_max_tokens-InSize (integer (negsuc n)) size is = cc
validate_max_tokens-InSize (boolean b) size is = cc
validate_max_tokens-InSize (real r) size is = cc
validate_max_tokens-InSize nonfinite size is = cc
validate_max_tokens-InSize (string t) size is = cc
validate_max_tokens-InSize nested size is = cc

validate_overlap-InOverlap :
    (size : Option ℕ) (v : Value) (overlap : Option ℕ)
    → validate_overlap size v ≡ ok overlap
    → InOverlap size overlap
unfolding validate_overlap
validate_overlap-InOverlap size null overlap is = subst (InOverlap size) (ok-inj is) tt
validate_overlap-InOverlap size (integer (pos n)) overlap is =
    let (inside, kept) = past_guard (ltb (effective_max size) (2 * n)) _ _ is in
    subst (InOverlap size) (ok-inj kept) (ground (arith, inside))
validate_overlap-InOverlap size (integer (negsuc n)) overlap is = cc
validate_overlap-InOverlap size (boolean b) overlap is = cc
validate_overlap-InOverlap size (real r) overlap is = cc
validate_overlap-InOverlap size nonfinite overlap is = cc
validate_overlap-InOverlap size (string t) overlap is = cc
validate_overlap-InOverlap size nested overlap is = cc

-- the automatic strategy, or a static one within its bounds
abbrev pub IsStrategy : List (Text × Value) → Type 0
IsStrategy d =
    (d ≡ auto_fields)
    ⊎ ((size : Option ℕ) × (overlap : Option ℕ) × (d ≡ static_fields size overlap)
        × InSize size
        × InOverlap size overlap)

not_ltb : (a b : ℕ) → b ≤ a → ltb a b ≡ false
not_ltb a b h = ground arith

-- the fields of a static strategy
static-IsStrategy :
    (size_value overlap_value : Value) (d : List (Text × Value))
    → (validate_max_tokens size_value >>= (λ size.
        validate_overlap size overlap_value
        >>= (λ overlap. ok (some (static_fields size overlap)))))
      ≡ ok (some d)
    → IsStrategy d
static-IsStrategy size_value overlap_value d is =
    let (size, in_size, rest) =
      both_ok
        (λ size.
          validate_overlap size overlap_value
          >>= (λ overlap. ok (some (static_fields size overlap))))
        (validate_max_tokens size_value) is in
    let (overlap, in_overlap, last) =
      both_ok (λ overlap. ok (some (static_fields size overlap)))
        (validate_overlap size overlap_value) rest in
    inr (
      size,
      overlap,
      sym (some-inj (ok-inj last)),
      validate_max_tokens-InSize size_value size in_size,
      validate_overlap-InOverlap size overlap_value overlap in_overlap,
    )

-- An accepted chunking strategy is the automatic one, or a static one whose size is from 100 to 4096
-- tokens, where it is given, and whose overlap is at most half of the size, or of 800 tokens where
-- none is given.
pub validate_chunking_strategy-IsStrategy :
    (value : List (Text × Value)) (d : List (Text × Value))
    → validate_chunking_strategy (object value) ≡ ok (some d)
    → IsStrategy d
unfolding validate_chunking_strategy
validate_chunking_strategy-IsStrategy value d is =
    elim (branch_ok (is_text (codes "auto") (get (codes "type") value)) _ _ is) [
      | inl (auto, rest) ↦
          let (_, last) = past_guard (has_extra (codes "type" ∷ []) value) _ _ rest in
          inl (sym (some-inj (ok-inj last)))
      | inr (other, rest) ↦
          let (_, typed) =
            past_guard (not (is_text (codes "static") (get (codes "type") value))) _ _ rest in
          let (_, last) =
            past_guard
              (has_extra
                (codes "type" ∷ codes "max_chunk_size_tokens" ∷ codes "chunk_overlap_tokens" ∷ [])
                value)
              _ _ typed in
          static-IsStrategy (get (codes "max_chunk_size_tokens") value)
            (get (codes "chunk_overlap_tokens") value) d last
    ]

-- What is within the bounds is accepted as it stands.
static-validate :
    (size overlap : Option ℕ)
    → InSize size
    → InOverlap size overlap
    → validate_chunking_strategy (object (static_fields size overlap))
      ≡ ok (some (static_fields size overlap))
unfolding validate_chunking_strategy
static-validate none none in_size in_overlap = refl
static-validate (some n) none (low, high) in_overlap =
    rw (not_ltb n 100 low, not_ltb 4096 n high) refl
static-validate none (some k) in_size fits = rw (not_ltb 800 (2 * k) fits) refl
static-validate (some n) (some k) (low, high) fits =
    rw (not_ltb n 100 low, not_ltb 4096 n high, not_ltb n (2 * k) fits) refl

-- Checking a chunking strategy again changes nothing: what validate_openai_chunking_strategy answers
-- with, it accepts, and answers with the same.
pub validate-validate_chunking_strategy :
    (value : List (Text × Value)) (d : List (Text × Value))
    → validate_chunking_strategy (object value) ≡ ok (some d)
    → validate_chunking_strategy (object d) ≡ ok (some d)
unfolding validate_chunking_strategy
validate-validate_chunking_strategy value d is =
    elim (validate_chunking_strategy-IsStrategy value d is) [
      | inl auto ↦ rw auto refl
      | inr (size, overlap, same, in_size, in_overlap) ↦
          rw same (static-validate size overlap in_size in_overlap)
    ]
