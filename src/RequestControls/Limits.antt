-- ===== src/RequestControls/Limits.antt =====
-- How many calls a window lets pass.
use exais_vector_store.Prelude.{
  dec_lt, ◌<◌, ℕ, ◌≡◌, ◌≤◌, refl, sym, ap, ◌∙◌, inl, inr, true, false, List, [], ◌∷◌, ◌+◌, ◌-◌,
  arith, ltb, if◌then◌else◌, Bool-cases, All,
}
use exais_vector_store.Prelude.Result.{Result, ok, err}
use exais_vector_store.Prelude.Text.{Text, text_eq, text_eq_sound, text_eq_refl}
use exais_vector_store.RequestControls.{
  Caller, Window, same_window, Counters, count_of, bump, LimitError, enforce_for_subject,
}

same_window_refl : (w : Window) → same_window w w ≡ true
same_window_refl w = ground (
  arith,
  text_eq_refl w.tenant_id,
  text_eq_refl w.business_instance_id,
  text_eq_refl w.subject_id,
  text_eq_refl w.bucket,
)

same_window_left : (u v w : Window) → same_window u v ≡ true → same_window u w ≡ same_window v w
same_window_left u v w e =
    let a : text_eq u.tenant_id v.tenant_id ≡ true = ground arith in
    let b : text_eq u.business_instance_id v.business_instance_id ≡ true = ground arith in
    let c : text_eq u.subject_id v.subject_id ≡ true = ground arith in
    let d : text_eq u.bucket v.bucket ≡ true = ground arith in
    let t : u.window_start ≡ v.window_start = ground arith in
    rw
      (
        text_eq_sound u.tenant_id v.tenant_id a,
        text_eq_sound u.business_instance_id v.business_instance_id b,
        text_eq_sound u.subject_id v.subject_id c,
        text_eq_sound u.bucket v.bucket d,
        t,
      )
      refl

same_window_right : (u v w : Window) → same_window u v ≡ true → same_window w u ≡ same_window w v
same_window_right u v w e =
    let a : text_eq u.tenant_id v.tenant_id ≡ true = ground arith in
    let b : text_eq u.business_instance_id v.business_instance_id ≡ true = ground arith in
    let c : text_eq u.subject_id v.subject_id ≡ true = ground arith in
    let d : text_eq u.bucket v.bucket ≡ true = ground arith in
    let t : u.window_start ≡ v.window_start = ground arith in
    rw
      (
        text_eq_sound u.tenant_id v.tenant_id a,
        text_eq_sound u.business_instance_id v.business_instance_id b,
        text_eq_sound u.subject_id v.subject_id c,
        text_eq_sound u.bucket v.bucket d,
        t,
      )
      refl

count_of-same_window :
    (u w : Window) (counters : Counters)
    → same_window u w ≡ true
    → count_of u counters ≡ count_of w counters
unfolding count_of
count_of-same_window u w [] same = refl
count_of-same_window u w ((v, n) ∷ counters) same =
    rw (same_window_right u w v same, count_of-same_window u w counters same) refl

count_of-bump :
    (w : Window) (counters : Counters) → count_of w (bump w counters) ≡ count_of w counters + 1
unfolding count_of bump
count_of-bump w [] = rw (same_window_refl w, if◌then◌else◌) (omega arith)
count_of-bump w ((v, n) ∷ counters) = elim (Bool-cases (same_window v w)) [
  | inl same ↦ rw (same, if◌then◌else◌, same) refl
  | inr other ↦ rw (other, if◌then◌else◌, other) (count_of-bump w counters)
]

count_of-bump_other :
    (u w : Window) (counters : Counters)
    → same_window u w ≡ false
    → count_of w (bump u counters) ≡ count_of w counters
unfolding count_of bump
count_of-bump_other u w [] other = rw (other, if◌then◌else◌) refl
count_of-bump_other u w ((v, n) ∷ counters) other = elim (Bool-cases (same_window v u)) [
  | inl same ↦
      let apart : same_window v w ≡ false = same_window_left v u w same ∙ other in
      rw (same, if◌then◌else◌, apart) refl
  | inr apart ↦ elim (Bool-cases (same_window v w)) [
    | inl here ↦ rw (apart, if◌then◌else◌, here) refl
    | inr elsewhere ↦ rw (apart, if◌then◌else◌, elsewhere) (count_of-bump_other u w counters other)
  ]
]

-- the arguments of a call
pub record Call : Type 0 where
  pub caller : Caller
  pub subject : Text
  pub bucket : Text
  pub limit : ℕ
  pub minute : ℕ

abbrev pub window_of : Call → Window
window_of c = record {
  tenant_id = c.caller.tenant_id;
  business_instance_id = c.caller.business_instance_id;
  subject_id = c.subject;
  bucket = c.bucket;
  window_start = c.minute;
}

abbrev pub run_call : Call → Counters → Result LimitError (Unit {0}) × Counters
run_call c counters = enforce_for_subject c.caller c.subject c.bucket c.limit c.minute counters

abbrev pub counts_in : Window → Call → Result LimitError (Unit {0}) → ℕ
counts_in w c (ok u) = if same_window (window_of c) w then 1 else 0
counts_in w c (err e) = 0

-- how many calls of the window `w` pass, in a run with calls of any windows
abbrev pub passed : Window → List Call → Counters → ℕ
passed w [] counters = 0
passed w (c ∷ calls) counters =
    counts_in w c (run_call c counters).0 + passed w calls (run_call c counters).1

counts_in_other :
    (w : Window) (c : Call) (r : Result LimitError (Unit {0}))
    → same_window (window_of c) w ≡ false
    → counts_in w c r ≡ 0
counts_in_other w c (ok u) other = rw (other, if◌then◌else◌) refl
counts_in_other w c (err e) other = refl

counts_in_le : (w : Window) (c : Call) (r : Result LimitError (Unit {0})) → counts_in w c r ≤ 1
counts_in_le w c (ok u) = ground arith
counts_in_le w c (err e) = omega arith

-- a call that passes was within its limit
counts_in-run_call :
    (w : Window) (c : Call) (counters : Counters)
    → c.limit < count_of (window_of c) (bump (window_of c) counters)
    → counts_in w c (run_call c counters).0 ≡ 0
unfolding enforce_for_subject
counts_in-run_call w c counters over =
    let refused : ltb c.limit (count_of (window_of c) (bump (window_of c) counters)) ≡ true =
      ground arith in
    rw (refused, if◌then◌else◌) refl

-- Of the calls of one window, however they interleave with others, no more pass than the limit that
-- they are held to, less what the window has counted before.
pub passed-enforce :
    (w : Window) (limit : ℕ) (calls : List Call) (counters : Counters)
    → All (λ c. same_window (window_of c) w ≡ true → c.limit ≤ limit) calls
    → passed w calls counters ≤ limit - count_of w counters
unfolding enforce_for_subject
passed-enforce w limit [] counters bounded = omega arith
passed-enforce w limit (c ∷ calls) counters (bound, bounded) =
    let rest = passed-enforce w limit calls (bump (window_of c) counters) bounded in
    elim (Bool-cases (same_window (window_of c) w)) [
      | inl mine ↦
          let before = count_of w counters in
          let after = count_of (window_of c) (bump (window_of c) counters) in
          let grown : count_of w (bump (window_of c) counters) ≡ before + 1 =
            sym (count_of-same_window (window_of c) w (bump (window_of c) counters) mine)
            ∙ count_of-bump (window_of c) counters
            ∙ ap (λ n. n + 1) (count_of-same_window (window_of c) w counters mine) in
          let same = count_of-same_window (window_of c) w (bump (window_of c) counters) mine in
          let within = bound mine in
          let one = counts_in_le w c (run_call c counters).0 in
          elim (dec_lt c.limit after) [
            | yes over ↦ let none_here = counts_in-run_call w c counters over in omega arith
            | no fits ↦ omega arith
          ]
      | inr other ↦
          let here = counts_in_other w c (run_call c counters).0 other in
          let same = count_of-bump_other (window_of c) w counters other in omega arith
    ]
