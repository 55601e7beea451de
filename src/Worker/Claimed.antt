-- ===== src/Worker/Claimed.antt =====
-- What the worker claims from the queue: the row in front, and none when there is none.
use exais_vector_store.Prelude.{
  ◌≡◌, refl, ap, inl, inr, true, false, not, ◌&&◌, List, [], ◌∷◌, ◌++◌, Option, none, some, arith,
  if◌then◌else◌, Bool-cases, All, ◌<◌, All-mono, ◌⊎◌, true-ne_false, ◌≤◌, sym, ◌∙◌,
}
use exais_vector_store.Prelude.{
  ◌≡◌, true, false, arith, List, All, Option, ◌∷◌, ◌++◌, some, Bool-cases, inl, if◌then◌else◌, inr,
  ◌&&◌, not,
}
use exais_vector_store.Worker.{Job, sooner, eligible, choose, claim, queued, JobStatus, is_queued}

-- not an eligible row in front of `j`
abbrev pub IsLater : Job → Job → Type 0
IsLater j k = eligible k && sooner k j ≡ false

-- what was claimed: the list around the row, which is eligible and which no eligible row precedes
abbrev pub IsFirst : List Job → List Job × Job × List Job → Type 0
IsFirst jobs (before, j, after) =
    (before ++ j ∷ after ≡ jobs) × (eligible j ≡ true) × All (IsLater j) jobs

IsLater-trans :
    (j k : Job) (jobs : List Job) → sooner k j ≡ false → All (IsLater k) jobs → All (IsLater j) jobs
IsLater-trans j k [] kj rest = tt
IsLater-trans j k (m ∷ jobs) kj (first, rest) =
    (ground (arith, first, kj), IsLater-trans j k jobs kj rest)

none_IsLater :
    (j : Job) (jobs : List Job) → All (λ k. eligible k ≡ false) jobs → All (IsLater j) jobs
none_IsLater j [] rest = tt
none_IsLater j (m ∷ jobs) (first, rest) = (ground (arith, first), none_IsLater j jobs rest)

-- what `claim` promises of a result
abbrev pub IsClaim : List Job → Option (List Job × Job × List Job) → Type 0
IsClaim jobs none = All (λ k. eligible k ≡ false) jobs
IsClaim jobs (some found) = IsFirst jobs found

choose-IsClaim :
    (j : Job) (jobs : List Job) (found : Option (List Job × Job × List Job))
    → IsClaim jobs found
    → IsClaim (j ∷ jobs) (choose j jobs found)
unfolding choose
choose-IsClaim j jobs none rest = elim (Bool-cases (eligible j)) [
  | inl fits ↦ rw (fits, if◌then◌else◌) (refl, fits, (ground arith, none_IsLater j jobs rest))
  | inr unfit ↦ rw (unfit, if◌then◌else◌) (unfit, rest)
]
choose-IsClaim j jobs (some (before, k, after)) (is, fits_k, rest) =
    elim (Bool-cases (eligible j && not (sooner k j))) [
      | inl first ↦
          rw (first, if◌then◌else◌)
            (
              refl,
              ground (arith, first),
              (ground arith, IsLater-trans j k jobs (ground (arith, first)) rest),
            )
      | inr later ↦
          rw (later, if◌then◌else◌) (ap (◌∷◌ j) is, fits_k, (ground (arith, fits_k, later), rest))
    ]

-- the row in front of the queue
pub claim-IsClaim : (jobs : List Job) → IsClaim jobs (claim jobs)
unfolding claim
claim-IsClaim [] = tt
claim-IsClaim (j ∷ jobs) = choose-IsClaim j jobs (claim jobs) (claim-IsClaim jobs)

-- A row that may be claimed is queued and has an attempt left.
abbrev pub IsWaiting : Job → Type 0
IsWaiting j = (j.status ≡ queued) × (j.attempts < j.max_attempts)

-- a lower priority number comes first, and of equal ones the older row
abbrev pub ComesBy : Job → Job → Type 0
ComesBy j k =
    (j.priority < k.priority) ⊎ ((j.priority ≡ k.priority) × (j.created_at ≤ k.created_at))

-- the row that is next: it waits, its list is left as it is around it, and every other row that waits
-- comes after it
abbrev pub IsNext : List Job → Option (List Job × Job × List Job) → Type 0
IsNext jobs none = All (λ k. IsWaiting k → ⊥) jobs
IsNext jobs (some (before, j, after)) =
    (before ++ j ∷ after ≡ jobs) × IsWaiting j × All (λ k. IsWaiting k → ComesBy j k) jobs

is_queued-queued : (status : JobStatus) → is_queued status ≡ true → status ≡ queued
is_queued-queued status is = ground (arith, is)

eligible-IsWaiting : (j : Job) → eligible j ≡ true → IsWaiting j
eligible-IsWaiting j fits = (is_queued-queued j.status (ground (arith, fits)), ground (arith, fits))

waiting_eligible : (j : Job) → IsWaiting j → eligible j ≡ true
waiting_eligible j (status, left) = ground (arith, status, left)

later-ComesBy : (j k : Job) → IsLater j k → IsWaiting k → ComesBy j k
later-ComesBy j k later waits =
    let fits = waiting_eligible k waits in
    let not_sooner : sooner k j ≡ false = ground (arith, later, fits) in ground (arith, not_sooner)

claimed-IsNext :
    (jobs : List Job) (found : Option (List Job × Job × List Job))
    → IsClaim jobs found
    → IsNext jobs found
claimed-IsNext jobs none idle =
    All-mono _ _ (λ k unfit waits. true-ne_false (sym (waiting_eligible k waits) ∙ unfit)) jobs idle
claimed-IsNext jobs (some (before, j, after)) (whole, fits, later) =
    (whole, eligible-IsWaiting j fits, All-mono _ _ (later-ComesBy j) jobs later)

-- The worker claims a queued row with an attempt left, and every such row has a higher priority number
-- or the same and is no older; the other rows stay as they are, and it claims none only when no row is
-- queued with an attempt left.
pub claim-IsNext : (jobs : List Job) → IsNext jobs (claim jobs)
claim-IsNext jobs = claimed-IsNext jobs (claim jobs) (claim-IsClaim jobs)
