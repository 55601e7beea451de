-- ===== src/Embedding/Send/Total.antt =====
-- With an endpoint that takes every text alone, `embed_in_order` returns; and how many requests it
-- makes.
use mathlib.Core.WellFounded.{Acc}
use mathlib.Core.Logic.{dif_pos, dif_neg}
use native.Mathlib.Bridge.{le_prop}
use exais_vector_store.Prelude.{
  ℕ, ◌+◌, ◌*◌, ◌-◌, ◌/◌, ◌≤◌, ◌<◌, ◌≡◌, ◌≢◌, inl, inr, refl, ap, List, [], ◌∷◌, map, Option, arith,
  dec_lt, length, take, drop, slice, length-take, length-drop, concat, All, length-append,
}
use exais_vector_store.Prelude.Order.{IsShorter, IsShorter-acc}
use exais_vector_store.Prelude.Result.{Result, ok, err}
use exais_vector_store.Prelude.Exec.{Exec, cost-resume}
use exais_vector_store.Embedding.Plan.{Text, Span, plan_embedding_batches}
use exais_vector_store.Embedding.Plan.Partition.{cut, concat-plan}
use exais_vector_store.Embedding.Plan.Budget.{plan_filled}
use exais_vector_store.Embedding.Slots.{single_rejected}
use exais_vector_store.Embedding.Send.{
  Reply, too_large, raised, Failure, batch, other, reject_single, bisect, handle_reply, send_from,
  send_embedding_batch, send_span, send_spans, embed_in_order, half_take, half_drop,
}
use exais_vector_store.Embedding.Send.Order.{
  Answers, Known, Meets, Reply-cases, embed_in_order_outcome,
}

module _ {S V E : Type 0} (send : List Text → S → Reply V E × S) where
  -- The endpoint takes every text alone, and nothing else goes wrong.
  pub record Accepts : Type 0 where
    pub alone : (text : Text) (s : S) → (send (text ∷ []) s).0 ≢ too_large
    pub sound : (texts : List Text) (s : S) (e : E) → (send texts s).0 ≢ raised e

  not-Known : (f : Text → V) (texts : List Text) (e : Failure E) → Accepts → ¬ Known send f texts e
  not-Known f texts (batch (single_rejected n)) a (text, s, h, e, r) = a.alone text s r
  not-Known f texts (other e) a (sent, s, h) = a.sound sent s e h
  not-Known f texts (batch e) a h = absurd h

  ok_of_Meets :
      (f : Text → V) (texts : List Text) (r : Result (Failure E) (List V))
      → Accepts
      → Meets send f texts r
      → r ≡ ok (map f texts)
  ok_of_Meets f texts (ok vs) a h = ap ok h
  ok_of_Meets f texts (err e) a h = absurd (not-Known f texts e a h)

  -- An endpoint that answers in order and takes every text alone, whatever larger batches it
  -- rejects for their size: every text is embedded, in order.
  pub embed_in_order_total :
      (f : Text → V) (texts : List Text) (token_budget : ℕ) (max_inputs : Option ℕ) (s : S)
      → Answers send f
      → Accepts
      → (embed_in_order send texts token_budget max_inputs s).0 ≡ ok (map f texts)
  embed_in_order_total f texts token_budget max_inputs s a accepts =
      ok_of_Meets f texts _ accepts
        (embed_in_order_outcome send f texts token_budget max_inputs s a)

module _ {S V E : Type 0} (send : List Text → S → Reply V E × S) (requests : S → ℕ)
    (counted : (texts : List Text) (s : S) → requests (send texts s).1 ≤ requests s + 1) where
  requests-reject :
      (texts : List Text) (s : S) → requests (reject_single {V = V} {E = E} texts s).1 ≡ requests s
  unfolding reject_single
  requests-reject [] s = refl
  requests-reject (text ∷ texts) s = refl

  requests-bisect :
      (texts : List Text)
      (send_half : (half : List Text) → IsShorter half texts → Exec S (Failure E) (List V)) (s : S)
      → ((half : List Text) (h : IsShorter half texts) (s : S)
          → 0 < length half
          → requests (send_half half h s).1 + 1 ≤ requests s + 2 * length half)
      → 0 < length texts
      → requests (bisect texts send_half s).1 + 2 ≤ requests s + 2 * length texts
  unfolding bisect
  requests-bisect texts send_half s ih filled = elim (dec_lt 1 (length texts)) [
    | yes p ↦
        let n = length texts / 2 in
        let one = half_take texts p in
        let two = half_drop texts p in
        let lt = length-take n texts in
        let ld = length-drop n texts in
        let first = ih (take n texts) one s (omega arith) in
        let s' = (send_half (take n texts) one s).1 in
        let second = ih (drop n texts) two s' (omega arith) in
        let bound : requests (bisect texts send_half s).1 ≤ requests s + 2 * length texts - 2 =
          rw (dif_pos (dec_lt 1 (length texts)) le_prop p, bisect)
            (cost-resume requests (send_half (take n texts) one s).0 _ s'
              (requests s + 2 * length texts - 2) (omega arith)
              λ head.
                cost-resume requests (send_half (drop n texts) two s').0 _ _
                  (requests s + 2 * length texts - 2) (omega arith) λ tail. omega arith) in
        omega arith
    | no p ↦ rw (dif_neg (dec_lt 1 (length texts)) p) (omega (arith, requests-reject texts s))
  ]

  requests-send_from :
      (texts : List Text) (w : Acc IsShorter texts) (s : S)
      → 0 < length texts
      → requests (send_from send texts w s).1 + 1 ≤ requests s + 2 * length texts
  unfolding send_from
  requests-send_from texts (Acc.intro _ smaller) s filled =
      let sent = counted texts s in
      elim (Reply-cases (send texts s).0) [
        | inl (vs, h) ↦ rw (h, handle_reply) (omega arith)
        | inr (inl h) ↦
            rw (h, handle_reply)
              (omega (
                arith,
                requests-bisect texts (λ half less. send_from send half (smaller half less))
                    (send texts s).1
                    (λ half less s'. requests-send_from half (smaller half less) s') filled,
              ))
        | inr (inr (e, h)) ↦ rw (h, handle_reply) (omega arith)
      ]

  requests-send_span :
      (texts : List Text) (span : Span) (s : S)
      → 0 < length (cut texts span)
      → requests (send_span send texts span s).1 ≤ requests s + 2 * length (cut texts span)
  unfolding send_span send_embedding_batch
  requests-send_span texts (start, end) s filled =
      let batch = slice start end texts in
      let sent = requests-send_from batch (IsShorter-acc batch) s filled in
      cost-resume requests (send_embedding_batch send batch s).0 _ _ _ (omega arith)
        λ vs. ground arith

  requests-send_spans :
      (texts : List Text) (spans : List Span) (s : S)
      → All (λ batch. 0 < length batch) (map (cut texts) spans)
      → requests (send_spans send texts spans s).1
        ≤ requests s + 2 * length (concat (map (cut texts) spans))
  unfolding send_spans
  requests-send_spans texts [] s filled = omega arith
  requests-send_spans texts (span ∷ spans) s (h, filled) =
      let sent = requests-send_span texts span s h in
      let rest = requests-send_spans texts spans (send_span send texts span s).1 filled in
      let split = length-append (cut texts span) (concat (map (cut texts) spans)) in
      cost-resume requests (send_span send texts span s).0 _ _ _ (omega arith) λ vs.
        cost-resume requests (send_spans send texts spans (send_span send texts span s).1).0 _ _ _
          (omega arith) λ ws. omega arith

  -- However the endpoint answers, `embed_in_order` sends at most two requests for each text: the
  -- bisection of a batch stops.
  pub requests-embed_in_order :
      (texts : List Text) (token_budget : ℕ) (max_inputs : Option ℕ) (s : S)
      → requests (embed_in_order send texts token_budget max_inputs s).1
        ≤ requests s + 2 * length texts
  unfolding embed_in_order
  requests-embed_in_order texts token_budget max_inputs s =
      let spans = plan_embedding_batches texts token_budget max_inputs in
      let sent = requests-send_spans texts spans s (plan_filled texts token_budget max_inputs) in
      let same = ap length (concat-plan texts token_budget max_inputs) in
      cost-resume requests (send_spans send texts spans s).0 _ _ _ (omega arith) λ vs. ground arith
