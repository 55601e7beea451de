-- ===== src/Embedding/Send/Order.antt =====
-- Which vectors `embed_in_order` returns, and what it may raise.
use mathlib.Core.WellFounded.{Acc}
use mathlib.Core.Logic.{dif_pos, dif_neg}
use mathlib.Core.List.{map-append}
use mathlib.Core.Path.{ap₂}
use native.Mathlib.Bridge.{le_prop}
use exais_vector_store.Prelude.{
  ap, ◌∙◌, ==_iff, if◌then◌else◌, ◌==◌, slice, length-map, subst, concat, All, ◌/◌, ◌<◌, ◌≡◌, ◌⊎◌,
  inl, inr, refl, sym, ◌∙◌, List, [], ◌∷◌, ◌++◌, map, arith, dec_lt, length, take, drop,
  length-take, length-drop, take-append-drop, subst, true,
}
use exais_vector_store.Prelude.Order.{IsShorter}
use exais_vector_store.Prelude.Result.{Result}
use exais_vector_store.Prelude.Exec.{Exec, pure, Ensures, Ensures-mono, Ensures-resume, ◌>>=◌}
use exais_vector_store.Embedding.Plan.{Text, Span, plan_embedding_batches}
use exais_vector_store.Embedding.Plan.Partition.{cut, concat-plan}
use exais_vector_store.Embedding.Plan.Budget.{plan_filled}
use exais_vector_store.Embedding.Slots.{single_rejected}
use exais_vector_store.Embedding.Send.{
  Reply, vectors, too_large, raised, Failure, batch, other, reject_single, bisect, handle_reply,
  send_from, half_take, half_drop, pure, send_span, send_spans, embed_in_order,
  send_embedding_batch, ℕ, IsShorter-acc, Option,
}

pub Reply-cases :
    {V E : Type 0} (r : Reply V E)
    → ((vs : List V) × (r ≡ vectors vs)) ⊎ (r ≡ too_large) ⊎ ((e : E) × (r ≡ raised e))
Reply-cases (vectors vs) = inl (vs, refl)
Reply-cases too_large = inr (inl refl)
Reply-cases (raised e) = inr (inr (e, refl))

-- `text` is one of `texts`
abbrev pub IsIn : Text → List Text → Type 0
IsIn text [] = ⊥
IsIn text (t ∷ texts) = (text ≡ t) ⊎ IsIn text texts

IsIn-append_left : (text : Text) (xs ys : List Text) → IsIn text xs → IsIn text (xs ++ ys)
IsIn-append_left text [] ys h = absurd h
IsIn-append_left text (x ∷ xs) ys (inl e) = inl e
IsIn-append_left text (x ∷ xs) ys (inr h) = inr (IsIn-append_left text xs ys h)

IsIn-append_right : (text : Text) (xs ys : List Text) → IsIn text ys → IsIn text (xs ++ ys)
IsIn-append_right text [] ys h = h
IsIn-append_right text (x ∷ xs) ys h = inr (IsIn-append_right text xs ys h)

module _ {S V E : Type 0} (send : List Text → S → Reply V E × S) (f : Text → V) where
  -- Whenever the endpoint returns vectors, they are those of the batch, in its order.
  pub record Answers : Type 0 where
    pub at :
        (texts : List Text) (s : S) (vs : List V) → (send texts s).0 ≡ vectors vs → vs ≡ map f texts

  -- What may be raised for `texts`: what `send` raised, or that the endpoint rejected one of the
  -- texts that was sent alone.
  abbrev pub Known : List Text → Failure E → Type 0
  Known texts (batch (single_rejected n)) =
      (text : Text) × (s : S) × IsIn text texts
      × (n ≡ length text)
      × ((send (text ∷ []) s).0 ≡ too_large)
  Known texts (batch e) = ⊥
  Known texts (other e) = (sent : List Text) × (s : S) × ((send sent s).0 ≡ raised e)

  abbrev pub Meets : List Text → Result (Failure E) (List V) → Type 0
  Meets texts = Ensures (λ vs. vs ≡ map f texts) (Known texts)

  Known-weaken :
      (texts texts' : List Text) (e : Failure E)
      → ((text : Text) → IsIn text texts → IsIn text texts')
      → Known texts e
      → Known texts' e
  Known-weaken texts texts' (batch (single_rejected n)) within (text, s, h, e, r) =
      (text, s, within text h, e, r)
  Known-weaken texts texts' (other e) within k = k
  Known-weaken texts texts' (batch e) within k = absurd k

  -- two parts of a batch, sent one after the other
  parts-Meet :
      (head tail : Exec S (Failure E) (List V)) (xs ys : List Text) (s : S)
      → ((s : S) → Meets xs (head s).0)
      → ((s : S) → Meets ys (tail s).0)
      → Meets (xs ++ ys) ((do vs ← head; ws ← tail; pure (vs ++ ws)) s).0
  parts-Meet head tail xs ys s hx hy =
      Ensures-resume (λ vs. vs ≡ map f xs) (λ vs. vs ≡ map f (xs ++ ys)) (Known (xs ++ ys))
        (head s).0 _ _
        (Ensures-mono (head s).0 (λ vs h. h)
          (λ e. Known-weaken xs (xs ++ ys) e (λ t. IsIn-append_left t xs ys)) (hx s))
        λ vs s' hv.
          Ensures-resume (λ ws. ws ≡ map f ys) (λ ws. ws ≡ map f (xs ++ ys)) (Known (xs ++ ys))
            (tail s').0 _ _
            (Ensures-mono (tail s').0 (λ ws h. h)
              (λ e. Known-weaken ys (xs ++ ys) e (λ t. IsIn-append_right t xs ys)) (hy s'))
            λ ws s'' hw. ap₂ ◌++◌ hv hw ∙ sym (map-append f xs ys)

  reject-Meets :
      (texts : List Text) (s s' : S)
      → 0 < length texts
      → ¬ (1 < length texts)
      → (send texts s).0 ≡ too_large
      → Meets texts (reject_single texts s').0
  unfolding reject_single
  reject-Meets [] s s' filled single large = absurd (omega arith)
  reject-Meets (text ∷ []) s s' filled single large = (text, s, inl refl, refl, large)
  reject-Meets (text ∷ text' ∷ texts) s s' filled single large = absurd (single (omega arith))

  bisect-Meets :
      (texts : List Text)
      (send_half : (half : List Text) → IsShorter half texts → Exec S (Failure E) (List V))
      (s s' : S)
      → 0 < length texts
      → ((half : List Text) (h : IsShorter half texts) (s : S)
          → 0 < length half
          → Meets half (send_half half h s).0)
      → (send texts s).0 ≡ too_large
      → Meets texts (bisect texts send_half s').0
  unfolding bisect
  bisect-Meets texts send_half s s' filled ih large = elim (dec_lt 1 (length texts)) [
    | yes p ↦
        let n = length texts / 2 in
        let head = send_half (take n texts) (half_take texts p) in
        let tail = send_half (drop n texts) (half_drop texts p) in
        rw (dif_pos (dec_lt 1 (length texts)) le_prop p) (
          subst (λ ts. Meets ts ((do vs ← head; ws ← tail; pure (vs ++ ws)) s').0)
            (take-append-drop n texts)
            (parts-Meet head tail (take n texts) (drop n texts) s'
              (λ s. ih (take n texts) (half_take texts p) s (omega (arith, length-take n texts)))
              (λ s. ih (drop n texts) (half_drop texts p) s (omega (arith, length-drop n texts)))))
    | no p ↦ rw (dif_neg (dec_lt 1 (length texts)) p) (reject-Meets texts s s' filled p large)
  ]

  send_from-Meets :
      (texts : List Text) (w : Acc IsShorter texts) (s : S)
      → Answers
      → 0 < length texts
      → Meets texts (send_from send texts w s).0
  unfolding send_from
  send_from-Meets texts (Acc.intro _ smaller) s a filled = elim (Reply-cases (send texts s).0) [
    | inl (vs, h) ↦ rw (h, handle_reply) (a.at texts s vs h)
    | inr (inl h) ↦
        rw (h, handle_reply)
          (bisect-Meets texts (λ half less. send_from send half (smaller half less)) s
            (send texts s).1 filled (λ half less s'. send_from-Meets half (smaller half less) s' a)
            h)
    | inr (inr (e, h)) ↦ rw (h, handle_reply) (texts, s, h)
  ]

  send_span-Meets :
      (texts : List Text) (span : Span) (s : S)
      → Answers
      → 0 < length (cut texts span)
      → Meets (cut texts span) (send_span send texts span s).0
  unfolding send_span send_embedding_batch
  send_span-Meets texts (start, end) s a filled =
      let batch = slice start end texts in
      Ensures-resume (λ vs. vs ≡ map f batch) (λ vs. vs ≡ map f batch) (Known batch)
        (send_embedding_batch send batch s).0 _ _
        (send_from-Meets batch (IsShorter-acc batch) s a filled)
        λ vs s' hv.
          let same : (length vs == length batch) ≡ true =
            (==_iff (length vs) (length batch)).1 (ap length hv ∙ length-map f batch) in
          rw (same, if◌then◌else◌) hv

  send_spans-Meets :
      (texts : List Text) (spans : List Span) (s : S)
      → Answers
      → All (λ batch. 0 < length batch) (map (cut texts) spans)
      → Meets (concat (map (cut texts) spans)) (send_spans send texts spans s).0
  unfolding send_spans
  send_spans-Meets texts [] s a filled = refl
  send_spans-Meets texts (span ∷ spans) s a (h, filled) =
      parts-Meet (send_span send texts span) (send_spans send texts spans) (cut texts span)
        (concat (map (cut texts) spans)) s (λ s'. send_span-Meets texts span s' a h)
        (λ s'. send_spans-Meets texts spans s' a filled)

  -- If the endpoint answers each batch in order, then what `embed_in_order` returns is one vector
  -- for each text, in the order of the texts; and what it raises was raised by `send`, or says that
  -- the endpoint rejected one of the texts alone. Its own two checks on lengths never raise.
  pub embed_in_order_outcome :
      (texts : List Text) (token_budget : ℕ) (max_inputs : Option ℕ) (s : S)
      → Answers
      → Meets texts (embed_in_order send texts token_budget max_inputs s).0
  unfolding embed_in_order
  embed_in_order_outcome texts token_budget max_inputs s a =
      let spans = plan_embedding_batches texts token_budget max_inputs in
      Ensures-resume (λ vs. vs ≡ map f texts) (λ vs. vs ≡ map f texts) (Known texts)
        (send_spans send texts spans s).0 _ _
        (subst (λ ts. Meets ts (send_spans send texts spans s).0)
          (concat-plan texts token_budget max_inputs)
          (send_spans-Meets texts spans s a (plan_filled texts token_budget max_inputs)))
        λ vs s' hv.
          let same : (length vs == length texts) ≡ true =
            (==_iff (length vs) (length texts)).1 (ap length hv ∙ length-map f texts) in
          rw (same, if◌then◌else◌) hv
