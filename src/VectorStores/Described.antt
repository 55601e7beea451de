-- ===== src/VectorStores/Described.antt =====
-- What a vector store was created with, it is found with.
use mathlib.Core.Option
use exais_vector_store.VectorStores.Policy.{Casts, overflows}
use exais_vector_store.Prelude.{
  ◌≡◌, refl, ap, ◌∙◌, subst, inl, inr, true, false, List, [], ◌∷◌, ◌++◌, Option, none, some, All,
  arith, if◌then◌else◌, Bool-cases, ℕ, ◌≤◌, ◌+◌,
}
use exais_vector_store.Prelude.Result.{Result, ok, err, both_ok, ok-inj, past_guard}
use exais_vector_store.Prelude.Text.{Text, text_eq, text_eq_refl, text_eq_sound}
use exais_vector_store.Auth.Keys.Rows.{Principal, first_row}
use exais_vector_store.Metadata.{
  Patterns, MetadataError, put, string, description_key, chunking_strategy_key,
  validate_openai_metadata,
}
use exais_vector_store.VectorStores.Rows.{VectorStore, Attribute, value, is_store, StoreTables}
use exais_vector_store.VectorStores.Rendered.{
  CreateRequest, put_some, get_attribute, to_attributes, metadata_or, description_attribute,
  strategy_attribute, attributes_from_create_request, vector_store_response_from_row, text_of,
  epoch,
}
use exais_vector_store.VectorStores.{
  as_store_error, new_store, create, Casts, get, get_response, vector_store_response_from_row,
  create_response, Response, StoreTables, whole_seconds, date_overflow,
}

get_attribute-put :
    (key : Text) (a : Attribute) (entries : List (Text × Attribute))
    → get_attribute key (put key a entries) ≡ some a
unfolding put
get_attribute-put key a [] = rw (text_eq_refl key, if◌then◌else◌) refl
get_attribute-put key a ((k, v) ∷ entries) = elim (Bool-cases (text_eq k key)) [
  | inl same ↦ rw (same, if◌then◌else◌) (rw (same, if◌then◌else◌) refl)
  | inr other ↦
      rw (other, if◌then◌else◌) (rw (other, if◌then◌else◌) (get_attribute-put key a entries))
]

-- the description stands under its own key
get_attribute-put_strategy :
    (a : Attribute) (entries : List (Text × Attribute))
    → get_attribute description_key (put chunking_strategy_key a entries)
      ≡ get_attribute description_key entries
unfolding put
get_attribute-put_strategy a [] = refl
get_attribute-put_strategy a ((k, v) ∷ entries) =
    elim (Bool-cases (text_eq k chunking_strategy_key)) [
      | inl same ↦
          rw (same, if◌then◌else◌)
            (let key : k ≡ chunking_strategy_key = text_eq_sound k chunking_strategy_key same in
              rw key refl)
      | inr other ↦
          rw (other, if◌then◌else◌)
            (ap (λ rest. if text_eq k description_key then some v else rest)
              (get_attribute-put_strategy a entries))
    ]

get_attribute-put_some :
    (strategy : Option Attribute) (entries : List (Text × Attribute))
    → get_attribute description_key (put_some chunking_strategy_key strategy entries)
      ≡ get_attribute description_key entries
unfolding put_some
get_attribute-put_some none entries = refl
get_attribute-put_some (some a) entries = get_attribute-put_strategy a entries

-- the description that a request gives is among the attributes
described :
    (patterns : Patterns) (req : CreateRequest) (t : Text) (attrs : List (Text × Attribute))
    → req.description ≡ some t
    → attributes_from_create_request patterns req ≡ ok attrs
    → get_attribute description_key attrs ≡ some (value (string t))
unfolding attributes_from_create_request put_some
described patterns req t attrs given is =
    let (entries, _, last) =
      both_ok
        (λ entries. ok (
          put_some chunking_strategy_key (strategy_attribute req.chunking_strategy) (
            put_some description_key (description_attribute req.description)
              (to_attributes entries))))
        (validate_openai_metadata patterns (metadata_or req.metadata req.attributes)) is in
    let put_there : get_attribute description_key
          (put_some description_key (description_attribute req.description) (to_attributes entries))
        ≡ some (value (string t)) =
      rw given (get_attribute-put description_key (value (string t)) (to_attributes entries)) in
    subst (λ d. get_attribute description_key d ≡ some (value (string t))) (ok-inj last)
      (get_attribute-put_some (strategy_attribute req.chunking_strategy)
          (put_some description_key (description_attribute req.description) (to_attributes entries))
        ∙ put_there)

as_store_error-ok :
    {A : Type 0} (r : Result MetadataError A) (a : A) → as_store_error r ≡ ok a → r ≡ ok a
as_store_error-ok (ok b) a is = cc
as_store_error-ok (err e) a is = cc

-- the row behind others that have another id
first_row-new :
    (p : Principal) (id : Text) (stores : List VectorStore) (new : VectorStore)
    → All (λ s. text_eq s.id id ≡ false) stores
    → is_store p id new ≡ true
    → first_row (is_store p id) (stores ++ new ∷ []) ≡ some new
first_row-new p id [] new fresh is = rw (is, if◌then◌else◌) refl
first_row-new p id (s ∷ stores) new (first, rest) is =
    let other : is_store p id s ≡ false = ground (arith, first) in
    rw (other, if◌then◌else◌) (first_row-new p id stores new rest is)

-- the new row is one of the caller's
new_store-is_store :
    (casts : Casts) (now : ℕ) (p : Principal) (vs_id biz : Text) (attrs : List (Text × Attribute))
    (req : CreateRequest)
    → p.business_instance_id ≡ some biz
    → is_store p vs_id (new_store casts now p vs_id attrs req) ≡ true
unfolding new_store
new_store-is_store casts now p vs_id biz attrs req has =
    let same_id = text_eq_refl vs_id in
    let same_tenant = text_eq_refl p.tenant_id in
    let same_biz = text_eq_refl biz in rw has (ground (arith, same_id, same_tenant, same_biz))

-- the seconds that are read later are those of the answer, or one more
abbrev pub AreWithinSecond : Option ℕ → Option ℕ → Type 0
AreWithinSecond none none = Unit
AreWithinSecond none (some b) = ⊥
AreWithinSecond (some a) none = ⊥
AreWithinSecond (some a) (some b) = (b ≤ a) × (a ≤ b + 1)

rendered_expiry : (t : Option ℕ) → AreWithinSecond (Option.map epoch t) (Option.map whole_seconds t)
rendered_expiry none = tt
rendered_expiry (some t) = (omega arith, omega arith)

-- A vector store that a caller with an instance creates under a new id and with a description is found
-- by that id, with that description, with the name and the metadata of the answer to its creation, and
-- with an expiry where that answer has one, in seconds the same or one more.
pub get-create :
    (patterns : Patterns) (casts : Casts) (now : ℕ) (p : Principal) (vs_id biz d : Text)
    (req : CreateRequest) (response : Response) (t t2 : StoreTables)
    → All (λ s. text_eq s.id vs_id ≡ false) t.stores
    → p.business_instance_id ≡ some biz
    → req.description ≡ some d
    → create patterns casts now p vs_id req t ≡ ok (response, t2)
    → (r : Response) × (get p vs_id t2 ≡ some r)
      × (r.description ≡ some d)
      × (r.name ≡ response.name)
      × (r.metadata ≡ response.metadata)
      × AreWithinSecond r.expires_at response.expires_at
unfolding create get get_response vector_store_response_from_row create_response new_store
get-create patterns casts now p vs_id biz d req response t t2 fresh has given is =
    let (attrs, checked, last) =
      both_ok
        (λ attrs.
          let s = new_store casts now p vs_id attrs req in
          if overflows casts req.expires_after now
          then err date_overflow
          else ok (create_response s req, record t { stores = t.stores ++ s ∷ [] }))
        (as_store_error (attributes_from_create_request patterns req)) is in
    let (_, done) = past_guard (overflows casts req.expires_after now) _ _ last in
    let new : VectorStore = new_store casts now p vs_id attrs req in
    let after : StoreTables = record t { stores = t.stores ++ new ∷ [] } in
    let kept =
      described patterns req d attrs given
        (as_store_error-ok (attributes_from_create_request patterns req) attrs checked) in
    let found =
      first_row-new p vs_id t.stores new fresh
        (new_store-is_store casts now p vs_id biz attrs req has) in
    subst
      (λ (q : Response × StoreTables).
        (r : Response) × (get p vs_id q.1 ≡ some r)
        × (r.description ≡ some d)
        × (r.name ≡ q.0.name)
        × (r.metadata ≡ q.0.metadata)
        × AreWithinSecond r.expires_at q.0.expires_at)
      (ok-inj done)
      (
        vector_store_response_from_row t.files new,
        ap (get_response after) found,
        ap text_of kept,
        refl,
        refl,
        rendered_expiry new.expires_at,
      )
