-- ===== src/Capture/Accepted.antt =====
-- What holds of every event that a capture request is accepted with.
use hoglet.Prelude.{
  ℕ, zero, suc, ◌≤◌, String, ◌≡◌, ◌≢◌, inl, inr, Option, none, some, List, [], ◌∷◌, arith, eq_iff,
  Bool-cases, Option-cases, nat_eq, string_eq, length, All, codes, Result-cases, ok, ok_or, list_eq,
  Result-cases, bind-ok,
}
use hoglet.Prelude.Int.{ℤ, ◌+ℤ◌, ◌≤ℤ◌, +ℤ_parts}
use hoglet.Prelude.Map.{lookup}
use hoglet.Prelude.Text.{as_bytes}
use hoglet.Json.{Value, Object}
use hoglet.Event.{CapturedEvent}
use hoglet.Token as Token
use hoglet.Capture.{
  Library, ParsedBatch, or_else, resolve_token, resolve_distinct_id, resolve_timestamp, take_chars,
  clamped, max_future, offset_of, distinct_id_text, replace_null, text_of, ◌+ℤ◌, clean_distinct_id,
  distinct_id_of, malformed, correct_timestamp, parse_timestamp, corrected, is_set, as_object,
}
use hoglet.Capture.Body.{
  Shape, resolve_event, resolve_events, shape_of, parse_body, assemble, event_name, properties_of,
  is_performance_event,
}

length-take_chars : (n : ℕ) (s : String) → length (codes (take_chars n s)) ≤ n
unfolding take_chars
length-take_chars zero s = omega arith
length-take_chars (suc n) String.[] = omega arith
length-take_chars (suc n) (String.◌∷◌ c s) = omega (arith, length-take_chars n s)

clamped-bound : (lib : Library) (now ts : ℤ) → clamped lib now ts ≤ℤ now +ℤ max_future
unfolding clamped
clamped-bound lib now ts = ground (arith, +ℤ_parts now max_future)

-- A token that `Token.validate` accepts, the batch's own where it has one, a name that is not empty and a
-- distinct id of at most 200 characters.
pub record IsAccepted (batch_token : Option String) (e : CapturedEvent) : Type 0 where
  pub valid : Token.validate (as_bytes (codes e.token)) ≡ ok tt
  pub shared : (token : String) → batch_token ≡ some token → e.token ≡ token
  pub named : e.event ≢ ""
  pub short : length (codes e.distinct_id) ≤ 200

resolve_token-valid :
    (obj properties : Object) (batch_token : Option String) (token : String)
    → resolve_token obj properties batch_token ≡ ok token
    → (Token.validate (as_bytes (codes token)) ≡ ok tt)
      × ((t : String) → batch_token ≡ some t → token ≡ t)
unfolding resolve_token
resolve_token-valid obj properties batch_token token h =
    (ground (arith, h), λ t given. ground (arith, h, given))

clean_distinct_id-short :
    (lib : Library) (s id : String) → clean_distinct_id lib s ≡ ok id → length (codes id) ≤ 200
unfolding clean_distinct_id
clean_distinct_id-short lib s id h =
    let same : take_chars 200 (replace_null s) ≡ id = ground (arith, h) in
    rw (← same) (length-take_chars 200 (replace_null s))

distinct_id_of-short :
    (lib : Library) (raw : Value) (id : String)
    → distinct_id_of lib raw ≡ ok id
    → length (codes id) ≤ 200
unfolding distinct_id_of
distinct_id_of-short lib raw id h =
    let (s, text, rest) = bind-ok (distinct_id_text lib raw) (clean_distinct_id lib) id h in
    clean_distinct_id-short lib s id rest

resolve_distinct_id-short :
    (lib : Library) (obj properties : Object) (id : String)
    → resolve_distinct_id lib obj properties ≡ ok id
    → length (codes id) ≤ 200
unfolding resolve_distinct_id
resolve_distinct_id-short lib obj properties id h =
    let m =
      ok_or
        (or_else (lookup "distinct_id" obj)
          (or_else (lookup "$distinct_id" obj) (lookup "distinct_id" properties)))
        (malformed "missing distinct_id") in
    let (raw, found, rest) = bind-ok m (distinct_id_of lib) id h in
    distinct_id_of-short lib raw id rest

correct_timestamp-bound :
    (lib : Library) (properties : Object) (sent_at : Option ℤ) (now at ts : ℤ)
    → correct_timestamp lib properties sent_at now at ≡ ok ts
    → ts ≤ℤ now +ℤ max_future
unfolding correct_timestamp
correct_timestamp-bound lib properties sent_at now at ts h =
    elim (Option-cases
      (corrected lib sent_at (is_set (lookup "$ignore_sent_at" properties)) now at)) [
        | inl failed ↦ absurd (ground (arith, rw (correct_timestamp, failed) at h))
        | inr (moved, skewed) ↦
            let same : clamped lib now moved ≡ ts =
              ground (arith, rw (correct_timestamp, skewed) at h) in
            rw (← same) (clamped-bound lib now moved)
      ]

-- A timestamp that is not given as an offset is at most 23 hours after `now`.
pub resolve_timestamp-bound :
    (lib : Library) (obj properties : Object) (sent_at : Option ℤ) (now ts : ℤ)
    → offset_of lib obj ≡ none
    → resolve_timestamp lib obj properties sent_at now ≡ ok ts
    → ts ≤ℤ now +ℤ max_future
unfolding resolve_timestamp
resolve_timestamp-bound lib obj properties sent_at now ts no_offset h =
    elim (Option-cases (text_of (lookup "timestamp" obj))) [
      | inl absent ↦
          ground (arith, rw (resolve_timestamp, no_offset, absent) at h, +ℤ_parts now max_future)
      | inr (raw, given) ↦
          let (at, parsed, rest) =
            bind-ok (ok_or (parse_timestamp lib (codes raw)) (malformed "bad timestamp"))
              (correct_timestamp lib properties sent_at now) ts
              (rw (resolve_timestamp, no_offset, given) at h) in
          correct_timestamp-bound lib properties sent_at now at ts rest
    ]

assemble-IsAccepted :
    (lib : Library) (obj properties : Object) (name : String) (batch_token : Option String)
    (sent_at : Option ℤ) (now : ℤ) (e : CapturedEvent)
    → name ≢ ""
    → assemble lib obj properties name batch_token sent_at now ≡ ok e
    → IsAccepted batch_token e
unfolding assemble
assemble-IsAccepted lib obj properties name batch_token sent_at now e nonempty h =
    let tokened : resolve_token obj properties batch_token ≡ ok e.token = ground (arith, h) in
    let identified : resolve_distinct_id lib obj properties ≡ ok e.distinct_id =
      ground (arith, h) in
    let is_name : e.event ≡ name = ground (arith, h) in
    let (valid, shared) = resolve_token-valid obj properties batch_token e.token tokened in
    record {
      valid = valid;
      shared = shared;
      named = rw (is_name) nonempty;
      short = resolve_distinct_id-short lib obj properties e.distinct_id identified;
    }

resolve_event-IsAccepted :
    (lib : Library) (whole : Object) (batch_token : Option String) (sent_at : Option ℤ) (now : ℤ)
    (e : CapturedEvent)
    → resolve_event lib whole batch_token sent_at now ≡ ok e
    → IsAccepted batch_token e
unfolding resolve_event
resolve_event-IsAccepted lib whole batch_token sent_at now e h =
    elim (Result-cases (event_name lib whole)) [
      | inr (_, unnamed) ↦ absurd (ground (arith, rw (resolve_event, unnamed) at h))
      | inl (name, naming) ↦ elim (Result-cases (properties_of lib whole)) [
        | inr (_, wrong) ↦ absurd (ground (arith, rw (resolve_event, naming, wrong) at h))
        | inl (own, owning) ↦
            assemble-IsAccepted lib _ _ name batch_token sent_at now e
              (λ empty. ground (arith, naming, empty, eq_iff name ""))
              (rw (resolve_event, naming, owning) at h)
      ]
    ]

resolve_events-IsAccepted :
    (lib : Library) (raws : List Value) (batch_token : Option String) (sent_at : Option ℤ) (now : ℤ)
    (events : List CapturedEvent)
    → resolve_events lib raws batch_token sent_at now ≡ ok events
    → All (IsAccepted batch_token) events
unfolding resolve_events
resolve_events-IsAccepted lib [] bt sent_at now [] h = tt
resolve_events-IsAccepted lib [] bt sent_at now (e ∷ es) h = absurd (ground (arith, h))
resolve_events-IsAccepted lib (raw ∷ raws) bt sent_at now events h =
    elim (Option-cases (as_object raw)) [
      | inl wrong ↦ absurd (ground (arith, rw (resolve_events, wrong) at h))
      | inr (obj, shaped) ↦ elim (Bool-cases (is_performance_event lib obj)) [
        | inl dropped ↦
            resolve_events-IsAccepted lib raws bt sent_at now events
              (rw (resolve_events, shaped, dropped) at h)
        | inr kept ↦ elim (Result-cases (resolve_event lib obj bt sent_at now)) [
          | inr (_, refused) ↦
              absurd (ground (arith, rw (resolve_events, shaped, kept, refused) at h))
          | inl (e, resolved) ↦ elim (Result-cases (resolve_events lib raws bt sent_at now)) [
            | inr (_, refused) ↦
                absurd (ground (arith, rw (resolve_events, shaped, kept, resolved, refused) at h))
            | inl (es, others) ↦
                let same : e ∷ es ≡ events =
                  ground (arith, rw (resolve_events, shaped, kept, resolved, others) at h) in
                rw (← same) (
                  resolve_event-IsAccepted lib obj bt sent_at now e resolved,
                  resolve_events-IsAccepted lib raws bt sent_at now es others,
                )
          ]
        ]
      ]
    ]

-- Every event of an accepted body has a token that `token::validate` accepts (the batch's own, if the body
-- is a batch with a token), a name that is not empty and a distinct id of at most 200 characters.
pub parse_body-IsAccepted :
    (lib : Library) (body : String) (sent_at : Option ℤ) (now : ℤ) (value : Value)
    (shape : Shape lib) (batch : ParsedBatch)
    → lib.parse_json body ≡ some value
    → shape_of lib sent_at value ≡ ok shape
    → parse_body lib body sent_at now ≡ ok batch
    → All (IsAccepted shape.batch_token) batch.events
unfolding parse_body
parse_body-IsAccepted lib body sent_at now value shape batch json shaped h =
    elim (Result-cases (resolve_events lib shape.raw_events shape.batch_token shape.sent_at now)) [
      | inr (_, refused) ↦ absurd (ground (arith, rw (parse_body, json, shaped, refused) at h))
      | inl (events, resolved) ↦
          let same : events ≡ batch.events =
            ground (arith, rw (parse_body, json, shaped, resolved) at h) in
          rw (← same) (
            resolve_events-IsAccepted lib shape.raw_events shape.batch_token shape.sent_at now
              events resolved)
    ]
