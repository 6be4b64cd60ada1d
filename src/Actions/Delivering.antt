-- ===== src/Actions/Delivering.antt =====
-- What the outbox keeps along its calls (backend/src/vision_app/actions/outbox.py).
use vision_app_creator.Prelude.{
  ℕ, suc, ◌+◌, ◌≤◌, String, ◌≡◌, refl, ap, subst, sym, ◌∙◌, Bool, true, false, Option, none, some,
  List, [], ◌∷◌, ◌++◌, arith, ◌==◌, ◌<◌, Bool-cases, inl, inr, leb, ltb, leb→le, ◌&&◌, string_eq,
  str_eq_iff, lookup, insert, lookup-insert, if◌then◌else◌,
}
use vision_app_creator.Prelude.Results.{err}
use vision_app_creator.Actions.Eligibility.{Permission, ActionContext}
use vision_app_creator.Actions.Outbox.{
  DeliveryRecord, Outbox, Sending, key_error, new_record, status, raises, suppressed, put, try,
  deliver_found, is_settled, create_once, enqueue, deliver,
}

-- How often a delivery was handed to the transport.
unfoldable pub count : String → List String → ℕ
count i [] = 0
count i (j ∷ js) = let n = count i js in if j == i then suc n else n

count-append :
    (i j : String) (js : List String)
    → count i (js ++ (j ∷ [])) ≡ (if j == i then suc (count i js) else count i js)
unfolding count
count-append i j [] = refl
count-append i j (k ∷ js) = ground (arith, count-append i j js)

abbrev pub attempts_of : Option DeliveryRecord → ℕ
attempts_of none = 0
attempts_of (some r) = r.attempts

abbrev HasId : String → Option DeliveryRecord → Type 0
HasId i none = Unit
HasId i (some r) = r.id ≡ i

-- The calls of the service.
pub data Call : Type 0 where
  enqueues : ActionContext → Permission → Option ℕ → Call
  delivers : String → ActionContext → Permission → Sending → Call

module _ (key : ActionContext → Permission → String) (max_attempts : ℕ)
    (is_too_long : DeliveryRecord → Bool) where
  abbrev pub perform : Call → Outbox → Outbox
  perform (enqueues c p reviewed) x = (enqueue key c p reviewed x).1
  perform (delivers i c p answer) x = (deliver key max_attempts is_too_long i c p answer x).1

  unfoldable pub perform_all : List Call → Outbox → Outbox
  perform_all [] x = x
  perform_all (c ∷ cs) x = perform_all cs (perform c x)

  -- The record of a delivery carries its id, counts its sends, and stays within the attempts.
  abbrev IsCounted : String → Outbox → Type 0
  IsCounted i x =
      HasId i (lookup i x.records)
      × (count i x.sends ≡ attempts_of (lookup i x.records))
      × (count i x.sends ≤ max_attempts)

  module _ (i : String) (x : Outbox) (h : IsCounted i x) (r : DeliveryRecord)
      (here : lookup r.id x.records ≡ some r) where
    suppress-IsCounted :
        (f : DeliveryRecord) → f.id ≡ r.id → f.attempts ≡ r.attempts → IsCounted i (put f x)
    suppress-IsCounted f e k = ground (arith, str_eq_iff f.id i, lookup-insert f.id i f x.records)

    attempt-IsCounted :
        (a f : DeliveryRecord)
        → a.id ≡ r.id
        → f.id ≡ r.id
        → f.attempts ≡ r.attempts + 1
        → r.attempts < max_attempts
        → IsCounted i (put f (record (put a x) { sends = x.sends ++ (r.id ∷ []) }))
    attempt-IsCounted a f e e' k lt = ground (
      arith,
      str_eq_iff r.id i,
      str_eq_iff f.id i,
      str_eq_iff a.id i,
      count-append i r.id x.sends,
      lookup-insert f.id i f (insert a.id a x.records),
      lookup-insert a.id i a x.records,
    )

    try-IsCounted :
        (answer : Sending)
        → r.attempts < max_attempts
        → IsCounted i (try key max_attempts is_too_long r answer x).1
    try-IsCounted (raises error) lt = attempt-IsCounted _ _ refl refl refl lt
    try-IsCounted (status n) lt = elim (Bool-cases (leb 200 n && ltb n 300)) [
      | inl e ↦ rw e (attempt-IsCounted _ _ refl refl refl lt)
      | inr e ↦ rw e (attempt-IsCounted _ _ refl refl refl lt)
    ]

    found-IsCounted :
        (c : ActionContext) (p : Permission) (answer : Sending)
        → IsCounted i (deliver_found key max_attempts is_too_long c p answer r x).1
    found-IsCounted c p answer = grind (
      arith,
      suppress-IsCounted (record r { state = suppressed }) refl refl,
      try-IsCounted answer,
      leb→le max_attempts r.attempts,
    )

  lookup_own :
      (j : String) (r : DeliveryRecord) (x : Outbox)
      → IsCounted j x
      → lookup j x.records ≡ some r
      → lookup r.id x.records ≡ some r
  lookup_own j r x h e = let own : r.id ≡ j = ground arith in ap (λ k. lookup k x.records) own ∙ e

  module _ (j : String) (c : ActionContext) (p : Permission) (answer : Sending) (x : Outbox) where
    deliver-none :
        lookup j x.records ≡ none
        → deliver key max_attempts is_too_long j c p answer x ≡ (err key_error, x)
    unfolding deliver
    deliver-none e =
        ap
          (λ o. elim o [
            | none ↦ (err key_error, x)
            | some r ↦ deliver_found key max_attempts is_too_long c p answer r x
          ])
          e

    deliver-some :
        (r : DeliveryRecord)
        → lookup j x.records ≡ some r
        → deliver key max_attempts is_too_long j c p answer x
          ≡ deliver_found key max_attempts is_too_long c p answer r x
    unfolding deliver
    deliver-some r e =
        ap
          (λ o. elim o [
            | none ↦ (err key_error, x)
            | some r ↦ deliver_found key max_attempts is_too_long c p answer r x
          ])
          e

    deliver-IsCounted :
        (i : String) (o : Option DeliveryRecord)
        → ((j : String) → IsCounted j x)
        → lookup j x.records ≡ o
        → IsCounted i (deliver key max_attempts is_too_long j c p answer x).1
    deliver-IsCounted i none all e = subst (λ y. IsCounted i y.1) (sym (deliver-none e)) (all i)
    deliver-IsCounted i (some r) all e =
        subst (λ y. IsCounted i y.1) (sym (deliver-some r e))
          (found-IsCounted i x (all i) r (lookup_own j r x (all j) e) c p answer)

  perform-IsCounted :
      (c : Call) (i : String) (x : Outbox)
      → ((j : String) → IsCounted j x)
      → IsCounted i (perform c x)
  unfolding enqueue create_once
  perform-IsCounted (enqueues c p reviewed) i x all = ground (
    arith,
    all i,
    str_eq_iff (key c p) i,
    lookup-insert (key c p) i (new_record key c p) x.records,
  )
  perform-IsCounted (delivers j c p answer) i x all =
      deliver-IsCounted j c p answer x i (lookup j x.records) all refl

  -- Where nothing of a delivery changes.
  abbrev IsSame : String → Outbox → Outbox → Type 0
  IsSame i x x' = (lookup i x'.records ≡ lookup i x.records) × (count i x'.sends ≡ count i x.sends)

  module _ (i : String) (x : Outbox) (r : DeliveryRecord) (other : (r.id == i) ≡ false) where
    put-IsSame : (f : DeliveryRecord) → f.id ≡ r.id → IsSame i x (put f x)
    put-IsSame f e =
        ground (arith, str_eq_iff f.id i, str_eq_iff r.id i, lookup-insert f.id i f x.records)

    attempt-IsSame :
        (a f : DeliveryRecord)
        → a.id ≡ r.id
        → f.id ≡ r.id
        → IsSame i x (put f (record (put a x) { sends = x.sends ++ (r.id ∷ []) }))
    attempt-IsSame a f e e' = ground (
      arith,
      str_eq_iff r.id i,
      str_eq_iff f.id i,
      str_eq_iff a.id i,
      count-append i r.id x.sends,
      lookup-insert f.id i f (insert a.id a x.records),
      lookup-insert a.id i a x.records,
    )

    try-IsSame : (answer : Sending) → IsSame i x (try key max_attempts is_too_long r answer x).1
    try-IsSame (raises error) = attempt-IsSame _ _ refl refl
    try-IsSame (status n) = elim (Bool-cases (leb 200 n && ltb n 300)) [
      | inl e ↦ rw e (attempt-IsSame _ _ refl refl)
      | inr e ↦ rw e (attempt-IsSame _ _ refl refl)
    ]

    found-IsSame :
        (c : ActionContext) (p : Permission) (answer : Sending)
        → IsSame i x (deliver_found key max_attempts is_too_long c p answer r x).1
    found-IsSame c p answer =
        grind (arith, put-IsSame (record r { state = suppressed }) refl, try-IsSame answer)

  -- A settled record answers itself, and another one is written and sent under its own id.
  delivered_keeps :
      (j : String) (c : ActionContext) (p : Permission) (answer : Sending) (i : String)
      (r : DeliveryRecord) (x : Outbox) (o : Option DeliveryRecord)
      → ((j : String) → IsCounted j x)
      → lookup i x.records ≡ some r
      → is_settled r.state ≡ true
      → lookup j x.records ≡ o
      → IsSame i x (deliver key max_attempts is_too_long j c p answer x).1
  delivered_keeps j c p answer i r x none all here s e =
      subst (λ y. IsSame i x y.1) (sym (deliver-none j c p answer x e)) (refl, refl)
  delivered_keeps j c p answer i r x (some r') all here s e =
      subst (λ y. IsSame i x y.1) (sym (deliver-some j c p answer x r' e))
        (elim (Bool-cases (r'.id == i)) [
          | inl same ↦
              let own : lookup i x.records ≡ some r' =
                subst (λ k. lookup k x.records ≡ some r') ((str_eq_iff r'.id i).0 same)
                  (lookup_own j r' x (all j) e) in
              let settled : is_settled r'.state ≡ true = ground arith in rw settled (refl, refl)
          | inr other ↦ found-IsSame i x r' other c p answer
        ])

  settled_keeps :
      (c : Call) (i : String) (r : DeliveryRecord) (x : Outbox)
      → ((j : String) → IsCounted j x)
      → lookup i x.records ≡ some r
      → is_settled r.state ≡ true
      → IsSame i x (perform c x)
  unfolding enqueue create_once
  settled_keeps (enqueues c p reviewed) i r x all here s =
      ground
        (arith, str_eq_iff (key c p) i, lookup-insert (key c p) i (new_record key c p) x.records)
  settled_keeps (delivers j c p answer) i r x all here s =
      delivered_keeps j c p answer i r x (lookup j x.records) all here s refl

  perform_all-IsCounted :
      (cs : List Call) (x : Outbox)
      → ((j : String) → IsCounted j x)
      → (i : String) → IsCounted i (perform_all cs x)
  unfolding perform_all
  perform_all-IsCounted [] x all i = all i
  perform_all-IsCounted (c ∷ cs) x all i =
      perform_all-IsCounted cs (perform c x) (λ j. perform-IsCounted c j x all) i

  perform_all-IsSame :
      (cs : List Call) (i : String) (r : DeliveryRecord) (x : Outbox)
      → ((j : String) → IsCounted j x)
      → lookup i x.records ≡ some r
      → is_settled r.state ≡ true
      → IsSame i x (perform_all cs x)
  unfolding perform_all
  perform_all-IsSame [] i r x all here s = (refl, refl)
  perform_all-IsSame (c ∷ cs) i r x all here s =
      let once = settled_keeps c i r x all here s in
      let rest =
        perform_all-IsSame cs i r (perform c x) (λ j. perform-IsCounted c j x all) (once.0 ∙ here)
          s in
      (rest.0 ∙ once.0, rest.1 ∙ once.1)

abbrev pub empty_outbox : Outbox
empty_outbox = record { records = []; sends = [] }

none_yet :
    (key : ActionContext → Permission → String) (max_attempts : ℕ)
    (is_too_long : DeliveryRecord → Bool) (j : String)
    → IsCounted key max_attempts is_too_long j empty_outbox
unfolding lookup count
none_yet key max_attempts is_too_long j = (tt, refl, omega arith)

-- Starting from an empty outbox, along any calls and whatever the transport answers, a delivery is
-- handed to the transport as often as its record says, and at most `max_attempts` times.
pub deliveries_are_bounded :
    (key : ActionContext → Permission → String) (max_attempts : ℕ)
    (is_too_long : DeliveryRecord → Bool) (cs : List Call) (i : String)
    → let x = perform_all key max_attempts is_too_long cs empty_outbox in
      (count i x.sends ≡ attempts_of (lookup i x.records)) × (count i x.sends ≤ max_attempts)
deliveries_are_bounded key max_attempts is_too_long cs i =
    let counted =
      perform_all-IsCounted key max_attempts is_too_long cs empty_outbox
        (none_yet key max_attempts is_too_long) i in
    (counted.1, counted.2)

-- A delivery that is settled stays so: once its record is delivered or suppressed, after any calls
-- from an empty outbox, no further calls change the record or hand it to the transport again.
pub settled_is_final :
    (key : ActionContext → Permission → String) (max_attempts : ℕ)
    (is_too_long : DeliveryRecord → Bool) (cs ds : List Call) (i : String) (r : DeliveryRecord)
    → lookup i (perform_all key max_attempts is_too_long cs empty_outbox).records ≡ some r
    → is_settled r.state ≡ true
    → let x = perform_all key max_attempts is_too_long cs empty_outbox in
      let later = perform_all key max_attempts is_too_long ds x in
      (lookup i later.records ≡ some r) × (count i later.sends ≡ count i x.sends)
settled_is_final key max_attempts is_too_long cs ds i r here s =
    let x = perform_all key max_attempts is_too_long cs empty_outbox in
    let same =
      perform_all-IsSame key max_attempts is_too_long ds i r x
        (perform_all-IsCounted key max_attempts is_too_long cs empty_outbox
          (none_yet key max_attempts is_too_long))
        here s in
    (same.0 ∙ here, same.1)
