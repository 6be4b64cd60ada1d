-- ===== src/Privacy/Fencing.antt =====
-- Late writers after a deletion: sequences of calls of `DeletionService` of
-- backend/src/vision_app/privacy/service.py, among writes of others to its repository.
use vision_app_creator.Prelude.{
  ℕ, String, ◌≡◌, refl, sym, ap, subst, ◌∙◌, Bool, true, false, List, [], ◌∷◌, arith, string_eq,
  pair_eq, Dict, insert, contains, contains-insert, All, ==_refl,
}
use vision_app_creator.Prelude.Results.{Result, ok, err}
use vision_app_creator.Privacy.{PrivacyError, ResourceRecord, Name, Repository}
use vision_app_creator.Privacy.Deletion.{
  Deletions, name_of, tombstone_of, swapped, tombstone_found, tombstone_one, tombstone_all, go_on,
}

-- The service remembers that a name, or a resource, has been deleted.
abbrev pub Remembers : Dict Name ℕ → Name → Type 0
Remembers gone name = contains {K = Name} name gone ≡ true

abbrev pub IsGone : Dict Name ℕ → ResourceRecord → Type 0
IsGone gone r = Remembers gone (name_of r)

Remembers-insert :
    (gone : Dict Name ℕ) (name other : Name) (g : ℕ)
    → Remembers gone other
    → Remembers (insert {K = Name} name g gone) other
Remembers-insert gone name other g h = ground (arith, contains-insert {K = Name} name other g gone)

Remembers-inserted :
    (gone : Dict Name ℕ) (name : Name) (g : ℕ) → Remembers (insert {K = Name} name g gone) name
Remembers-inserted gone name g =
    ground (arith, contains-insert {K = Name} name name g gone, ==_refl {A = Name} name)

module _ {S : Type 0} (repo : Repository S) where
  -- A step that forgets no deletion and leaves the jobs alone.
  abbrev pub Extends : Deletions S → Deletions S → Type 0
  Extends d d' =
      ((name : Name) → Remembers d.deleted_generations name → Remembers d'.deleted_generations name)
      × (d'.jobs ≡ d.jobs)

  swapped-Extends :
      (t : ResourceRecord) (name : Name) (d : Deletions S) (answer : Bool × S)
      → Extends d (swapped repo t name d answer).1
  swapped-Extends t name d (false, s) = (λ other h. h, refl)
  swapped-Extends t name d (true, s) =
      (λ other h. Remembers-insert d.deleted_generations name other t.generation h, refl)

  swapped-IsGone :
      (t u : ResourceRecord) (name : Name) (d : Deletions S) (answer : Bool × S)
      → name_of t ≡ name
      → (swapped repo t name d answer).0 ≡ ok u
      → IsGone (swapped repo t name d answer).1.deleted_generations u
  swapped-IsGone t u name d (false, s) e h = ground (arith, h)
  swapped-IsGone t u name d (true, s) e h =
      let same : t ≡ u = ground (arith, h) in
      subst (λ n. Remembers (insert {K = Name} name t.generation d.deleted_generations) n)
        (sym e ∙ ap (λ r. name_of r) same)
        (Remembers-inserted d.deleted_generations name t.generation)

  Extends-trans : (a b c : Deletions S) → Extends a b → Extends b c → Extends a c
  Extends-trans a b c h k = (λ name m. k.0 name (h.0 name m), k.1 ∙ h.1)

  pub All-Extends :
      (a b : Deletions S) (rs : List ResourceRecord)
      → Extends a b
      → All (IsGone a.deleted_generations) rs
      → All (IsGone b.deleted_generations) rs
  All-Extends a b [] h k = tt
  All-Extends a b (r ∷ rs) h k = (h.0 (name_of r) k.0, All-Extends a b rs h k.1)

  module _ (between : Name → S → S) (w by : String) (now : ℕ) where
    one-Extends :
        (name : Name) (d : Deletions S) → Extends d (tombstone_one repo between w by now name d).1
    unfolding tombstone_one
    one-Extends (kind, id) d =
        elim (repo.get_owned kind id w d.store)
          as (λ a. Extends d (tombstone_found repo between w by now (kind, id) a d).1) [
            | err e ↦ (λ other h. h, refl)
            | ok current ↦
                swapped-Extends (tombstone_of now by kind current) (kind, id) d
                  (repo.compare_and_swap kind id current.revision (tombstone_of now by kind current)
                    (between (kind, id) d.store))
          ]

    found-IsGone :
        (name : Name) (answer : Result PrivacyError ResourceRecord) (d : Deletions S)
        (t : ResourceRecord)
        → ((r : ResourceRecord) → answer ≡ ok r → name_of r ≡ name)
        → (tombstone_found repo between w by now name answer d).0 ≡ ok t
        → IsGone (tombstone_found repo between w by now name answer d).1.deleted_generations t
    found-IsGone name (err e) d t named h = ground (arith, h)
    found-IsGone (kind, id) (ok current) d t named h =
        swapped-IsGone (tombstone_of now by kind current) t (kind, id) d
          (repo.compare_and_swap kind id current.revision (tombstone_of now by kind current)
            (between (kind, id) d.store))
          (named current refl) h

    one-IsGone :
        (name : Name) (d : Deletions S) (t : ResourceRecord)
        → (tombstone_one repo between w by now name d).0 ≡ ok t
        → IsGone (tombstone_one repo between w by now name d).1.deleted_generations t
    unfolding tombstone_one
    one-IsGone (kind, id) d t h =
        found-IsGone (kind, id) (repo.get_owned kind id w d.store) d t
          (λ r e. ground (arith, repo.get-name kind id w d.store r e)) h

    go_on-Extends :
        (answer : Result PrivacyError ResourceRecord) (d next : Deletions S)
        (rest : Result PrivacyError (List ResourceRecord) × Deletions S)
        → Extends d next
        → Extends next rest.1
        → Extends d (go_on repo between w by now answer next rest).1
    go_on-Extends (err e) d next rest h k = h
    go_on-Extends (ok t) d next (ok ts, end) h k = Extends-trans d next end h k
    go_on-Extends (ok t) d next (err e, end) h k = Extends-trans d next end h k

    pub tombstoned-Extends :
        (names : List Name) (d : Deletions S)
        → Extends d (tombstone_all repo between w by now names d).1
    unfolding tombstone_all
    tombstoned-Extends [] d = (λ name h. h, refl)
    tombstoned-Extends (name ∷ names) d =
        let (answer, next) = tombstone_one repo between w by now name d in
        go_on-Extends answer d next (tombstone_all repo between w by now names next)
          (one-Extends name d) (tombstoned-Extends names next)

    go_on-IsGone :
        (answer : Result PrivacyError ResourceRecord) (next : Deletions S)
        (rest : Result PrivacyError (List ResourceRecord) × Deletions S) (ts : List ResourceRecord)
        → ((t : ResourceRecord) → answer ≡ ok t → IsGone next.deleted_generations t)
        → Extends next rest.1
        → ((us : List ResourceRecord) → rest.0 ≡ ok us → All (IsGone rest.1.deleted_generations) us)
        → (go_on repo between w by now answer next rest).0 ≡ ok ts
        → All (IsGone (go_on repo between w by now answer next rest).1.deleted_generations) ts
    go_on-IsGone (err e) next rest ts one ext more h =
        let absurd : ⊥ = ground (arith, h) in elim absurd [ ]
    go_on-IsGone (ok t) next (err e, end) ts one ext more h =
        let absurd : ⊥ = ground (arith, h) in elim absurd [ ]
    go_on-IsGone (ok t) next (ok us, end) ts one ext more h =
        let same : (t ∷ us) ≡ ts = ground (arith, h) in
        subst (λ rs. All (IsGone end.deleted_generations) rs) same
          (ext.0 (name_of t) (one t refl), more us refl)

    pub tombstoned-IsGone :
        (names : List Name) (d : Deletions S) (ts : List ResourceRecord)
        → (tombstone_all repo between w by now names d).0 ≡ ok ts
        → All (IsGone (tombstone_all repo between w by now names d).1.deleted_generations) ts
    unfolding tombstone_all
    tombstoned-IsGone [] d ts h =
        let same : [] ≡ ts = ground (arith, h) in
        subst (λ rs. All (IsGone d.deleted_generations) rs) same tt
    tombstoned-IsGone (name ∷ names) d ts h =
        let (answer, next) = tombstone_one repo between w by now name d in
        go_on-IsGone answer next (tombstone_all repo between w by now names next) ts
          (λ t. one-IsGone name d t) (tombstoned-Extends names next)
          (λ us. tombstoned-IsGone names next us) h
