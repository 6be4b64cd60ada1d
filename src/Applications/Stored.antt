-- ===== src/Applications/Stored.antt =====
-- Values of one kind in the in-memory repository (backend/src/vision_app/persistence/memory.py), as
-- a service of applications/services.py uses them. `dump` is a value as it is stored and `load` reads
-- it back, since the repository keeps the object itself.
use vision_app_creator.Prelude.{
  ℕ, ◌+◌, String, ◌≡◌, ◌⊎◌, inl, inr, Bool, true, false, Option, none, some, ◌==◌, ◌&&◌,
  Option-cases, Bool-cases, str_eq_iff, string_eq, nat_eq, arith,
}
use vision_app_creator.Identity as Identity
use vision_app_creator.Persistence.Value.{Value, Result, ok, err, workspace}
use vision_app_creator.Persistence.Docs.{Doc, find_doc}
use vision_app_creator.Persistence.Docs.Laws.{
  find_doc-put_doc_found, find_doc-put_doc_new, find_doc-put_doc_other, find_doc-ensure,
}
use vision_app_creator.Persistence.Repository.{Repository}
use vision_app_creator.Persistence.Documents.{get_owned, compare_and_swap, add_immutable, doc_of}

-- A swap that raises goes through no more than one that answers False.
abbrev went : Result Bool × Repository → Bool × Repository
went (ok b, r) = (b, r)
went (err e, r) = (false, r)

apart_places : (a b i j : String) → (a == b) ≡ false → (a == b && i == j) ≡ false
apart_places a b i j h = ground (arith, h)

apart_ids : (a i j : String) → (i == j) ≡ false → (a == a && i == j) ≡ false
apart_ids a i j h = ground (arith, h)

module _ {A : Type 0} (kind : String) (dump : A → Value) (load : Value → Option A) where
  abbrev loaded : Option Value → Option A
  loaded none = none
  loaded (some v) = load v

  abbrev found_value : Option (String × Doc) → Option Value
  found_value none = none
  found_value (some (w, d)) = some d.value

  unfoldable pub owned_value : String → String → Repository → Option A
  owned_value id w r = loaded (get_owned kind id (Identity.workspace w) r)

  unfoldable pub swap_value : String → ℕ → A → Repository → Bool × Repository
  swap_value id n c r = went (compare_and_swap kind id n (dump c) r)

  unfoldable pub stored_value : String → Repository → Option A
  stored_value id r = loaded (found_value (find_doc kind id r.store))

  unfoldable pub add_value : String → A → Repository → Bool × Repository
  add_value id a r = went (add_immutable kind id (dump a) r)

  pub owned-stored :
      (id w : String) (r : Repository) (c : A)
      → owned_value id w r ≡ some c
      → stored_value id r ≡ some c
  unfolding owned_value stored_value get_owned
  owned-stored id w r c h = ground arith

  pub swap-stored :
      ((c : A) → load (dump c) ≡ some c)
      → (id : String) (n : ℕ) (c : A) (r : Repository) → (swap_value id n c r).0 ≡ true
      → stored_value id (swap_value id n c r).1 ≡ some c
  unfolding swap_value stored_value compare_and_swap
  swap-stored load-dump id n c r h = elim (Option-cases (find_doc kind id r.store)) [
    | inl e ↦ elim (Option-cases (workspace (dump c))) [
      | inl f ↦ ground (arith, e, f)
      | inr (w, f) ↦
          ground
            (arith, e, f, load-dump c, find_doc-put_doc_new w kind id (doc_of (dump c)) r.store e)
    ]
    | inr ((w, d), e) ↦ ground (
      arith,
      e,
      load-dump c,
      find_doc-put_doc_found w kind id (record d { value = dump c; revision = n + 1 }) r.store
          {old = d} e,
    )
  ]

  refused-stored :
      (id : String) (n : ℕ) (c : A) (r : Repository) (id' : String)
      → (swap_value id n c r).0 ≡ false
      → stored_value id' (swap_value id n c r).1 ≡ stored_value id' r
  unfolding swap_value stored_value compare_and_swap
  refused-stored id n c r id' h = elim (Option-cases (find_doc kind id r.store)) [
    | inl e ↦ elim (Option-cases (workspace (dump c))) [
      | inl f ↦ ground (arith, e, f)
      | inr (w, f) ↦ ground (arith, e, f, find_doc-ensure w kind kind id' r.store)
    ]
    | inr ((w, d), e) ↦ ground (arith, e)
  ]

  apart-stored :
      (id : String) (n : ℕ) (c : A) (r : Repository) (id' : String)
      → (id == id') ≡ false
      → (swap_value id n c r).0 ≡ true
      → stored_value id' (swap_value id n c r).1 ≡ stored_value id' r
  unfolding swap_value stored_value compare_and_swap
  apart-stored id n c r id' apart h = elim (Option-cases (find_doc kind id r.store)) [
    | inl e ↦ elim (Option-cases (workspace (dump c))) [
      | inl f ↦ ground (arith, e, f)
      | inr (w, f) ↦ ground (
        arith,
        e,
        f,
        find_doc-put_doc_other w kind id kind id' (doc_of (dump c)) r.store
            (apart_ids kind id id' apart),
      )
    ]
    | inr ((w, d), e) ↦ ground (
      arith,
      e,
      find_doc-put_doc_other w kind id kind id' (record d { value = dump c; revision = n + 1 })
          r.store (apart_ids kind id id' apart),
    )
  ]

  pub swap-elsewhere :
      (id : String) (n : ℕ) (c : A) (r : Repository) (id' : String)
      → (((swap_value id n c r).0 ≡ true) × (id ≡ id'))
        ⊎ (stored_value id' (swap_value id n c r).1 ≡ stored_value id' r)
  swap-elsewhere id n c r id' = elim (Bool-cases (swap_value id n c r).0) [
    | inr halted ↦ inr (refused-stored id n c r id' halted)
    | inl through ↦ elim (Bool-cases (id == id')) [
      | inl here ↦ inl (through, (str_eq_iff id id').0 here)
      | inr apart ↦ inr (apart-stored id n c r id' apart through)
    ]
  ]

-- Adding a value of another kind leaves what is stored.
pub stored-add :
    {A B : Type 0} (kind kind' : String) (load : Value → Option A) (dump' : B → Value)
    (dump : A → Value) (load' : Value → Option B)
    → (kind' == kind) ≡ false
    → (id' : String) (b : B) (r : Repository) (id : String)
    → stored_value kind dump load id (add_value kind' dump' load' id' b r).1
      ≡ stored_value kind dump load id r
unfolding add_value stored_value add_immutable
stored-add kind kind' load dump' dump load' apart id' b r id =
    elim (Option-cases (workspace (dump' b))) [
      | inl f ↦ ground (arith, f)
      | inr (w, f) ↦ ground (
        arith,
        f,
        find_doc-ensure w kind' kind id r.store,
        find_doc-put_doc_other w kind' id' kind id (doc_of (dump' b)) r.store
            (apart_places kind' kind id' id apart),
      )
    ]
