-- ===== src/Persistence/Command/Held.antt =====
-- The reservations of a workspace, added up (backend/src/vision_app/persistence/memory.py).
use vision_app_creator.Prelude.{
  String, ◌≡◌, refl, none, some, [], ◌∷◌, arith, ◌==◌, Bool-cases, inl, inr, string_eq, pair_eq,
  str_eq_iff, lookup, insert, erase, if◌then◌else◌, Dict, Distinct,
}
use vision_app_creator.Prelude.Int.{ℤ, pos, ◌+ℤ◌, int_laws, parts_of_eq}

abbrev pub share : String → String × ℤ → ℤ
share w (v, m) = if v == w then m else pos 0

-- The sum of the reservations of a workspace.
unfoldable pub held : String → Dict String (String × ℤ) → ℤ
held w [] = pos 0
held w ((i, e) ∷ d) = share w e +ℤ held w d

pub held-insert_new :
    (w i : String) (e : String × ℤ) (d : Dict String (String × ℤ))
    → lookup i d ≡ none
    → held w (insert i e d) ≡ held w d +ℤ share w e
unfolding held insert lookup
held-insert_new w i e [] h = omega int_laws
held-insert_new w i e ((j, x) ∷ d) h = grind (int_laws, held-insert_new w i e d)

pub held-insert_over :
    (w i : String) (e old : String × ℤ) (d : Dict String (String × ℤ))
    → lookup i d ≡ some old
    → held w (insert i e d) +ℤ share w old ≡ held w d +ℤ share w e
unfolding held insert lookup
held-insert_over w i e old [] h = cc
held-insert_over w i e old ((j, x) ∷ d) h = elim (Bool-cases (j == i)) [
  | inl same ↦ let here : x ≡ old = ground arith in rw (same, here) (omega int_laws)
  | inr other ↦
      rw other (omega (int_laws, parts_of_eq _ _ (held-insert_over w i e old d (ground arith))))
]

held-erase-none :
    (w i : String) (d : Dict String (String × ℤ))
    → lookup i d ≡ none
    → held w (erase i d) ≡ held w d
unfolding held erase lookup
held-erase-none w i [] h = refl
held-erase-none w i ((j, x) ∷ d) h = grind (int_laws, held-erase-none w i d)

pub held-erase :
    (w i : String) (old : String × ℤ) (d : Dict String (String × ℤ))
    → Distinct d
    → lookup i d ≡ some old
    → held w (erase i d) +ℤ share w old ≡ held w d
unfolding held erase lookup
held-erase w i old [] u h = cc
held-erase w i old ((j, x) ∷ d) u h =
    grind (int_laws, str_eq_iff j i, held-erase w i old d u.1, held-erase-none w i d)
