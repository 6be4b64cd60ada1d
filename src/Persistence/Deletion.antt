-- ===== src/Persistence/Deletion.antt =====
-- The deletion generations of `InMemoryRepository`: `mark_deletion`, `request_deletion` and
-- `bump_deletion_generation`.
use vision_app_creator.Prelude.{
  ℕ, ◌+◌, String, Bool, true, false, not, ◌||◌, Option, none, some, ◌==◌, nat_eq, string_eq,
  if◌then◌else◌,
}
use vision_app_creator.Identity.{Caller, allowed}
use vision_app_creator.Persistence.Value.{Value, Shape, ok, err, not_found, is, dataclass}
use vision_app_creator.Persistence.Docs.{Doc, find_doc}
use vision_app_creator.Persistence.Repository.{Repository, Action, write}

-- A dataclass keeps its fields: it has no `model_copy`.
abbrev deleting : ℕ → Value → Shape → Value
deleting g v dataclass = v
deleting g v _ = record v { state = is "deleting"; generation = some g }

abbrev mark_found :
    String → String → ℕ → Caller → Option (String × Doc) → Repository → Bool × Repository
mark_found kind i g caller none r = (false, r)
mark_found kind i g caller (some (w, d)) r =
    if not (allowed caller w)
    then (false, r)
    else if not (d.generation == g) || d.deleted
    then (false, r)
    else (
      true,
      write w kind i
          (record d { generation = g + 1; value = deleting (g + 1) d.value d.value.shape }) r,
    )

unfoldable pub mark_deletion : String → String → ℕ → Caller → Repository → Bool × Repository
mark_deletion kind i g caller r = mark_found kind i g caller (find_doc kind i r.store) r

unfoldable pub request_deletion : String → String → ℕ → Caller → Repository → Bool × Repository
unfolding mark_deletion
request_deletion kind i g caller r = mark_deletion kind i g caller r

abbrev with_generation : ℕ → Value → Shape → Value
with_generation g v dataclass = v
with_generation g v _ = record v { generation = some g }

abbrev bump_found : String → String → Caller → Option (String × Doc) → Action ℕ
bump_found kind i caller none r = (err not_found, r)
bump_found kind i caller (some (w, d)) r = if not (allowed caller w) then (err not_found, r) else (
  ok (d.generation + 1),
  write w kind i
      (record d {
        generation = d.generation + 1;
        value = with_generation (d.generation + 1) d.value d.value.shape;
      })
      r,
)

unfoldable pub bump_deletion_generation : String → String → Caller → Action ℕ
bump_deletion_generation kind i caller r = bump_found kind i caller (find_doc kind i r.store) r
