-- ===== src/Privacy/Assets.antt =====
-- `_MediaRepositoryAdapter` of backend/src/vision_app/bootstrap.py, the asset store of the local
-- profile, and that it is a repository as the deletion service expects one. The records of
-- contracts/models.py have the fields that it reads or writes.
use vision_app_creator.Prelude.{
  ℕ, ◌+◌, String, ◌≡◌, ◌↔◌, Option-cases, ◌⊎◌, inl, inr, Bool, true, false, not, Option, none, some,
  [], ◌==◌, arith, nat_eqb, string_eq, str_eq_iff, Dict, lookup, insert, lookup_or, lookup-insert,
  lookup_or-insert, if◌then◌else◌,
}
use vision_app_creator.Prelude.Results.{Result, ok, err}
use vision_app_creator.Privacy.{PrivacyError, type_error, ResourceRecord, Repository}

pub record SourceAsset : Type 0 where
  pub id : String
  pub workspace_id : String
  pub state : String
  pub generation : ℕ
  pub deleted_at : Option ℕ

pub record AssetStore : Type 0 where
  pub assets : Dict String SourceAsset
  pub revisions : Dict String ℕ

unfoldable pub save_asset : SourceAsset → AssetStore → AssetStore
unfolding insert
save_asset a s = record s { assets = insert a.id a s.assets; revisions = insert a.id 0 s.revisions }

abbrev owned_asset : String → Option SourceAsset → Option SourceAsset
owned_asset w none = none
owned_asset w (some a) = if not (a.workspace_id == w) then none else some a

unfoldable pub get_asset : String → String → AssetStore → Option SourceAsset
unfolding lookup
get_asset id w s = owned_asset w (lookup id s.assets)

abbrev workspace_of : Option SourceAsset → Option String
workspace_of none = none
workspace_of (some a) = some a.workspace_id

unfoldable pub workspace_for_asset : String → AssetStore → Option String
unfolding lookup
workspace_for_asset id s = workspace_of (lookup id s.assets)

abbrev resource_of : String → ℕ → Option SourceAsset → Result PrivacyError ResourceRecord
resource_of id revision none = err type_error
resource_of id revision (some a) = ok (record {
  kind = "asset";
  id = id;
  workspace_id = a.workspace_id;
  generation = a.generation;
  revision = revision;
  deleted_at = none;
  deleted_by = none;
  cancel_requested = false;
  hard_deleted = false;
  content = [];
})

-- `get_owned` for a workspace id; its `None` becomes the TypeError of the deletion service
unfoldable pub get_owned :
    String → String → String → AssetStore → Result PrivacyError ResourceRecord
unfolding get_asset lookup_or
get_owned kind id w s =
    if not (kind == "asset")
    then err type_error
    else resource_of id (lookup_or id 0 s.revisions) (get_asset id w s)

-- The asset that a swap writes: `new_state`, `new_deleted_at`.
abbrev pub swapped_asset : ResourceRecord → SourceAsset → SourceAsset
swapped_asset v a = record a {
  state =
      if v.hard_deleted
      then "deleted"
      else elim v.deleted_at [ none ↦ a.state | some t ↦ "deleting" ];
  generation = v.generation;
  deleted_at =
      if v.hard_deleted
      then a.deleted_at
      else elim v.deleted_at [ none ↦ a.deleted_at | some t ↦ some t ];
}

unfoldable pub swap_found :
    String → ℕ → ResourceRecord → AssetStore → Option SourceAsset → Bool × AssetStore
unfolding insert lookup_or
swap_found id n v s none = (false, s)
swap_found id n v s (some a) =
    if not (nat_eqb (lookup_or id 0 s.revisions) n) then (false, s) else (
      true,
      record s {
        assets = insert id (swapped_asset v a) s.assets;
        revisions = insert id (n + 1) s.revisions;
      },
    )

unfoldable pub compare_and_swap :
    String → String → ℕ → ResourceRecord → AssetStore → Bool × AssetStore
unfolding lookup swap_found
compare_and_swap kind id n v s =
    if not (kind == "asset") then (false, s) else swap_found id n v s (lookup id s.assets)

abbrev stored_revision : ℕ → Option SourceAsset → Option ℕ
stored_revision n none = none
stored_revision n (some a) = some n

unfoldable pub revision_of : String → String → AssetStore → Option ℕ
unfolding lookup lookup_or
revision_of kind id s =
    if kind == "asset"
    then stored_revision (lookup_or id 0 s.revisions) (lookup id s.assets)
    else none

pub get_owned-revision_of :
    (kind id w : String) (s : AssetStore) (r : ResourceRecord)
    → get_owned kind id w s ≡ ok r
    → revision_of kind id s ≡ some r.revision
unfolding get_owned get_asset revision_of
get_owned-revision_of kind id w s r h = ground arith

pub get_owned-name :
    (kind id w : String) (s : AssetStore) (r : ResourceRecord)
    → get_owned kind id w s ≡ ok r
    → (r.kind ≡ kind) × (r.id ≡ id)
unfolding get_owned get_asset
get_owned-name kind id w s r h = ground (arith, str_eq_iff kind "asset")

pub swap_iff_revision :
    (kind id : String) (n : ℕ) (r : ResourceRecord) (s : AssetStore)
    → ((compare_and_swap kind id n r s).0 ≡ true) ↔ (revision_of kind id s ≡ some n)
unfolding compare_and_swap swap_found revision_of
swap_iff_revision kind id n r s = ground arith

pub swap-revision_of :
    (kind id : String) (n : ℕ) (r : ResourceRecord) (s : AssetStore)
    → (compare_and_swap kind id n r s).0 ≡ true
    → revision_of kind id (compare_and_swap kind id n r s).1 ≡ some (n + 1)
unfolding compare_and_swap swap_found revision_of
swap-revision_of kind id n r s h = elim (Option-cases (lookup id s.assets)) [
  | inl e ↦ ground (arith, e)
  | inr (a, e) ↦ ground (
    arith,
    e,
    lookup-insert id id (swapped_asset r a) s.assets,
    lookup_or-insert id id (n + 1) 0 s.revisions,
    str_eq_iff id id,
  )
]

pub swap_refused :
    (kind id : String) (n : ℕ) (r : ResourceRecord) (s : AssetStore)
    → (compare_and_swap kind id n r s).0 ≡ false
    → (compare_and_swap kind id n r s).1 ≡ s
unfolding compare_and_swap swap_found
swap_refused kind id n r s h = ground arith

pub swap_elsewhere :
    (kind id : String) (n : ℕ) (r : ResourceRecord) (s : AssetStore) (kind' id' : String)
    → ((kind ≡ kind') × (id ≡ id'))
      ⊎ (revision_of kind' id' (compare_and_swap kind id n r s).1 ≡ revision_of kind' id' s)
unfolding compare_and_swap swap_found revision_of
swap_elsewhere kind id n r s kind' id' = elim (Option-cases (lookup id s.assets)) [
  | inl e ↦ ground (arith, e)
  | inr (a, e) ↦ ground (
    arith,
    e,
    lookup-insert id id' (swapped_asset r a) s.assets,
    lookup_or-insert id id' (n + 1) 0 s.revisions,
    str_eq_iff id id',
    str_eq_iff kind "asset",
    str_eq_iff kind' "asset",
  )
]

-- The asset store is a repository as the deletion service expects one.
abbrev pub asset_repository : Repository AssetStore
asset_repository = record {
  get_owned = get_owned;
  compare_and_swap = compare_and_swap;
  revision_of = revision_of;
  get-revision = get_owned-revision_of;
  get-name = get_owned-name;
  swap_iff = swap_iff_revision;
  swap-own = swap-revision_of;
  swap-refused = swap_refused;
  swap-other = swap_elsewhere;
}
