-- ===== src/Validation/Models.antt =====
-- What the model manifest of `_build_model_manifest` holds
-- (backend/src/vision_app/validation/validator.py).
use vision_app_creator.Prelude.{
  String, ◌≡◌, refl, Option, none, some, List, [], ◌∷◌, ◌==◌, arith, string_eq, elem, Dict, lookup,
  lookup-insert, if◌then◌else◌, str_eq_iff,
}
use vision_app_creator.Validation.{ModelCapability, CapabilityRegistry, AppSpec}
use vision_app_creator.Validation.Manifests.{
  model_ref, components_of, note_model, note_models, build_model_manifest,
}

-- The reference of the model that serves a component.
abbrev pub ref_of : Option ModelCapability → Option String
ref_of none = none
ref_of (some m) = some (model_ref m)

abbrev ref_or : Option ModelCapability → Option String → Option String
ref_or none noted = noted
ref_or (some m) noted = some (model_ref m)

note_model-lookup :
    (k component : String) (m : Option ModelCapability) (manifest : Dict String String)
    → lookup k (note_model component m manifest)
      ≡ (if component == k then ref_or m (lookup k manifest) else lookup k manifest)
note_model-lookup k component none manifest = ground arith
note_model-lookup k component (some m) manifest = lookup-insert component k (model_ref m) manifest

note_models-lookup :
    (models : Dict String ModelCapability) (components : List String)
    (manifest : Dict String String) (k : String)
    → lookup k (note_models models components manifest) ≡ (
        if elem k components
        then ref_or (lookup k models) (lookup k manifest)
        else lookup k manifest)
unfolding note_models elem
note_models-lookup models [] manifest k = refl
note_models-lookup models (c ∷ cs) manifest k = ground (
  arith,
  note_models-lookup models cs (note_model c (lookup c models) manifest) k,
  note_model-lookup k c (lookup c models) manifest,
  str_eq_iff c k,
)

-- The model manifest holds exactly the components that the spec's rules or conditions require and
-- that the registry has a model for, each with the provider, model and revision of the registry.
pub manifest_pins_models :
    (spec : AppSpec) (r : CapabilityRegistry) (k : String)
    → lookup k (build_model_manifest spec r)
      ≡ (if elem k (components_of r spec.kind) then ref_of (lookup k r.models) else none)
unfolding build_model_manifest
manifest_pins_models spec r k =
    ground (arith, note_models-lookup r.models (components_of r spec.kind) [] k)
