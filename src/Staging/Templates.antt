-- ===== src/Staging/Templates.antt =====
-- src/lumina/staging/template_registry.py, and the checks of src/lumina/staging/file_writer.py. The
-- default structures and the serialisation are left out: nothing decides by them.
use lumina_framework.Base.{String, Option, none, some, List, [], ◌∷◌, Result, ok, err, ◌>>=◌}
use lumina_framework.Base.Dict.{Dict, get}

pub data Error : Type 0 where
  unknown_template : String → Error
  missing_fields : String → List String → Error
  os_error : Error

pub record Template : Type 0 where
  pub template_id : String
  pub required_fields : List String
  pub target_pattern : String
  pub file_format : String

abbrev pub domain_physics : Template
domain_physics = record {
  template_id = "domain-physics";
  required_fields =
      "id" ∷ "version" ∷ "admin" ∷ "invariants" ∷ "standing_orders" ∷ "escalation_triggers"
      ∷ "artifacts" ∷ [];
  target_pattern = "model-packs/{domain_short}/cfg/domain-physics.json";
  file_format = "json";
}

abbrev pub evidence_schema : Template
evidence_schema = record {
  template_id = "evidence-schema";
  required_fields = "schema_id" ∷ "version" ∷ "domain_id" ∷ "fields" ∷ [];
  target_pattern = "model-packs/{domain_short}/cfg/evidence-schema.json";
  file_format = "json";
}

abbrev pub tool_adapter : Template
tool_adapter = record {
  template_id = "tool-adapter";
  required_fields =
      "id" ∷ "version" ∷ "tool_name" ∷ "description" ∷ "domain_id" ∷ "input_schema"
      ∷ "output_schema" ∷ [];
  target_pattern =
      "model-packs/{domain_short}/modules/{module}/tool-adapters/{adapter_name}-adapter-v{major}.yaml";
  file_format = "yaml";
}

abbrev pub student_profile : Template
student_profile = record {
  template_id = "student-profile";
  required_fields = "profile_id" ∷ "entity_name" ∷ "domain_id" ∷ [];
  target_pattern = "model-packs/{domain_short}/profiles/{profile_id}.yaml";
  file_format = "yaml";
}

abbrev pub context_hint : Template
context_hint = record {
  template_id = "context-hint";
  required_fields = "hint_id" ∷ "domain_id" ∷ "content" ∷ [];
  target_pattern = "model-packs/{domain_short}/context-hints/{hint_id}.json";
  file_format = "json";
}

-- `_TEMPLATES`, as the calls of `_register` leave it.
abbrev pub templates : Dict Template
templates =
    ("domain-physics", domain_physics)
    ∷ ("evidence-schema", evidence_schema)
    ∷ ("tool-adapter", tool_adapter)
    ∷ ("student-profile", student_profile)
    ∷ ("context-hint", context_hint)
    ∷ []

abbrev require_some : String → Option Template → Result Error Template
require_some template_id none = err (unknown_template template_id)
require_some template_id (some t) = ok t

-- `TemplateRegistry.require`
unfoldable pub require : String → Result Error Template
unfolding get
require template_id = require_some template_id (get template_id templates)

module _ {J : Type 0} where
  -- `[f for f in required_fields if f not in payload]`
  unfoldable pub missing : List String → Dict J → List String
  unfolding get
  missing [] payload = []
  missing (f ∷ fs) payload =
      let rest = missing fs payload in elim (get f payload) [ none ↦ f ∷ rest | some _ ↦ rest ]

  -- Both callers raise where a required field is missing.
  unfoldable pub check_fields : Template → Dict J → Result Error (Unit {0})
  unfolding missing
  check_fields t payload = elim (missing t.required_fields payload) [
    | [] ↦ ok tt
    | f ∷ fs ↦ err (missing_fields t.template_id (f ∷ fs))
  ]

  -- `write_from_template`: `disk` is what the file system's part returns, the resolved path or the
  -- error that is raised.
  unfoldable pub write_from_template : Result Error String → String → Dict J → Result Error String
  unfolding require check_fields
  write_from_template disk template_id payload = do
    t ← require template_id
    _ ← check_fields t payload
    disk
