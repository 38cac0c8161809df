-- ===== src/Schema/Tests.antt =====
-- A schema with one required text, for internal/web/tooldecision.go.
use m365_copilot2api.Prelude.{◌≡◌, ◌↔◌, ◌⊎◌, none, some, Text, codes, refl, [], any, text_eq}
use m365_copilot2api.Json.{
  get, as_object, Value, Fields, field, end, str, obj, arr, cons, nil, null, string_at, object_at,
}
use m365_copilot2api.Schema.{schema_valid, must_be}
use m365_copilot2api.Schema.Conforms.{Conforms, schema_valid-none_iff}

abbrev encode : Value → Text
encode v = []

abbrev path_schema : Fields
path_schema = field (codes "type") (str (codes "object")) (
    field (codes "required") (arr (cons (str (codes "path")) nil)) (
      field (codes "properties")
        (obj (field (codes "path") (obj (field (codes "type") (str (codes "string")) end)) end))
        end))

abbrev read_file : Fields
read_file =
    field (codes "name") (str (codes "read")) (field (codes "parameters") (obj path_schema) end)

abbrev arguments : Fields
arguments = field (codes "path") (str (codes "a.txt")) end

rejected :
    schema_valid encode (field (codes "path") null end) read_file
    ≡ some (must_be (codes "arguments.path") (codes "string"))
unfolding schema_valid get any text_eq string_at object_at
rejected = refl

schema_valid-none_iff_example : (schema_valid encode arguments read_file ≡ none) ↔ (
    (as_object (get (codes "parameters") read_file) ≡ none)
    ⊎ ((params : Fields) × (as_object (get (codes "parameters") read_file) ≡ some params)
        × Conforms encode (obj arguments) params))
schema_valid-none_iff_example = schema_valid-none_iff encode arguments read_file
