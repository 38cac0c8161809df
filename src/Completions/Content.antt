-- ===== src/Completions/Content.antt =====
-- internal/web/multimodal.go: the text and the attachments of the content of a message.
mod Tests
use m365_copilot2api.Prelude.{
  List, [], ◌∷◌, ◌++◌, Option, none, some, Bool, ◌&&◌, ◌||◌, not, Text, text_eq, codes, is_empty,
  trim_space, if◌then◌else◌,
}
use m365_copilot2api.Json
use m365_copilot2api.Json.{Value, Items, Fields, as_string, as_object, string_at}
use m365_copilot2api.Ledger
use m365_copilot2api.Completions.{Attachment}

-- `stringValue`: the first of the keys that holds a text that is not blank.
unfoldable pub string_value : List Text → Fields → Text
string_value [] m = []
string_value (k ∷ ks) m =
    let rest = string_value ks m in
    elim (as_string (Json.get k m)) [
      | none ↦ rest
      | some v ↦ if is_empty (trim_space v) then rest else v
    ]

abbrev image : Text → Text → Attachment
image url detail = record {
  kind = codes "image";
  url = url;
  name = [];
  mime_type = codes "image/*";
  detail = detail;
}

-- The text of a part.
unfoldable pub part_text : Fields → Text
unfolding string_at
part_text m =
    let typ = string_at (codes "type") m in
    if text_eq typ (codes "text")
      || text_eq typ (codes "input_text")
      || text_eq typ (codes "output_text")
      || is_empty typ
    then string_at (codes "text") m
    else []

-- An address that stands in the part itself.
unfoldable pub direct_image : Fields → List Attachment
unfolding string_at
direct_image m =
    let url = string_at (codes "image_url") m in if is_empty url then [] else image url [] ∷ []

-- The case `image_url`.
unfoldable pub nested_image : Fields → List Attachment
unfolding string_at
nested_image m = elim (as_object (Json.get (codes "image_url") m)) [
  | none ↦ []
  | some u ↦ elim (as_string (Json.get (codes "url") u)) [
    | none ↦ []
    | some v ↦ image v (string_at (codes "detail") u) ∷ []
  ]
]

-- The address of the case `input_image`, `image`.
unfoldable pub image_address : Fields → Text
unfolding string_value
image_address m =
    let flat = string_value (codes "image_url" ∷ codes "url" ∷ codes "source" ∷ []) m in
    let inner : Text = elim (as_object (Json.get (codes "image_url") m)) [
      | none ↦ flat
      | some raw ↦ string_value (codes "url" ∷ codes "data" ∷ codes "image_url" ∷ []) raw
    ] in
    elim (as_object (Json.get (codes "source") m)) [
      | none ↦ inner
      | some raw ↦
          if is_empty inner
          then string_value (codes "url" ∷ codes "data" ∷ codes "source" ∷ []) raw
          else inner
    ]

unfoldable pub input_image : Fields → List Attachment
unfolding image_address
input_image m = let u = image_address m in if is_empty u then [] else image u [] ∷ []

-- The case `input_file`, `file`.
unfoldable pub input_file : Fields → List Attachment
unfolding string_value
input_file m =
    let u =
      string_value
        (codes "file_data" ∷ codes "file_url" ∷ codes "url" ∷ codes "source" ∷ codes "file_id" ∷ [])
        m in
    let name = string_value (codes "filename" ∷ codes "name" ∷ []) m in
    if is_empty u && is_empty name
    then []
    else record {
      kind = codes "file";
      url = u;
      name = name;
      mime_type = string_value (codes "mime_type" ∷ codes "mimeType" ∷ codes "content_type" ∷ []) m;
      detail = [];
    }
      ∷ []

-- The case `input_audio`, `audio`.
unfoldable pub input_audio : Fields → List Attachment
unfolding string_value
input_audio m =
    let u = string_value (codes "data" ∷ codes "audio_url" ∷ codes "url" ∷ codes "source" ∷ []) m in
    if is_empty u
    then []
    else record {
      kind = codes "audio";
      url = u;
      name = [];
      mime_type =
          string_value
            (codes "mime_type" ∷ codes "mimeType" ∷ codes "format" ∷ codes "content_type" ∷ []) m;
      detail = [];
    }
      ∷ []

-- `switch typ`.
unfoldable pub typed_files : Text → Fields → List Attachment
unfolding nested_image input_image input_file input_audio
typed_files typ m =
    if text_eq typ (codes "image_url")
    then nested_image m
    else if text_eq typ (codes "input_image") || text_eq typ (codes "image")
    then input_image m
    else if text_eq typ (codes "input_file") || text_eq typ (codes "file")
    then input_file m
    else if text_eq typ (codes "input_audio") || text_eq typ (codes "audio")
    then input_audio m
    else []

unfoldable pub part_files : Fields → List Attachment
unfolding direct_image typed_files string_at
part_files m = direct_image m ++ typed_files (string_at (codes "type") m) m

-- The loop over the parts; what is no object is passed over.
unfoldable pub parse_parts : Items → Text × List Attachment
unfolding part_text part_files
parse_parts Json.nil = ([], [])
parse_parts (Json.cons v vs) =
    let rest = parse_parts vs in
    elim (as_object (some v)) [
      | none ↦ rest
      | some m ↦ (part_text m ++ rest.0, part_files m ++ rest.1)
    ]

-- `parseContent`.
unfoldable pub parse_content : Ledger.Env → Value → Text × List Attachment
unfolding parse_parts
parse_content env (Json.arr ps) = parse_parts ps
parse_content env (Json.str s) = (s, [])
parse_content env v = (env.sprint v, [])
