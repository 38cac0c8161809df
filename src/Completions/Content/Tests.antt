-- ===== src/Completions/Content/Tests.antt =====
-- A part of a message with an image, for internal/web/multimodal.go.
use m365_copilot2api.Json
use m365_copilot2api.Prelude.{refl, ◌≡◌, map, [], ◌∷◌, codes, text_eq, trim_space}
use m365_copilot2api.Json.{Fields}
use m365_copilot2api.Completions.Content.{part_files}

abbrev picture : Fields
picture =
    Json.field (codes "type") (Json.str (codes "input_image"))
      (Json.field (codes "image_url") (Json.str (codes "u")) Json.end)

-- The address is taken once as that of any part and once more as that of an image.
image_twice : map (λ f. f.url) (part_files picture) ≡ codes "u" ∷ codes "u" ∷ []
unfolding part_files text_eq trim_space
image_twice = refl
