-- ===== src/Server/Tests/ImportTest.antt =====
-- A message with a text, a nested text and an attachment.
use go_proton_api.Base.{
  ℕ, String, string_eq, nat_eq, true, false, none, some, List, [], ◌∷◌, ◌≡◌, refl,
}
use go_proton_api.Server.Import.{
  Part, Section, Sections, section, more, no_more, collect, mime_type_of, parts_of,
}

abbrev part : String → String → List ℕ → Part
part main subtype body = record {
  content_type = some (main, subtype);
  header = none;
  has_disposition = false;
  body = body;
  has_children = true;
}

abbrev leaf : String → String → List ℕ → Section
leaf main subtype body = section (part main subtype body) no_more

abbrev parts : Sections
parts = more (leaf "text" "html" (1 ∷ [])) (
    more (section (part "multipart" "mixed" []) (more (leaf "text" "plain" (2 ∷ [])) no_more))
      (more (leaf "image" "png" (3 ∷ [])) no_more))

both_texts :
    collect (section (part "multipart" "mixed" []) parts)
    ≡ some ((1 ∷ []) ∷ (2 ∷ []) ∷ [], part "image" "png" (3 ∷ []) ∷ [])
unfolding collect
both_texts = refl

-- Two children are no attachments, so the type stays.
stays_mixed :
    mime_type_of ("multipart", "related") (part "multipart" "related" []) (parts_of parts) 1
    ≡ ("multipart", "mixed")
unfolding mime_type_of
stays_mixed = refl
