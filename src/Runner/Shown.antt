-- ===== src/Runner/Shown.antt =====
-- The texts for which the runner looks in a result, in what the server writes.
use mcp_module.Common.{
  traverse, String, Bool, true, false, some, [], ◌∷◌, Dict, codes, contains, contains-nothing, ◌≡◌,
  refl, ap, ◌∙◌, eq_iff, Bool-cases, inl, inr, ◌==◌,
}
use mcp_module.Json.{Value, str, members, items, arr, part}
use mcp_module.Json.Text.{
  Digits, render, IsPlain, Mentions, itself, in_array, in_object, first, MentionsMember, this,
  later, contains-render,
}
use mcp_module.Protocol.Content.{new_text_content}
use mcp_module.Protocol.Codec.{encode_tool, encode_block, encode_result, encode_any_map}
use mcp_module.Protocol.Codec.Catalog.{
  encode_resource, encode_content, encode_prompt, encode_message,
}
use mcp_module.Server.Dispatch.{list_field}

module _ (s : String) where
  here :
      (empty : Bool) (k : String) (v : Value) (rest : Dict Value)
      → empty ≡ false
      → Mentions s v
      → MentionsMember s (members (part empty k v rest))
  unfolding part members
  here empty k v rest e m = rw e (this m)

  beyond :
      (empty : Bool) (k : String) (v : Value) (rest : Dict Value)
      → MentionsMember s (members rest)
      → MentionsMember s (members (part empty k v rest))
  unfolding part members
  beyond true k v rest m = m
  beyond false k v rest m = later m

  -- What a list of one document mentions.
  single : (name : String) (v : Value) → Mentions s v → Mentions s (list_field name (v ∷ []))
  unfolding list_field members items
  single name v m = in_object (this (in_array (first m)))

-- An empty text is found everywhere.
shown :
    (digits : Digits) (s : String) (v : Value)
    → IsPlain s
    → ((s == "") ≡ false → Mentions s v)
    → contains (codes s) (render digits v) ≡ true
shown digits s v plain m = elim (Bool-cases (s == "")) [
  | inl empty ↦
      ap (λ t. contains (codes t) (render digits v)) ((eq_iff s "").0 empty)
      ∙ contains-nothing (render digits v)
  | inr other ↦ contains-render digits s v plain (m other)
]

abbrev pub text_block : String → Value
text_block text = encode_block (new_text_content text)

block-Mentions : (text : String) → (text == "") ≡ false → Mentions text (text_block text)
unfolding encode_block new_text_content
block-Mentions text other = in_object (
    beyond text false "type" (str "text") _
      (here text (text == "") "text" (str text) _ other itself))

module _ (digits : Digits) where
  pub tool_shown :
      (name description : String)
      → IsPlain name
      → (v : Value) × (encode_tool
            (record { name = name; description = description; input_schema = [] })
          ≡ some v)
        × (contains (codes name) (render digits (list_field "tools" (v ∷ []))) ≡ true)
  unfolding encode_tool encode_any_map traverse
  tool_shown name description plain = (
    _,
    refl,
    shown digits name _ plain
        (λ _. single name "tools" _ (in_object (here name false "name" (str name) _ refl itself))),
  )

  pub echo_shown :
      (text : String)
      → IsPlain text
      → contains (codes text) (
          render digits
            (encode_result (record { content = new_text_content text ∷ []; is_error = false })))
        ≡ true
  unfolding encode_result items
  echo_shown text plain = shown digits text _ plain λ other. in_object (
      here text false "content" (arr (items (text_block text ∷ []))) _ refl
        (in_array (first (block-Mentions text other))))

  pub resource_shown :
      (uri name : String)
      → IsPlain name
      → contains (codes name) (
          render digits (
            list_field "resources" (
              encode_resource (record { uri = uri; name = name; description = ""; mime_type = "" })
              ∷ [])))
        ≡ true
  unfolding encode_resource
  resource_shown uri name plain = shown digits name _ plain λ _. single name "resources" _ (
      in_object
        (beyond name false "uri" (str uri) _ (here name false "name" (str name) _ refl itself)))

  pub body_shown :
      (uri text : String)
      → IsPlain text
      → contains (codes text) (
          render digits (
            list_field "contents" (
              encode_content
                (record { uri = uri; mime_type = "text/plain"; text = text; blob = "" })
              ∷ [])))
        ≡ true
  unfolding encode_content
  body_shown uri text plain = shown digits text _ plain λ other. single text "contents" _ (
      in_object (
        beyond text false "uri" (str uri) _ (
          beyond text false "mimeType" (str "text/plain") _
            (here text (text == "") "text" (str text) _ other itself))))

  pub prompt_shown :
      (name description : String)
      → IsPlain name
      → contains (codes name) (
          render digits (
            list_field "prompts" (
              encode_prompt (record { name = name; description = description; arguments = [] })
              ∷ [])))
        ≡ true
  unfolding encode_prompt
  prompt_shown name description plain =
      shown digits name _ plain
        λ _. single name "prompts" _ (in_object (here name false "name" (str name) _ refl itself))

  pub message_shown :
      (text : String)
      → IsPlain text
      → contains (codes text) (
          render digits (
            list_field "messages"
              (encode_message (record { role = "user"; content = new_text_content text }) ∷ [])))
        ≡ true
  unfolding encode_message
  message_shown text plain = shown digits text _ plain λ other. single text "messages" _ (
      in_object (
        beyond text false "role" (str "user") _
          (here text false "content" (text_block text) _ refl (block-Mentions text other))))
