-- ===== src/Client/Remote/Reads.antt =====
-- pkg/client ReadResource, GetPrompt and Initialize against pkg/server.
use Prim.Native.Nat.{◌+◌}
use mcp_module.Common.{
  String, Option, some, List, [], ◌∷◌, map, Dict, lookup, ◌≡◌, refl, ◌∙◌, traverse,
}
use mcp_module.Json.{
  Any, Runtime, str, struct_of, fields, members, find_field, string_of, dict_of, entry_of,
}
use mcp_module.Json.Fields.{fields-members}
use mcp_module.Json.Scalars.{traverse-map}
use mcp_module.I18n.{Translator}
use mcp_module.Protocol.{Result, ok, jsonrpc_version}
use mcp_module.Protocol.Content.{ResourceContent, PromptMessage}
use mcp_module.Protocol.Codec.Catalog.{
  encode_content, decode_content, encode_message, decode_message,
}
use mcp_module.Protocol.Codec.CatalogLaws.{decode-encode_content, decode-encode_message}
use mcp_module.Server.Tables.{Tables, ResourceEntry, PromptEntry}
use mcp_module.Server.Dispatch.{
  handle_request, dispatch, method_of, handle_read_resource, run_resource, read_uri_params,
  answer_resource, handle_get_prompt, run_prompt, read_prompt_params, answer_prompt, list_field,
}
use mcp_module.Client.Results.{received, read_resource_result, get_prompt_result}
use mcp_module.Client.Operations.{
  read_resource, get_prompt, first_content, uri_params, prompt_params,
}
use mcp_module.Client.Exchange.{IsExact, Joined, exchange}
use mcp_module.Client.Remote.{
  wire_id, after, exchange-reply, list_result-list_field, parse_respond, respond_id, respond_error,
}

read_uri_params_lem : (uri : String) → read_uri_params (some (uri_params uri)) ≡ some uri
unfolding read_uri_params uri_params struct_of fields members find_field string_of
read_uri_params_lem uri = refl

string_entries :
    (args : Dict String)
    → traverse (entry_of (λ v. string_of (some v))) (map (λ e. (e.0, str e.1)) args) ≡ some args
unfolding traverse entry_of string_of
string_entries [] = refl
string_entries (e ∷ args) = rw (string_entries args) refl

read_prompt_params_lem :
    (name : String) (args : Dict String)
    → read_prompt_params (some (prompt_params name args)) ≡ some (name, args)
unfolding read_prompt_params prompt_params struct_of fields members find_field string_of dict_of
read_prompt_params_lem name args =
    rw (fields-members (map (λ e. (e.0, str e.1)) args)) (rw (string_entries args) refl)

contents_back :
    (content : ResourceContent)
    → read_resource_result (list_field "contents" (encode_content content ∷ []))
      ≡ some (content ∷ [])
unfolding read_resource_result traverse
contents_back content =
    list_result-list_field "contents" decode_content (encode_content content ∷ []) refl
    ∙ rw (decode-encode_content content) refl

messages_back :
    (ms : List PromptMessage)
    → get_prompt_result (list_field "messages" (map encode_message ms)) ≡ some ms
unfolding get_prompt_result
messages_back ms =
    list_result-list_field "messages" decode_message (map encode_message ms) refl
    ∙ traverse-map decode_message encode_message decode-encode_message ms

module _ {W : Type 0} (go : Runtime) (translator : Translator) (s : Tables W) (w : W) {w' : W}
    (id : Any) where
  pub resource_handled :
      (uri : String) {entry : ResourceEntry W} (r : Result (Option ResourceContent))
      → lookup uri s.resources ≡ some entry
      → entry.handler w uri ≡ (w', r)
      → handle_request go translator
          (record {
            jsonrpc = jsonrpc_version;
            id = id;
            method = "resources/read";
            params = some (uri_params uri);
          })
          s
          w
        ≡ (w', answer_resource go id r)
  unfolding handle_request method_of dispatch handle_read_resource
  resource_handled uri r found h =
      rw (read_uri_params_lem uri) (rw (found, run_resource) (rw h refl))

  pub prompt_handled :
      (name : String) (args : Dict String) {entry : PromptEntry W} (r : Result (List PromptMessage))
      → lookup name s.prompts ≡ some entry
      → entry.handler w args ≡ (w', r)
      → handle_request go translator
          (record {
            jsonrpc = jsonrpc_version;
            id = id;
            method = "prompts/get";
            params = some (prompt_params name args);
          })
          s
          w
        ≡ (w', answer_prompt go id r)
  unfolding handle_request method_of dispatch handle_get_prompt
  prompt_handled name args r found h =
      rw (read_prompt_params_lem name args) (rw (found, run_prompt) (rw h refl))

module _ {W : Type 0} (go : Runtime) (translator : Translator) (s : Tables W) (c : Joined W)
    (exact : IsExact go (c.next_id + 1)) {w' : W} where
  -- ReadResource returns the content that the handler registered under the URI gives, where the
  -- request's id is below 2^63 and exact as a float64.
  pub read_resource-ok :
      (uri : String) {entry : ResourceEntry W} (content : ResourceContent)
      → lookup uri s.resources ≡ some entry
      → entry.handler c.world uri ≡ (w', ok (some content))
      → read_resource go (exchange go translator s) uri c ≡ (after c w', received content)
  unfolding read_resource answer_resource first_content
  read_resource-ok uri content found h =
      rw
        (exchange-reply go translator s c exact "resources/read" (uri_params uri)
          (resource_handled go translator s c.world (wire_id (c.next_id + 1)) uri
            (ok (some content)) found h)
          (respond_id go _ _) (respond_error go _ _))
        (rw
          (parse_respond go read_resource_result (wire_id (c.next_id + 1)) _
            (contents_back content))
          refl)

  -- GetPrompt returns the messages that the handler registered under the name gives for these
  -- arguments, where the request's id is below 2^63 and exact as a float64.
  pub get_prompt-ok :
      (name : String) (args : Dict String) {entry : PromptEntry W} (messages : List PromptMessage)
      → lookup name s.prompts ≡ some entry
      → entry.handler c.world args ≡ (w', ok messages)
      → get_prompt go (exchange go translator s) name args c ≡ (after c w', received messages)
  unfolding get_prompt answer_prompt
  get_prompt-ok name args messages found h =
      rw
        (exchange-reply go translator s c exact "prompts/get" (prompt_params name args)
          (prompt_handled go translator s c.world (wire_id (c.next_id + 1)) name args (ok messages)
            found h)
          (respond_id go _ _) (respond_error go _ _))
        (rw
          (parse_respond go get_prompt_result (wire_id (c.next_id + 1)) _ (messages_back messages))
          refl)
