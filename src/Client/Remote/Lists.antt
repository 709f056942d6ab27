-- ===== src/Client/Remote/Lists.antt =====
-- pkg/client ListTools, ListResources and ListPrompts against pkg/server.
use Prim.Native.Nat.{◌+◌}
use mathlib.Core.List.Perm
use mathlib.Core.List.{filter_map}
use mcp_module.Common.{
  Bool-cases, ◌==◌, subst, ℕ, String, none, some, List, [], ◌∷◌, map, Dict, lookup, IsDict, ◌≡◌,
  refl, ◌∙◌, traverse, traverse-traverse, RoundTrips, >>=-eq-some, All, Perm, keys, Option-cases,
  inl, inr,
}
use mcp_module.Json.{Value, Runtime}
use mcp_module.Json.Scalars.{traverse-map}
use mcp_module.Range.{range, at_keys, values, VisitsAll, range-perm}
use mcp_module.I18n.{Translator}
use mcp_module.Protocol.Content.{Tool, Resource, Prompt}
use mcp_module.Protocol.Codec.{encode_tool, decode_tool}
use mcp_module.Protocol.Codec.Messages.{MapSurvives, decode-encode_tool}
use mcp_module.Protocol.Codec.Catalog.{
  encode_resource, decode_resource, encode_prompt, decode_prompt,
}
use mcp_module.Protocol.Codec.CatalogLaws.{decode-encode_resource, decode-encode_prompt}
use mcp_module.Server.Tables.{Tables, ToolEntry, ResourceEntry, PromptEntry}
use mcp_module.Server.Dispatch.{
  reply, handle_request, respond, dispatch, method_of, list_field, handle_list_tools,
  handle_list_resources, handle_list_prompts,
}
use mcp_module.Client.Results.{
  received, list_tools_result, list_resources_result, list_prompts_result,
}
use mcp_module.Client.Operations.{list_tools, list_resources, list_prompts}
use mcp_module.Client.Exchange.{IsExact, Joined, exchange}
use mcp_module.Client.Remote.{
  wire_id, arrived, after, exchange-reply_bare, list_result-list_field, parse_respond, respond_id,
  respond_error,
}

-- What holds of every value that the map binds holds of those that `range` visits.
module _ {ℓ κ} {V : Type ℓ} (P : V → Type κ) where
  All-lookup : (k : String) (m : Dict V) {v : V} → All (λ e. P e.1) m → lookup k m ≡ some v → P v
  unfolding lookup
  All-lookup k [] _ e = cc
  All-lookup k ((j, w) ∷ m) {v} (h, hs) e = elim (Bool-cases (j == k)) [
    | inl same ↦
        let found : some w ≡ some v = rw same at e in let equal : w ≡ v = cc in subst P equal h
    | inr other ↦ All-lookup k m hs (rw other at e)
  ]

  All-at_keys : (m : Dict V) (ks : List String) → All (λ e. P e.1) m → All P (at_keys m ks)
  unfolding at_keys filter_map
  All-at_keys m [] h = tt
  All-at_keys m (k ∷ ks) h = elim (Option-cases (lookup k m)) [
    | inl missing ↦ rw missing (All-at_keys m ks h)
    | inr (v, found) ↦ rw found (All-lookup k m h found, All-at_keys m ks h)
  ]

tool-RoundTrips :
    (go : Runtime) (t : Tool)
    → MapSurvives go t.input_schema
    → RoundTrips encode_tool (decode_tool go) t
unfolding RoundTrips
tool-RoundTrips go t h = >>=-eq-some (encode_tool t) (decode_tool go) (decode-encode_tool go t h)

module _ {W : Type 0} (go : Runtime) where
  abbrev pub SchemasSurvive : Dict (ToolEntry W) → Type 0
  SchemasSurvive m = All (λ e. MapSurvives go e.1.tool.input_schema) m

  All-tools :
      (es : List (ToolEntry W))
      → All (λ e. MapSurvives go e.tool.input_schema) es
      → All (RoundTrips encode_tool (decode_tool go)) (map (λ e. e.tool) es)
  All-tools [] _ = tt
  All-tools (e ∷ es) (h, hs) = (tool-RoundTrips go e.tool h, All-tools es hs)

-- The entries that the list operations report: those of the table, in some order.
module _ {ℓ κ} {V : Type ℓ} {B : Type κ} (f : V → B) (go : Runtime) (m : Dict V) where
  abbrev pub listed : List B
  listed = map f (range go m)

  pub listed-perm : VisitsAll go → IsDict m → Perm listed (map f (values m))
  listed-perm v d = Perm.map f (range-perm go m v d)

module _ {W : Type 0} (go : Runtime) (translator : Translator) (s : Tables W) (w : W) (n : ℕ) where
  pub tools_handled :
      {vs : List Value}
      → traverse encode_tool (listed (λ (e : ToolEntry W). e.tool) go s.tools) ≡ some vs
      → handle_request go translator (arrived n "tools/list" none) s w
        ≡ (w, reply (respond go (wire_id n) (some (list_field "tools" vs))))
  unfolding handle_request method_of dispatch handle_list_tools
  tools_handled e = rw e refl

  pub resources_handled : handle_request go translator (arrived n "resources/list" none) s w ≡ (
    w,
    reply (
        respond go (wire_id n) (
          some (
            list_field "resources" (
              map encode_resource (listed (λ (e : ResourceEntry W). e.resource) go s.resources))))),
  )
  unfolding handle_request method_of dispatch handle_list_resources
  resources_handled = refl

  pub prompts_handled : handle_request go translator (arrived n "prompts/list" none) s w ≡ (
    w,
    reply (
        respond go (wire_id n) (
          some (
            list_field "prompts"
              (map encode_prompt (listed (λ (e : PromptEntry W). e.prompt) go s.prompts))))),
  )
  unfolding handle_request method_of dispatch handle_list_prompts
  prompts_handled = refl

module _ {W : Type 0} (go : Runtime) (translator : Translator) (s : Tables W) (c : Joined W)
    (exact : IsExact go (c.next_id + 1)) where
  -- ListTools returns the registered tools in the order of the server's `range` over its table, and
  -- so each of them once, where their schemas survive the wire, the table is a map and the request's
  -- id is below 2^63 and exact as a float64.
  pub list_tools-perm :
      VisitsAll go
      → IsDict s.tools
      → SchemasSurvive go s.tools
      → (list_tools go (exchange go translator s) c
          ≡ (after c c.world, received (map (λ e. e.tool) (range go s.tools))))
        × Perm (map (λ e. e.tool) (range go s.tools)) (map (λ e. e.tool) (values s.tools))
  unfolding list_tools list_tools_result range
  list_tools-perm visits d h =
      let ts = listed (λ (e : ToolEntry W). e.tool) go s.tools in
      let (vs, written, read) =
        traverse-traverse encode_tool (decode_tool go) ts
          (All-tools go _ (All-at_keys _ s.tools (go.range_order (keys s.tools)) h)) in
      let back = list_result-list_field "tools" (decode_tool go) vs refl ∙ read in
      (
        rw
            (exchange-reply_bare go translator s c exact "tools/list"
              (tools_handled go translator s c.world (c.next_id + 1) written) (respond_id go _ _)
              (respond_error go _ _))
            (rw (parse_respond go (list_tools_result go) (wire_id (c.next_id + 1)) _ back) refl),
        listed-perm (λ e. e.tool) go s.tools visits d,
      )

  -- ListResources returns the registered resources, each once, where the table is a map and the
  -- request's id is below 2^63 and exact as a float64.
  pub list_resources-perm :
      VisitsAll go
      → IsDict s.resources
      → (rs : List Resource) × (list_resources go (exchange go translator s) c
          ≡ (after c c.world, received rs))
        × Perm rs (map (λ e. e.resource) (values s.resources))
  unfolding list_resources list_resources_result
  list_resources-perm visits d =
      let rs = listed (λ (e : ResourceEntry W). e.resource) go s.resources in
      let back =
        list_result-list_field "resources" decode_resource (map encode_resource rs) refl
        ∙ traverse-map decode_resource encode_resource decode-encode_resource rs in
      (
        rs,
        rw
            (exchange-reply_bare go translator s c exact "resources/list"
              (resources_handled go translator s c.world (c.next_id + 1)) (respond_id go _ _)
              (respond_error go _ _))
            (rw (parse_respond go list_resources_result (wire_id (c.next_id + 1)) _ back) refl),
        listed-perm (λ e. e.resource) go s.resources visits d,
      )

  -- ListPrompts returns the registered prompts, each once, where the table is a map and the
  -- request's id is below 2^63 and exact as a float64.
  pub list_prompts-perm :
      VisitsAll go
      → IsDict s.prompts
      → (ps : List Prompt) × (list_prompts go (exchange go translator s) c
          ≡ (after c c.world, received ps))
        × Perm ps (map (λ e. e.prompt) (values s.prompts))
  unfolding list_prompts list_prompts_result
  list_prompts-perm visits d =
      let ps = listed (λ (e : PromptEntry W). e.prompt) go s.prompts in
      let back =
        list_result-list_field "prompts" decode_prompt (map encode_prompt ps) refl
        ∙ traverse-map decode_prompt encode_prompt decode-encode_prompt ps in
      (
        ps,
        rw
            (exchange-reply_bare go translator s c exact "prompts/list"
              (prompts_handled go translator s c.world (c.next_id + 1)) (respond_id go _ _)
              (respond_error go _ _))
            (rw (parse_respond go list_prompts_result (wire_id (c.next_id + 1)) _ back) refl),
        listed-perm (λ e. e.prompt) go s.prompts visits d,
      )
