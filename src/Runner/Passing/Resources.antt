-- ===== src/Runner/Passing/Resources.antt =====
-- Section 4 of the runner.
use mcp_module.Common.{
  some, List, [], ◌∷◌, map, insert, lookup, ◌≡◌, refl, ap, ◌∙◌, eq_refl, arith, All,
}
use mcp_module.Json.{Runtime}
use mcp_module.Json.Text.{Digits, IsPlain}
use mcp_module.I18n.{noop_translator}
use mcp_module.Range.{VisitsAll, range-single}
use mcp_module.Protocol.{no_params, marshalled, ok, new_response, is_error}
use mcp_module.Protocol.Content.{Resource}
use mcp_module.Protocol.Codec.Catalog.{encode_resource, encode_content}
use mcp_module.Server.Dispatch.{reply, respond, answer_resource, list_field}
use mcp_module.Client.Operations.{uri_params}
use mcp_module.Client.Remote.{wire_id}
use mcp_module.Client.Remote.Lists.{resources_handled}
use mcp_module.Client.Remote.Reads.{resource_handled}
use mcp_module.Runner.{FixtureInput, pass, require, run_one_rpc, must_request, result_text}
use mcp_module.Runner.Answers.{KeepsSmall, replied, run-bare, run-with}
use mcp_module.Runner.Shown.{resource_shown, body_shown}
use mcp_module.Runner.Resources.{body, body_handler, resource_server, check_resource, section4}
use mcp_module.Runner.Passing.{for_inputs-map}

-- The resource's name and its body are plain.
abbrev pub IsReadable : FixtureInput → Type 0
IsReadable i = IsPlain i.resource_name × IsPlain i.resource_body

module _ (go : Runtime) (small : KeepsSmall go) (i : FixtureInput) where
  abbrev resource : Resource
  resource = record {
    uri = i.resource_uri;
    name = i.resource_name;
    description = "";
    mime_type = "";
  }

  list_rpc :
      VisitsAll go
      → run_one_rpc go (resource_server i) tt (must_request go 20 "resources/list" no_params)
        ≡ replied tt (
            respond go (wire_id 20) (some (list_field "resources" (encode_resource resource ∷ []))))
  unfolding resource_server insert
  list_rpc visits = run-bare go small (resource_server i) tt 20 (omega arith) "resources/list" _ (
      resources_handled go noop_translator (resource_server i) tt 20
      ∙ ap
          (λ es. (
            tt,
            reply (
                respond go (wire_id 20)
                  (some (list_field "resources" (map encode_resource (map (λ e. e.resource) es))))),
          ))
          (range-single go i.resource_uri _ visits))

  resource_found :
      lookup i.resource_uri (resource_server i).resources
      ≡ some (record { resource = resource; handler = body_handler i })
  unfolding resource_server insert lookup
  resource_found = rw (eq_refl i.resource_uri) refl

  handler_answers : body_handler i tt i.resource_uri ≡ (tt, ok (some (body i)))
  unfolding body_handler
  handler_answers = rw (eq_refl i.resource_uri) refl

  read_rpc :
      run_one_rpc go
        (resource_server i)
        tt
        (must_request go 21 "resources/read" (marshalled (uri_params i.resource_uri)))
      ≡ replied tt
          (respond go (wire_id 21) (some (list_field "contents" (encode_content (body i) ∷ []))))
  unfolding answer_resource
  read_rpc =
      run-with go small (resource_server i) tt 21 (omega arith) "resources/read" _
        (uri_params i.resource_uri)
        (resource_handled go noop_translator (resource_server i) tt (wire_id 21) i.resource_uri
          (ok (some (body i))) resource_found handler_answers)

  module _ (digits : Digits) (h : IsReadable i) where
    check_resource-pass :
        VisitsAll go → check_resource i go digits ≡ pass "[Section4][resources/read]" ∷ []
    unfolding check_resource result_text respond new_response is_error uri_params
    check_resource-pass visits = rw (list_rpc visits) (
        rw (resource_shown digits i.resource_uri i.resource_name h.0, require)
          (rw read_rpc (rw (body_shown digits i.resource_uri i.resource_body h.1, require) refl)))

-- The fourth section passes once for each input.
pub section4-pass :
    (go : Runtime) (digits : Digits)
    → KeepsSmall go
    → VisitsAll go
    → (inputs : List FixtureInput) → All IsReadable inputs
    → section4 go digits inputs ≡ map (λ _. pass "[Section4][resources/read]") inputs
unfolding section4
section4-pass go digits small visits =
    for_inputs-map (λ i. check_resource i go digits) (pass "[Section4][resources/read]") IsReadable
      (λ i h. check_resource-pass go small i digits h visits)
