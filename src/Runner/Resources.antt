-- ===== src/Runner/Resources.antt =====
-- challenges/runner/main.go: section4RegisterResourceAndRead. The handler keeps nothing.
use mcp_module.Common.{String, Option, some, List, [], ◌∷◌, codes, contains, if◌then◌else◌, ◌==◌}
use mcp_module.Json.{str, object, Runtime}
use mcp_module.Json.Text.{Digits}
use mcp_module.Protocol.{no_params, marshalled, Result, ok, failed}
use mcp_module.Protocol.Content.{ResourceContent}
use mcp_module.Server.Tables.{Tables, new_tables, register_resource}
use mcp_module.Runner.{
  FixtureInput, Verdict, pass, require, Rpc, must_request, run_one_rpc, require_answer, result_text,
  for_inputs,
}

module _ (i : FixtureInput) where
  abbrev pub body : ResourceContent
  body = record {
    uri = i.resource_uri;
    mime_type = "text/plain";
    text = i.resource_body;
    blob = "";
  }

  -- fmt's %q of the URI is left out of the error.
  unfoldable pub body_handler : Unit {0} → String → Unit {0} × Result (Option ResourceContent)
  body_handler w uri =
      (w, if uri == i.resource_uri then ok (some body) else failed "unexpected uri")

  unfoldable pub resource_server : Tables (Unit {0})
  unfolding body_handler register_resource new_tables
  resource_server =
      register_resource
        (record { uri = i.resource_uri; name = i.resource_name; description = ""; mime_type = "" })
        body_handler (new_tables "round-267-mcp-res" "0.267.0")

  module _ (go : Runtime) (digits : Digits) where
    unfoldable pub check_read : Rpc (Unit {0}) → List Verdict
    unfolding require require_answer result_text
    check_read rpc = require_answer rpc "[Section4][resources/read]" λ result.
        require (contains (codes i.resource_body) (result_text digits result))
          "[Section4][resources/read]" (pass "[Section4][resources/read]" ∷ [])

    -- An iteration of the loop: resources/list first, and then resources/read.
    unfoldable pub check_resource : List Verdict
    unfolding require require_answer result_text resource_server run_one_rpc check_read
    check_resource =
        let listed =
          run_one_rpc go resource_server tt (must_request go 20 "resources/list" no_params) in
        require_answer listed "[Section4][resources/list]" λ result.
          require (contains (codes i.resource_name) (result_text digits result))
            "[Section4][resources/list]"
            (check_read (
              run_one_rpc go resource_server listed.world (
                must_request go 21 "resources/read"
                  (marshalled (object (("uri", str i.resource_uri) ∷ []))))))

unfoldable pub section4 : Runtime → Digits → List FixtureInput → List Verdict
unfolding for_inputs check_resource
section4 go digits inputs = for_inputs (λ i. check_resource i go digits) inputs
