-- ===== src/Server/Panics.antt =====
-- pkg/server/server.go, handleReadResource: the nil pointer that it dereferences.
use mcp_module.Common.{String, Option, none, some, lookup, ◌≡◌, ◌↔◌, refl, subst, ap, ◌∙◌}
use mcp_module.Json.{Runtime}
use mcp_module.I18n.{Translator}
use mcp_module.Protocol.{Result, ok, failed, Request}
use mcp_module.Protocol.Content.{ResourceContent}
use mcp_module.Server.Tables.{Tables, ResourceEntry}
use mcp_module.Server.Dispatch.{
  panicked, answer_resource, run_resource, read_resource_with, read_uri_params,
  handle_read_resource, handle_request, dispatch, method_of, Method, read_resource,
}
use mcp_module.Server.Replies.{Fits, handle_request-Fits, method_of-read_resource}

-- The handler of the resource that the request names returns a nil content without an error.
abbrev pub ReturnsNil : {W : Type 0} → Request → Tables W → W → Type 0
ReturnsNil {W} req s w =
    (uri : String) × (entry : ResourceEntry W) × (read_uri_params req.params ≡ some uri)
    × (lookup uri s.resources ≡ some entry)
    × ((entry.handler w uri).1 ≡ ok none)

module _ {W : Type 0} (go : Runtime) (translator : Translator) (req : Request) (s : Tables W)
    (w : W) where
  answer_resource-panicked :
      (r : Result (Option ResourceContent)) → answer_resource go req.id r ≡ panicked → r ≡ ok none
  unfolding answer_resource
  answer_resource-panicked (ok none) h = refl
  answer_resource-panicked (ok (some c)) h = cc
  answer_resource-panicked (failed m) h = cc

  run_resource-panicked :
      (uri : String) (o : Option (ResourceEntry W))
      → (run_resource go translator req w uri o).1 ≡ panicked
      → (entry : ResourceEntry W) × (o ≡ some entry) × ((entry.handler w uri).1 ≡ ok none)
  unfolding run_resource
  run_resource-panicked uri none h = cc
  run_resource-panicked uri (some e) h = (e, refl, answer_resource-panicked (e.handler w uri).1 h)

  read_resource_with-panicked :
      (o : Option String)
      → (read_resource_with go translator req s w o).1 ≡ panicked
      → (uri : String) × (entry : ResourceEntry W) × (o ≡ some uri)
        × (lookup uri s.resources ≡ some entry)
        × ((entry.handler w uri).1 ≡ ok none)
  unfolding read_resource_with
  read_resource_with-panicked none h = cc
  read_resource_with-panicked (some uri) h =
      let (entry, found, nil) = run_resource-panicked uri (lookup uri s.resources) h in
      (uri, entry, refl, found, nil)

  handle_read_resource-panicked_iff :
      ((handle_read_resource go translator req s w).1 ≡ panicked) ↔ ReturnsNil req s w
  unfolding handle_read_resource answer_resource
  handle_read_resource-panicked_iff = (
    read_resource_with-panicked (read_uri_params req.params),
    λ (uri, entry, params, found, nil). rw (params, found, nil) refl,
  )

dispatch-read_resource :
    {W : Type 0} (go : Runtime) (translator : Translator) (req : Request) (s : Tables W) (w : W)
    {m : Method}
    → m ≡ read_resource
    → dispatch go translator m req s w ≡ handle_read_resource go translator req s w
unfolding dispatch
dispatch-read_resource go translator req s w e = rw e refl

read_resource_name : method_of "resources/read" ≡ read_resource
unfolding method_of
read_resource_name = refl

-- The server's own code panics exactly where the method is "resources/read" and the handler of the
-- registered resource that the request names returns a nil content without an error.
pub handle_request-panicked_iff :
    {W : Type 0} (go : Runtime) (translator : Translator) (req : Request) (s : Tables W) (w : W)
    → ((handle_request go translator req s w).1 ≡ panicked)
      ↔ (req.method ≡ "resources/read") × ReturnsNil req s w
unfolding handle_request
handle_request-panicked_iff go translator req s w = (
  λ h.
      let m : method_of req.method ≡ read_resource =
        subst (Fits (method_of req.method) req.id) h (handle_request-Fits go translator req s w) in
      (
        method_of-read_resource req.method m,
        (handle_read_resource-panicked_iff go translator req s w).0
            (rw (dispatch-read_resource go translator req s w m) at h),
      ),
  λ (m, nil).
      rw (dispatch-read_resource go translator req s w (ap method_of m ∙ read_resource_name))
        ((handle_read_resource-panicked_iff go translator req s w).1 nil),
)
