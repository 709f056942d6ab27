-- ===== src/Tests/Interfaces.antt =====
-- Registrations at an HTTP server.
use mcp_module.Common.{ℕ, ◌+◌, List, [], ◌∷◌, refl}
use mcp_module.Protocol.{ok, failed}
use mcp_module.Server.Http.{HttpServer, new_http_server, default_http_server_config}
use mcp_module.Server.Tables.{new_tables}
use mcp_module.Server.Interface.{http_server, http_server-Implements}
use mcp_module.Server.Interface.Registered.{
  Registration, tool, prompt, register_all, Offers, register_all-Offers,
}
use mcp_module.Tests.Sample.{echo, greet}

abbrev plain_server : HttpServer ℕ
plain_server = new_http_server "demo" "1.0.0" default_http_server_config

-- The second registration of the tool replaces the first.
abbrev registrations : List (Registration ℕ)
registrations =
    tool echo (λ w _. (w, failed "no"))
    ∷ prompt greet (λ w _. (w, ok []))
    ∷ tool echo (λ w _. (w + 1, failed "twice"))
    ∷ []

register_all-Offers_example :
    Offers registrations
      (record { name = "demo"; version = "1.0.0" })
      http_server
      (λ s. s.tables)
      (register_all http_server registrations plain_server)
unfolding new_http_server new_tables
register_all-Offers_example =
    register_all-Offers registrations "demo" "1.0.0" http_server (λ s. s.tables)
      http_server-Implements plain_server refl
