-- ===== src/I18n.antt =====
-- pkg/i18n/translator.go, and the translator seams of pkg/protocol and pkg/server.
use mcp_module.Common.{ℕ, String, Option, none, some, Dict}
use mcp_module.Json.{Any}

-- The interface Translator; the context argument is not used by any implementation in the module.
pub record Translator : Type 0 where
  pub t : String → Dict Any → String
  pub t_plural : String → ℕ → Dict Any → String

-- NoopTranslator: the message id, unchanged.
abbrev pub noop_translator : Translator
noop_translator = record { t = λ msg_id _. msg_id; t_plural = λ msg_id _ _. msg_id }

-- SetTranslator: the value that the package variable holds afterwards.
unfoldable pub set_translator : Option Translator → Translator
set_translator none = noop_translator
set_translator (some t) = t
