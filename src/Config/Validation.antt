-- ===== src/Config/Validation.antt =====
-- What the Validate methods of pkg/config accept, and which entry an error names.
use mcp_module.Common.{
  ℕ, ◌≤◌, String, false, none, ◌≡◌, ◌≢◌, ◌↔◌, ◌⊎◌, inl, inr, refl, arith, eq_iff, ◌==◌,
}
use mcp_module.Common.Int.{ℤ, pos, negsuc}
use mcp_module.Config.{
  ServerConfig, ContainerConfig, validate_server, validate_container, out_of_range,
}

-- A server has a name and one of the two transports, with what that transport needs.
abbrev pub IsServer : ServerConfig → Type 0
IsServer c =
    (c.name ≢ "")
    × (((c.transport ≡ "stdio") × (c.command ≢ "")) ⊎ ((c.transport ≡ "http") × (c.url ≢ "")))

-- A port number, or 0 for none.
pub data IsPort : ℤ → Type 0 where
  port : (n : ℕ) → n ≤ 65535 → IsPort (pos n)

abbrev pub IsContainer : ContainerConfig → Type 0
IsContainer c = (c.image ≢ "") × IsPort c.port × IsPort c.host_port

pub ne_empty : (s : String) → s ≢ "" → (s == "") ≡ false
ne_empty s h = ground (arith, eq_iff s "")

module _ (c : ServerConfig) where
  accepted-IsServer : validate_server c ≡ none → IsServer c
  unfolding validate_server
  accepted-IsServer h = ground (
    arith,
    eq_iff c.name "",
    eq_iff c.transport "",
    eq_iff c.transport "stdio",
    eq_iff c.transport "http",
    eq_iff c.command "",
    eq_iff c.url "",
  )

  IsServer-accepted : IsServer c → validate_server c ≡ none
  unfolding validate_server
  IsServer-accepted (named, inl (t, command)) =
      rw (ne_empty c.name named, t, ne_empty c.command command) refl
  IsServer-accepted (named, inr (t, url)) = rw (ne_empty c.name named, t, ne_empty c.url url) refl

-- ServerConfig.Validate returns nil exactly for a server with a name, and with the stdio transport
-- and a command or the http transport and a URL.
pub validate_server_iff : (c : ServerConfig) → (validate_server c ≡ none) ↔ IsServer c
validate_server_iff c = (accepted-IsServer c, IsServer-accepted c)

out_of_range-IsPort : (p : ℤ) → out_of_range p ≡ false → IsPort p
out_of_range-IsPort (pos n) h = port n (ground arith)
out_of_range-IsPort (negsuc n) h = cc

IsPort-in_range : {p : ℤ} → IsPort p → out_of_range p ≡ false
IsPort-in_range (port n h) = ground arith

module _ (c : ContainerConfig) where
  accepted_fields :
      validate_container c ≡ none
      → (c.image ≢ "") × (out_of_range c.port ≡ false) × (out_of_range c.host_port ≡ false)
  unfolding validate_container
  accepted_fields h = ground (arith, eq_iff c.image "")

  accepted-IsContainer : validate_container c ≡ none → IsContainer c
  accepted-IsContainer h =
      let (image, p, q) = accepted_fields h in
      (image, out_of_range-IsPort c.port p, out_of_range-IsPort c.host_port q)

  IsContainer-accepted : IsContainer c → validate_container c ≡ none
  unfolding validate_container
  IsContainer-accepted (image, p, q) =
      rw (ne_empty c.image image) (rw (IsPort-in_range p, IsPort-in_range q) refl)

-- ContainerConfig.Validate returns nil exactly for a container with an image whose two ports lie
-- between 0 and 65535.
pub validate_container_iff : (c : ContainerConfig) → (validate_container c ≡ none) ↔ IsContainer c
validate_container_iff c = (accepted-IsContainer c, IsContainer-accepted c)
