-- ===== src/Addresses.antt =====
-- The source addresses and the default network of tools/init/init/shell.py, and set_network_info
-- of tools/init/init/main.py.
pub mod Ranges
use microstack.Base.{ℕ, String, ◌<>◌, Option, none, some, List, [], ◌∷◌, ◌++◌, split, decimal}
use microstack.Json.{Json}
use microstack.Machine.{Host, Error, key_error, index_error}
use microstack.Machine.Monad.{Outcome, ok, raised, Action, pure, and_then, ◌>>=◌, ◌>>◌}
use microstack.Shell.{check, config_get}

-- What netifaces and netaddr know: the default gateway of IPv4 with its interface, the first
-- address of an interface and its netmask, and the number of bits of a netmask.
pub record Netifaces : Type 0 where
  pub gateway : Outcome (String × String)
  pub addr : String → Outcome String
  pub netmask : String → Outcome String
  pub netmask_bits : String → Outcome ℕ

-- `except (KeyError, IndexError): return None`
unfoldable pub or_none : Outcome String → Outcome (Option String)
or_none (ok a) = ok (some a)
or_none (raised (key_error k)) = ok none
or_none (raised (index_error k)) = ok none
or_none (raised e) = raised e

unfoldable pub fallback_source_address : Netifaces → Outcome (Option String)
unfolding or_none
fallback_source_address n = or_none (and_then n.gateway λ (gate, interface). n.addr interface)

unfoldable pub default_source_address : Host → Action Json
default_source_address h = config_get h ("config.network.default-source-ip" ∷ [])

-- `parts[-1] = last`, of the parts that `split` returns, of which there is one at least.
unfoldable pub set_last : String → List String → List String
set_last last [] = []
set_last last (part ∷ []) = last ∷ []
set_last last (part ∷ next ∷ rest) = part ∷ set_last last (next ∷ rest)

-- `'.'.join(parts)`
unfoldable pub join_dots : List String → String
join_dots [] = ""
join_dots (part ∷ []) = part
join_dots (part ∷ next ∷ rest) = part <> ("." <> join_dots (next ∷ rest))

unfoldable pub cidr_of : String → ℕ → String
unfolding set_last join_dots
cidr_of gate bits = join_dots (set_last ("0/" <> decimal bits) (split b'.' gate))

-- The address, the gateway and the range.
pub record DefaultNetwork : Type 0 where
  pub ip_address : String
  pub gateway : String
  pub cidr : String

unfoldable pub default_network : Netifaces → Outcome DefaultNetwork
unfolding cidr_of
default_network n = and_then n.gateway λ (gate, interface).
    and_then (n.netmask interface) λ netmask. and_then (n.addr interface) λ ip_address.
      and_then (n.netmask_bits netmask)
        λ bits. ok (record { ip_address = ip_address; gateway = gate; cidr = cidr_of gate bits })

-- `check('snapctl', 'set', '{key}={value}')`
abbrev pub set_key : Host → String → String → Action (Unit {0})
set_key h key value = check h ("snapctl" ∷ "set" ∷ (key <> ("=" <> value)) ∷ [])

unfoldable pub store_network : Host → String → Outcome DefaultNetwork → Action (Unit {0})
store_network h fqdn (raised e) = pure tt
store_network h fqdn (ok network) = do
  set_key h "config.network.ext-gateway" network.gateway
  set_key h "config.network.ext-cidr" network.cidr
  set_key h "config.network.control-ip" network.ip_address
  set_key h "config.network.node-fqdn" fqdn

-- `set_network_info`, for the name that `socket.getfqdn` returns.
unfoldable pub set_network_info : Host → Netifaces → String → Action (Unit {0})
unfolding default_network store_network
set_network_info h n fqdn = store_network h fqdn (default_network n)
