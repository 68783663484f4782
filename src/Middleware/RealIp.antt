-- ===== src/Middleware/RealIp.antt =====
-- httpx/middleware/real_ip.go and real_ip_trust.go, with the key that rate_limit.go takes from them.
-- What net and net/netip do with addresses is a parameter, the record `NetIp`.
pub mod Trust
pub mod Forwarded
use arnon.Prelude.{
  ℕ, zero, suc, ◌+◌, Bool, true, false, not, ◌&&◌, ◌||◌, Option, none, some, List, [], ◌∷◌, ◌++◌,
  any, ltb, ◌==◌, if◌then◌else◌,
}
use arnon.Prelude.Strings.{Text, codes, same, has_prefix, trim_space, cut, lower}
use arnon.Http.{Request, Writer, Handler, get}

-- net.SplitHostPort (the host), netip.ParsePrefix, netip.ParseAddr, the prefix of one address,
-- Unmap of an IPv4 address in IPv6, Prefix.Contains, and the text of net.ParseIP under a /64 mask.
pub record NetIp (Address Prefix : Type 0) : Type 0 where
  pub split_host_port : Text → Option Text
  pub parse_prefix : Text → Option Prefix
  pub parse_addr : Text → Option Address
  pub prefix_from : Address → Prefix
  pub unmap : Address → Address
  pub contains : Prefix → Address → Bool
  pub mask : Text → Option Text

-- strings.EqualFold against a constant in lower-case ASCII
fold : ℕ → ℕ
unfolding lower
fold c = if c == 0x17f then b's' else if c == 0x130 then c else lower c

unfoldable pub equal_fold : Text → Text → Bool
unfolding fold
equal_fold [] [] = true
equal_fold [] (d ∷ t) = false
equal_fold (c ∷ s) [] = false
equal_fold (c ∷ s) (d ∷ t) = fold c == d && equal_fold s t

-- The first part and the parts after it, from within or without a quoted string.
split_quoted : ℕ → Bool → Text → Text × List Text
split_quoted sep quoted [] = ([], [])
split_quoted sep quoted (c ∷ s) =
    let (part, rest) = split_quoted sep (if c == b'"' then not quoted else quoted) s in
    if not (c == b'"') && (c == sep && not quoted) then ([], part ∷ rest) else (c ∷ part, rest)

-- `splitTopLevel`: the first part, and the others
unfoldable pub split_top_level : Text → ℕ → Text × List Text
unfolding split_quoted
split_top_level text sep = split_quoted sep false text

-- The text with each escaped quote or backslash replaced, after a backslash or not.
unescape : Bool → Text → Text
unescape true [] = b'\\' ∷ []
unescape false [] = []
unescape true (c ∷ s) =
    let rest = unescape false s in if c == b'"' || c == b'\\' then c ∷ rest else b'\\' ∷ c ∷ rest
unescape false (c ∷ s) = let rest = unescape (c == b'\\') s in if c == b'\\' then rest else c ∷ rest

-- The text before a final quote.
before_quote : Text → Option Text
before_quote [] = none
before_quote (c ∷ []) = if c == b'"' then some [] else none
before_quote (c ∷ d ∷ s) = elim (before_quote (d ∷ s)) [ none ↦ none | some t ↦ some (c ∷ t) ]

unquote_inner : Text → Option Text → Text
unfolding unescape
unquote_inner value none = value
unquote_inner value (some inner) = unescape false inner

-- `unquoteForwardedValue`
unfoldable pub unquote_forwarded_value : Text → Text
unfolding before_quote unquote_inner
unquote_forwarded_value [] = []
unquote_forwarded_value (c ∷ s) =
    if c == b'"' then unquote_inner (c ∷ s) (before_quote s) else c ∷ s

-- What is before the first `sep`, or everything where there is none.
unfoldable pub before : ℕ → Text → Text
before sep [] = []
before sep (c ∷ s) = let rest = before sep s in if c == sep then [] else c ∷ rest

bracketed : Text → Option (Text × Text) → Text
bracketed node none = node
bracketed node (some (address, rest)) = address

-- `stripForwardedNodePort`
unfoldable pub strip_forwarded_node_port : Text → Text
unfolding bracketed before
strip_forwarded_node_port [] = []
strip_forwarded_node_port (c ∷ s) =
    if c == b'[' then bracketed (c ∷ s) (cut b']' s) else before b':' (c ∷ s)

identifier : Text → Text
unfolding strip_forwarded_node_port
identifier value =
    if same value [] || equal_fold value (codes "unknown")
    then []
    else strip_forwarded_node_port value

-- One parameter of a hop: the client where the parameter is "for", else what the others say.
from_pair : Option (Text × Text) → Text → Text
unfolding identifier unquote_forwarded_value
from_pair none others = others
from_pair (some (name, value)) others =
    if equal_fold (trim_space name) (codes "for")
    then identifier (unquote_forwarded_value (trim_space value))
    else others

from_pairs : List Text → Text
unfolding from_pair
from_pairs [] = []
from_pairs (pair ∷ rest) = from_pair (cut b'=' pair) (from_pairs rest)

-- `parseForwardedFor`
unfoldable pub parse_forwarded_for : Text → Text
unfolding split_top_level from_pairs
parse_forwarded_for [] = []
parse_forwarded_for (c ∷ s) =
    let (hop, hops) = split_top_level (c ∷ s) b',' in
    let (pair, pairs) = split_top_level hop b';' in from_pairs (pair ∷ pairs)

-- `firstForwardedFor`
unfoldable pub first_forwarded_for : Text → Text
unfolding before
first_forwarded_for header = if same header [] then [] else trim_space (before b',' header)

-- What a later source says where the earlier one says nothing.
unfoldable pub fall_through : Text → Text → Text
fall_through [] later = later
fall_through (c ∷ s) later = c ∷ s

or_empty : Option Text → Text
or_empty none = []
or_empty (some t) = t

pub record RealIpConfig (Prefix : Type 0) : Type 0 where
  pub trusted_proxies : List Prefix
  pub trust_all : Bool

module _ {Address Prefix : Type 0} (net : NetIp Address Prefix) where
  -- `mustParseNetwork`, `none` for its panic
  unfoldable pub must_parse_network : Text → Option Prefix
  must_parse_network network = elim (net.parse_prefix network) [
    | some prefix ↦ some prefix
    | none ↦ elim (net.parse_addr network) [
      | some address ↦ some (net.prefix_from address)
      | none ↦ none
    ]
  ]

  parse_networks : List Text → Option (List Prefix)
  unfolding must_parse_network
  parse_networks [] = some []
  parse_networks (network ∷ rest) = elim (must_parse_network network) [
    | none ↦ none
    | some prefix ↦ elim (parse_networks rest) [
      | none ↦ none
      | some prefixes ↦ some (prefix ∷ prefixes)
    ]
  ]

  -- `WithTrustedProxies`
  unfoldable pub with_trusted_proxies :
      List Text → RealIpConfig Prefix → Option (RealIpConfig Prefix)
  unfolding parse_networks
  with_trusted_proxies networks config = elim (parse_networks networks) [
    | none ↦ none
    | some prefixes ↦
        some (record { trusted_proxies = config.trusted_proxies ++ prefixes; trust_all = false })
  ]

  -- `WithTrustAnyProxy`
  unfoldable pub with_trust_any_proxy : RealIpConfig Prefix → RealIpConfig Prefix
  with_trust_any_proxy config = record { trusted_proxies = []; trust_all = true }

  -- The host of a remote address, or all of it where it has no port.
  unfoldable pub remote_host : Text → Text
  remote_host remote = elim (net.split_host_port remote) [ some host ↦ host | none ↦ remote ]

  within : List Prefix → Option Address → Bool
  within prefixes none = false
  within prefixes (some address) = any (λ p. net.contains p (net.unmap address)) prefixes

  some_trusted : List Prefix → Text → Bool
  unfolding within remote_host
  some_trusted [] remote = true
  some_trusted (p ∷ ps) remote = within (p ∷ ps) (net.parse_addr (remote_host remote))

  -- `realIPConfig.trusts`
  unfoldable pub trusts : RealIpConfig Prefix → Text → Bool
  unfolding some_trusted
  trusts config remote = config.trust_all || some_trusted config.trusted_proxies remote

  -- The headers' word on the client, in the order of the sources.
  unfoldable pub header_ip : Request → Text
  unfolding parse_forwarded_for first_forwarded_for fall_through
  header_ip request = fall_through (parse_forwarded_for (get "Forwarded" request.header)) (
      fall_through (first_forwarded_for (get "X-Forwarded-For" request.header))
        (get "X-Real-Ip" request.header))

  -- The client that `RealIP` puts into the context.
  unfoldable pub resolve_ip : RealIpConfig Prefix → Request → Text
  unfolding trusts header_ip fall_through or_empty
  resolve_ip config request = trim_space (
      fall_through (if trusts config request.remote_addr then header_ip request else [])
        (or_empty (net.split_host_port request.remote_addr)))

  unfoldable pub real_ip : RealIpConfig Prefix → Handler → Handler
  unfolding resolve_ip
  real_ip config next request w =
      next
        (record request {
          context = record request.context { real_ip = resolve_ip config request };
        })
        w

  masked : Text → Option Text → Text
  masked ip none = ip
  masked ip (some prefix) = prefix

  -- Whether the first "." or ":" of a text is a ":".
  unfoldable pub is_ipv6 : Text → Bool
  is_ipv6 [] = false
  is_ipv6 (c ∷ s) =
      let rest = is_ipv6 s in if c == b'.' then false else if c == b':' then true else rest

  -- `CanonicalizeIP`
  unfoldable pub canonicalize_ip : Text → Text
  unfolding is_ipv6 masked
  canonicalize_ip ip = if is_ipv6 ip then masked ip (net.mask ip) else ip

  -- `defaultRateLimitKey`
  unfoldable pub default_rate_limit_key : Request → Text
  unfolding canonicalize_ip
  default_rate_limit_key request =
      canonicalize_ip (fall_through request.context.real_ip (remote_host request.remote_addr))
