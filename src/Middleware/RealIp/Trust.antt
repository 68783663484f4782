-- ===== src/Middleware/RealIp/Trust.antt =====
-- Which headers of a request can change the client that the middleware records.
use arnon.Prelude.{◌≡◌, refl, sym, ap, ◌∙◌, false}
use arnon.Prelude.Strings.{Text, trim_space}
use arnon.Http.{Header, Request}
use arnon.Middleware.RealIp.{
  NetIp, RealIpConfig, fall_through, or_empty, trusts, resolve_ip, default_rate_limit_key,
  canonicalize_ip, remote_host,
}

-- A request with other headers.
abbrev pub forged : Header → Request → Request
forged header request = record request { header = header }

module _ {Address Prefix : Type 0} (net : NetIp Address Prefix) where
  resolve_ip-untrusted :
      (config : RealIpConfig Prefix) (request : Request)
      → trusts net config request.remote_addr ≡ false
      → resolve_ip net config request
        ≡ trim_space (or_empty (net.split_host_port request.remote_addr))
  unfolding resolve_ip fall_through
  resolve_ip-untrusted config request h = rw h refl

  -- The rate limit's key for a request that the middleware passes on.
  abbrev pub key_behind : RealIpConfig Prefix → Request → Text
  key_behind config request = default_rate_limit_key net (record request {
    context = record request.context { real_ip = resolve_ip net config request };
  })

  -- A client that does not come from a trusted network has the same rate-limit key whatever headers
  -- it sends.
  pub key_behind-unforgeable :
      (config : RealIpConfig Prefix) (request : Request) (header : Header)
      → trusts net config request.remote_addr ≡ false
      → key_behind config (forged header request) ≡ key_behind config request
  unfolding default_rate_limit_key
  key_behind-unforgeable config request header h =
      ap (λ ip. canonicalize_ip net (fall_through ip (remote_host net request.remote_addr)))
        (resolve_ip-untrusted config (forged header request) h
          ∙ sym (resolve_ip-untrusted config request h))
