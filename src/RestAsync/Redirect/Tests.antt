-- ===== src/RestAsync/Redirect/Tests.antt =====
-- Redirects of one host.
use exchange_connectivity.Base.{◌≡◌, refl, ◌⊎◌, ok, err}
use exchange_connectivity.Base.Text.{codes, to_lower}
use exchange_connectivity.RestAsync.Redirect.{rooted, extract_redirect_path}
use exchange_connectivity.RestAsync.Redirect.Target.{
  Begins, NoScheme, OnHost, extract_redirect_path-OnHost,
}

followed :
    extract_redirect_path (codes "HTTPS://Api.Binance.com:443/v3/time") (codes "api.binance.com")
    ≡ ok (codes "/v3/time")
unfolding extract_redirect_path to_lower
followed = refl

-- A path whose query holds a URL is taken for a URL itself.
path_with_url :
    extract_redirect_path (codes "/login?next=https://other.com/") (codes "api.binance.com")
    ≡ err (codes "Cross-host redirect not allowed: /login?next=https://other.com/")
unfolding extract_redirect_path to_lower
path_with_url = refl

extract_redirect_path-OnHost_example :
    Begins b'/' (codes "/v3/time")
    × ((NoScheme (codes "HTTPS://Api.Binance.com:443/v3/time")
          × (codes "/v3/time" ≡ rooted (codes "HTTPS://Api.Binance.com:443/v3/time")))
        ⊎ OnHost
            (codes "api.binance.com")
            (codes "HTTPS://Api.Binance.com:443/v3/time")
            (codes "/v3/time"))
extract_redirect_path-OnHost_example =
    extract_redirect_path-OnHost (codes "HTTPS://Api.Binance.com:443/v3/time")
      (codes "api.binance.com") (codes "/v3/time") followed
