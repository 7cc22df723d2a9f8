-- ===== src/Http.antt =====
-- HTTP requests as the program reads them, their headers (net/http), and the director of the reverse
-- proxy (proxy.go). The program spells each header's name in one way, which stands for the form that
-- Go gives it.
pub mod Dialer
use hraftd.Common.{
  ℕ, Bool, true, false, ◌||◌, not, Option, none, some, List, [], ◌∷◌, ◌++◌, eqb, if◌then◌else◌,
}
use hraftd.Common.Text.{Text, lit, has_prefix}
use hraftd.Common.Result.{Result}
use hraftd.Common.Map.{Map, lookup, insert}

abbrev pub Header : Type 0
Header = Map (List Text)

-- http.Request; `body` is what reading the body to its end gives
pub record HttpRequest : Type 0 where
  pub method : Text
  pub scheme : Text
  pub url_host : Text
  pub path : Text
  pub url : Text
  pub host : Text
  pub remote_addr : Text
  pub header : Header
  pub body : Result Text

abbrev values_of : Option (List Text) → List Text
values_of none = []
values_of (some vs) = vs

abbrev first_of : List Text → Text
first_of [] = []
first_of (v ∷ vs) = v

-- Header.Get, Set and Add
abbrev pub header_get : Text → Header → Text
header_get name h = first_of (values_of (lookup name h))

abbrev pub header_set : Text → Text → Header → Header
header_set name v h = insert name (v ∷ []) h

abbrev pub header_add : Text → Text → Header → Header
header_add name v h = insert name (values_of (lookup name h) ++ v ∷ []) h

-- XOriginRemoteAddr
abbrev pub x_origin_remote_addr : Text
x_origin_remote_addr = lit "X-Origin-RemoteAddr"

abbrev pub x_forwarded_host : Text
x_forwarded_host = lit "X-Forwarded-Host"

abbrev pub x_origin_host : Text
x_origin_host = lit "X-Origin-Host"

-- the director of ReverseProxy
unfoldable pub director : Text → Text → HttpRequest → HttpRequest
director target_host target_path r =
    let h = header_set x_origin_remote_addr r.remote_addr r.header in
    let h' = header_add x_forwarded_host r.host h in
    record r {
      scheme = lit "http";
      url_host = target_host;
      path = target_path;
      header = header_add x_origin_host (header_get (lit "Host") h') h';
    }

-- HasPrefix of proxy.go
unfoldable pub has_any_prefix : Text → List Text → Bool
has_any_prefix s [] = false
has_any_prefix s (p ∷ ps) = if has_prefix s p then true else has_any_prefix s ps

-- IsRelativeForward
unfoldable pub is_relative_forward : ℕ → Text → Bool
is_relative_forward status_code location =
    if eqb status_code 301 || eqb status_code 302
    then not (has_any_prefix location (lit "http://" ∷ lit "https://" ∷ []))
    else false
