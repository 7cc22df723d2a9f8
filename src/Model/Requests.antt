-- ===== src/Model/Requests.antt =====
-- `JoinRequest.Fix`: a joining node is known by the host that its request came from.
use hraftd.Common.{◌≡◌, ◌≢◌, false, none, some, []}
use hraftd.Common.Text.{Text, eq_false}
use hraftd.Address.{comma, contains, host_port, full_id, equals_then}
use hraftd.Address.Split.{host_of-host_port, port_of-host_port}
use hraftd.Address.Identity.{IsPart, fix-pair, fix-panics}
use hraftd.Model.{JoinRequest, fix_request, loopback}

module _ {remote remote_port host h_port r_port : Text} (is_remote : IsPart remote)
    (is_port : IsPart remote_port) (is_host : IsPart host) (is_h : IsPart h_port)
    (is_r : IsPart r_port) where
  -- A request that arrives from `remote` is rewritten to that host, with its own two ports; if
  -- the remote host is the loopback address, to the empty host.
  pub fix_request-pair :
      fix_request
        (host_port remote remote_port)
        (record { addr = host_port host r_port; node_id = full_id host h_port r_port })
      ≡ (let seen = equals_then remote loopback [] in
          some (record { addr = host_port seen r_port; node_id = full_id seen h_port r_port }))
  unfolding fix_request
  fix_request-pair = rw (
    fix_request,
    host_of-host_port is_remote.is_plain is_port.is_plain,
    fix-pair is_host is_h is_host is_r,
    port_of-host_port is_host.is_plain is_r.is_plain,
  )

-- A node whose request arrives from its own advertised host, which is not the loopback address, is
-- registered under exactly the address and the ID that it sent, whatever port it sent from.
pub fix_request_own_host :
    {host remote_port h_port r_port : Text}
    → IsPart host
    → IsPart remote_port
    → IsPart h_port
    → IsPart r_port
    → host ≢ loopback
    → fix_request
        (host_port host remote_port)
        (record { addr = host_port host r_port; node_id = full_id host h_port r_port })
      ≡ some (record { addr = host_port host r_port; node_id = full_id host h_port r_port })
unfolding equals_then
fix_request_own_host {host} hh hp h r differs =
    rw (fix_request-pair hh hp hh h r, equals_then, eq_false host loopback differs)

-- A request whose ID has no comma makes the handler panic, whatever address it came from.
pub fix_request-panics :
    (remote_addr : Text) (r : JoinRequest)
    → contains comma r.node_id ≡ false
    → fix_request remote_addr r ≡ none
unfolding fix_request
fix_request-panics remote_addr r h = rw (fix_request, fix-panics _ r.node_id h)
