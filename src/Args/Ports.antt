-- ===== src/Args/Ports.antt =====
-- The two ports of a node: the one of raft is 1000 above the one of HTTP.
use hraftd.Common.{
  ℕ, ◌+◌, ◌-◌, ◌≤◌, ◌≡◌, refl, ap, false, none, some, [], ◌∷◌, if◌then◌else◌, arith, Bool-cases,
  ltb, inl, inr,
}
use hraftd.Common.Int.{pos, ◌+ℤ◌, ◌-ℤ◌, ltb_ℤ}
use hraftd.Common.Text.{Text, ◌==◌}
use hraftd.Common.Result.{ok}
use hraftd.Address.{host_port, choose}
use hraftd.Address.Split.{IsPlain, split_host_port-host_port}
use hraftd.Args.{is_local_host}
use hraftd.Args.Numbers.{show_int, decimal, atoi-decimal, decimal-IsPlain}
use hraftd.Args.Fixing.{Arg, Machine, fix_from_http, fix_from_raft, fix_addr}

-- The addresses of a node on a host, by its HTTP port.
abbrev pub with_addrs : Text → ℕ → Arg → Arg
with_addrs host n a = record a {
  http_addr = host_port host (decimal n);
  raft_addr = host_port host (decimal (n + 1000));
}

pub filled : (host port : Text) → (host_port host port == []) ≡ false
unfolding ◌==◌
filled [] port = refl
filled (c ∷ host) port = refl

above : (n : ℕ) → pos n +ℤ pos 1000 ≡ pos (n + 1000)
unfolding ◌+ℤ◌
above n = ground arith

below : (n : ℕ) → 1000 ≤ n → pos n -ℤ pos 1000 ≡ pos (n - 1000)
unfolding ◌-ℤ◌
below n h = ground arith

test_high : (n : ℕ) → ltb_ℤ (pos 34565) (pos n) ≡ ltb 34565 n
test_high n = ground arith

test_low : (n : ℕ) → ltb_ℤ (pos n) (pos 2024) ≡ ltb n 2024
test_low n = ground arith

module _ (m : Machine) (a : Arg) (host : Text) where
  -- the host by which the node is known
  abbrev pub seen : Text
  seen = choose (is_local_host m.net a.host_ip host) a.host_ip host

  from_http :
      (n : ℕ)
      → n ≤ 65535
      → fix_from_http m a (ok (host, decimal n))
        ≡ (if ltb 34565 n then none else some (with_addrs seen n a))
  unfolding fix_from_http show_int
  from_http n k = rw (atoi-decimal n (omega arith)) (rw (test_high n, above n) refl)

  from_raft :
      (n : ℕ)
      → n ≤ 65535
      → fix_from_raft m a (ok (host, decimal n))
        ≡ (if ltb n 2024 then none else some (with_addrs seen (n - 1000) a))
  unfolding fix_from_raft show_int
  from_raft n k = rw (atoi-decimal n (omega arith)) (
      rw (test_low n) (elim (Bool-cases (ltb n 2024)) [
        | inl low ↦ rw low refl
        | inr high ↦
            let enough : 1000 ≤ n = ground arith in
            let back : n ≡ n - 1000 + 1000 = omega arith in
            rw (high, below n enough)
              (ap
                (λ x. some (record a {
                  http_addr = host_port seen (decimal (n - 1000));
                  raft_addr = host_port seen (decimal x);
                }))
                back)
      ]))

module _ (m : Machine) (a : Arg) (host : Text) (n : ℕ) where
  -- An address with a plain host and a port from 0 to 65535 fixes the other one. From the one of
  -- HTTP, raft's port is 1000 above it, and Fix panics where the port is above 34565. From the one
  -- of raft, the HTTP port is 1000 below it, and Fix panics where the port is below 2024. The host
  -- of both is the node's own IP where the host is local, and else the host.
  pub fix_addr-ports :
      IsPlain host
      → n ≤ 65535
      → (fix_addr m (record a { raft_addr = []; http_addr = host_port host (decimal n) })
          ≡ (if ltb 34565 n then none else some (with_addrs (seen m a host) n a)))
        × (fix_addr m (record a { raft_addr = host_port host (decimal n); http_addr = [] })
            ≡ (if ltb n 2024 then none else some (with_addrs (seen m a host) (n - 1000) a)))
  unfolding fix_addr ◌==◌
  fix_addr-ports h k =
      let written =
        split_host_port-host_port host (decimal n) h (decimal-IsPlain n (omega arith)) in
      (
        rw (filled host (decimal n), written)
            (from_http m (record a { raft_addr = []; http_addr = host_port host (decimal n) }) host
              n k),
        rw (filled host (decimal n), written)
            (from_raft m (record a { raft_addr = host_port host (decimal n); http_addr = [] }) host
              n k),
      )
