-- ===== src/Address/Split.antt =====
-- `net.SplitHostPort` reads back what the program prints with "%s:%s".
use hraftd.Common.{append_assoc, ℕ, ◌≡◌, refl, true, false, ◌||◌, some, [], ◌∷◌, ◌++◌, arith, eqb}
use hraftd.Common.Text.{Text}
use hraftd.Common.Result.{ok, err}
use hraftd.Address.{
  colon, contains, cut_first, cut_last, too_many_colons, plain, split_at, split_host_port, host_of,
  port_of, host_port, bracketed, after_bracket,
}

-- A host or a port as the program writes it: no colon and no bracket.
pub record IsPlain (s : Text) : Type 0 where
  pub no_colon : contains colon s ≡ false
  pub no_open : contains b'[' s ≡ false
  pub no_close : contains b']' s ≡ false

pub contains-append : (c : ℕ) (s t : Text) → contains c (s ++ t) ≡ (contains c s || contains c t)
unfolding contains
contains-append c [] t = refl
contains-append c (b ∷ s) t = ground (arith, contains-append c s t)

contains_head : (c : ℕ) (s : Text) → contains c (c ∷ s) ≡ true
unfolding contains
contains_head c s = ground arith

-- The last colon of "x:y" is the one written, if `y` has none.
cut_last-host_port :
    (s t : Text) → contains colon t ≡ false → cut_last colon (host_port s t) ≡ some (s, t)
unfolding cut_last
cut_last-host_port [] t h = ground arith
cut_last-host_port (b ∷ s) t h =
    ground
      (arith, cut_last-host_port s t h, contains-append colon s (colon ∷ t), contains_head colon t)

split_at-plain :
    (s host port : Text) → contains b'[' s ≡ false → split_at s host port ≡ plain host port
unfolding split_at contains
split_at-plain [] host port h = refl
split_at-plain (c ∷ s) host port h = ground arith

pub contains_cons : (c b : ℕ) (s : Text) → contains c (b ∷ s) ≡ (eqb b c || contains c s)
unfolding contains
contains_cons c b s = refl

host_port-no_open :
    (s t : Text)
    → contains b'[' s ≡ false
    → contains b'[' t ≡ false
    → contains b'[' (host_port s t) ≡ false
host_port-no_open s t h k = rw (contains-append b'[' s (colon ∷ t), h, contains_cons b'[' colon t) k

-- Splitting the print of a plain host and a plain port gives them back.
pub split_host_port-host_port :
    (host port : Text)
    → IsPlain host
    → IsPlain port
    → split_host_port (host_port host port) ≡ ok (host, port)
unfolding split_host_port
split_host_port-host_port host port h p =
    rw (cut_last-host_port host port p.no_colon, split_host_port)
      (rw
        (split_at-plain (host_port host port) host port
          (host_port-no_open host port h.no_open p.no_open))
        (unfold plain in rw (h.no_colon, h.no_open, p.no_open, h.no_close, p.no_close)))

-- A host with a colon in it, as of an IPv6 address, is not read back: the print has no brackets.
pub split_host_port-colon_host :
    (host port : Text)
    → contains colon host ≡ true
    → contains b'[' host ≡ false
    → IsPlain port
    → split_host_port (host_port host port) ≡ err too_many_colons
unfolding split_host_port
split_host_port-colon_host host port h o p =
    rw (cut_last-host_port host port p.no_colon, split_host_port)
      (rw (split_at-plain (host_port host port) host port (host_port-no_open host port o p.no_open))
        (unfold plain in rw h))

module _ {host port : Text} (h : IsPlain host) (p : IsPlain port) where
  pub host_of-host_port : host_of (host_port host port) ≡ host
  unfolding host_of
  host_of-host_port = rw (split_host_port-host_port host port h p, host_of)

  pub port_of-host_port : port_of (host_port host port) ≡ port
  unfolding port_of
  port_of-host_port = rw (split_host_port-host_port host port h p, port_of)

-- "[host]:port" is read as its host and its port, colons in the host included.
cut_first-host :
    (c : ℕ) (s t : Text) → contains c s ≡ false → cut_first c (s ++ c ∷ t) ≡ some (s, t)
unfolding cut_first contains
cut_first-host c [] t h = ground arith
cut_first-host c (b ∷ s) t h = ground (arith, cut_first-host c s t)

pub split_host_port-bracketed :
    (host port : Text)
    → contains b'[' host ≡ false
    → contains b']' host ≡ false
    → IsPlain port
    → split_host_port (host_port (b'[' ∷ (host ++ b']' ∷ [])) port) ≡ ok (host, port)
unfolding split_host_port
split_host_port-bracketed host port o c p =
    rw (cut_last-host_port (b'[' ∷ (host ++ b']' ∷ [])) port p.no_colon, split_host_port)
      (unfold split_at bracketed in
        rw append_assoc (
          rw (cut_first-host b']' host (colon ∷ port) c, bracketed)
            (unfold after_bracket in rw (p.no_colon, o, p.no_open, p.no_close))))
