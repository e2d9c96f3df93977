-- ===== src/Placement/Rgw/Ports.antt =====
-- Normalized and NormalizeRGWPorts: microceph/api/types/placement.go.
use microceph.Prelude.{
  not, ◌||◌, ◌<◌, ◌≤◌, Option, none, some, Bool, true, false, ◌≡◌, refl, ◌≢◌, ◌⊎◌, inl, inr, arith,
  ok,
}
use microceph.Prelude.Int.{ℤ, pos}
use microceph.Placement.Policy.{RgwPlacement}
use microceph.Placement.Rgw.{
  Tls, disabled_entry, has_material, normalize_rgw_ports, normalized_enabled, with_ssl,
  with_enabled, normalized,
}

-- The listeners are usable: in range, TLS on a port of its own.
abbrev pub ListenersFit : ℤ → ℤ → Bool → Type 0
ListenersFit (pos p) (pos q) false = (0 < p) × (p ≤ 65535) × (q ≡ 0)
ListenersFit (pos p) (pos q) true = (p ≤ 65535) × (0 < q) × (q ≤ 65535) × (p ≢ q)
ListenersFit _ _ _ = ⊥

pub normalize_rgw_ports-ListenersFit :
    (port ssl_port : ℤ) (ssl : Bool) (p q : ℤ)
    → normalize_rgw_ports port ssl_port ssl ≡ ok (p, q)
    → ListenersFit p q ssl
unfolding normalize_rgw_ports
normalize_rgw_ports-ListenersFit (pos a) (pos b) true (pos p) (pos q) h = ground arith
normalize_rgw_ports-ListenersFit (pos a) (pos b) false (pos p) (pos q) h = ground arith
normalize_rgw_ports-ListenersFit _ _ _ _ _ h = ground arith

pub normalize_rgw_ports_again :
    (port ssl_port : ℤ) (ssl : Bool) (p q : ℤ)
    → normalize_rgw_ports port ssl_port ssl ≡ ok (p, q)
    → normalize_rgw_ports p q ssl ≡ ok (p, q)
unfolding normalize_rgw_ports
normalize_rgw_ports_again (pos a) (pos b) true (pos p) (pos q) h = ground arith
normalize_rgw_ports_again (pos a) (pos b) false (pos p) (pos q) h = ground arith
normalize_rgw_ports_again _ _ _ _ _ h = ground arith

-- Normalising twice is normalising once.
pub normalized_again :
    (tls : Tls) (r s : RgwPlacement) → normalized tls r ≡ ok s → normalized tls s ≡ ok s
unfolding normalized
normalized_again tls r s h = ground (
  arith,
  normalize_rgw_ports_again r.port r.ssl_port true s.port s.ssl_port,
  normalize_rgw_ports_again r.port r.ssl_port false s.port s.ssl_port,
)

-- Disabled and blank, or enabled with a known TLS flag, usable listeners and TLS material only
-- with the flag.
abbrev pub IsNormal : RgwPlacement → Type 0
IsNormal r =
    (r ≡ disabled_entry)
    ⊎ ((ssl : Bool) × (r.enabled ≡ some true)
        × (r.ssl ≡ some ssl)
        × ListenersFit r.port r.ssl_port ssl
        × ((not (has_material r) || ssl) ≡ true))

normalized_enabled-IsNormal :
    (tls : Tls) (r s : RgwPlacement) (ssl : Bool)
    → r.enabled ≡ some true
    → r.ssl ≡ some ssl
    → (not (has_material r) || ssl) ≡ true
    → normalized_enabled tls r ssl ≡ ok s
    → IsNormal s
unfolding normalized_enabled
normalized_enabled-IsNormal tls r s ssl on flag guard h =
    let fits = normalize_rgw_ports-ListenersFit r.port r.ssl_port ssl s.port s.ssl_port in
    inr (ssl, ground arith, ground arith, fits (ground arith), ground arith)

with_ssl-IsNormal :
    (tls : Tls) (r s : RgwPlacement) (ssl : Option Bool)
    → r.enabled ≡ some true
    → r.ssl ≡ ssl
    → with_ssl tls r ssl ≡ ok s
    → IsNormal s
unfolding with_ssl
with_ssl-IsNormal tls r s none on flag h = cc
with_ssl-IsNormal tls r s (some true) on flag h =
    normalized_enabled-IsNormal tls r s true on flag (ground arith) h
with_ssl-IsNormal tls r s (some false) on flag h =
    normalized_enabled-IsNormal tls r s false on flag (ground arith) (ground arith)

with_enabled-IsNormal :
    (tls : Tls) (r s : RgwPlacement) (enabled : Option Bool)
    → r.enabled ≡ enabled
    → with_enabled tls r enabled ≡ ok s
    → IsNormal s
unfolding with_enabled
with_enabled-IsNormal tls r s none on h = cc
with_enabled-IsNormal tls r s (some false) on h = inl cc
with_enabled-IsNormal tls r s (some true) on h = with_ssl-IsNormal tls r s r.ssl on refl h

-- An accepted entry is normal: disabled and blank, or enabled with a known TLS flag, listeners in
-- range and apart, and TLS material only where TLS is on.
pub normalized-IsNormal : (tls : Tls) (r s : RgwPlacement) → normalized tls r ≡ ok s → IsNormal s
unfolding normalized
normalized-IsNormal tls r s h = with_enabled-IsNormal tls r s r.enabled refl h
