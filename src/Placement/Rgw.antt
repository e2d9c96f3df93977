-- ===== src/Placement/Rgw.antt =====
-- microceph/api/types/placement.go: validation and normalisation of a member's RGW entry.
pub mod Ports
use microceph.Prelude.{
  String, Option, none, some, Bool, true, false, not, ◌&&◌, ◌||◌, ◌==◌, string_eq, if◌then◌else◌,
  Result, ok, err, ◌>>=◌,
}
use microceph.Prelude.Int.{ℤ, pos, ltb_int, eqb_int}
use microceph.Placement.Policy.{RgwPlacement}

-- One constructor for each `errors.New` of the file.
pub data RgwError : Type 0 where
  enabled_required ssl_required material_requires_ssl : RgwError
  port_range same_ports : RgwError
  incomplete_pair bad_certificate bad_private_key mismatched_pair : RgwError

-- encoding/base64 and crypto/tls, which decide whether a pair is usable.
pub record Tls : Type 0 where
  pub decode_base64 : String → Option String
  pub x509_key_pair : String → String → Bool

-- NormalizeRGWPorts.
unfoldable pub normalize_rgw_ports : ℤ → ℤ → Bool → Result RgwError (ℤ × ℤ)
normalize_rgw_ports port ssl_port ssl =
    let out_of_range =
      ltb_int port (pos 0)
      || ltb_int (pos 65535) port
      || ltb_int ssl_port (pos 0)
      || ltb_int (pos 65535) ssl_port in
    let tls_port = if eqb_int ssl_port (pos 0) then pos 443 else ssl_port in
    if out_of_range
    then err port_range
    else if not ssl
    then ok (if eqb_int port (pos 0) then pos 80 else port, pos 0)
    else if eqb_int port tls_port
    then err same_ports
    else ok (port, tls_port)

decode : (String → Option String) → String → RgwError → Result RgwError String
decode decode_base64 text e = elim (decode_base64 text) [ some bytes ↦ ok bytes | none ↦ err e ]

-- DecodeRGWCertificate.
unfoldable pub decode_rgw_certificate : Tls → String → String → Result RgwError (String × String)
unfolding decode
decode_rgw_certificate tls certificate private_key =
    let decoded = do
      cert ← decode tls.decode_base64 certificate bad_certificate
      key ← decode tls.decode_base64 private_key bad_private_key
      if tls.x509_key_pair cert key then ok (cert, key) else err mismatched_pair
    in if certificate == "" || private_key == "" then err incomplete_pair else decoded

abbrev pub has_material : RgwPlacement → Bool
has_material r = not (r.ssl_certificate == "") || not (r.ssl_private_key == "")

-- The zero value with only `Enabled` set.
abbrev pub disabled_entry : RgwPlacement
disabled_entry = record {
  enabled = some false;
  ssl = none;
  port = pos 0;
  ssl_port = pos 0;
  ssl_certificate = "";
  ssl_private_key = "";
}

-- The rest of `Normalized` once RGW is enabled and the TLS flag is known.
normalized_enabled : Tls → RgwPlacement → Bool → Result RgwError RgwPlacement
normalized_enabled tls r ssl = do
  (port, ssl_port) ← normalize_rgw_ports r.port r.ssl_port ssl
  if has_material r
      then (do
        _ ← decode_rgw_certificate tls r.ssl_certificate r.ssl_private_key
        ok (record r { port = port; ssl_port = ssl_port }))
      else ok (record r { port = port; ssl_port = ssl_port })

with_ssl : Tls → RgwPlacement → Option Bool → Result RgwError RgwPlacement
unfolding normalized_enabled
with_ssl tls r none = err ssl_required
with_ssl tls r (some ssl) =
    if not ssl && has_material r then err material_requires_ssl else normalized_enabled tls r ssl

with_enabled : Tls → RgwPlacement → Option Bool → Result RgwError RgwPlacement
unfolding with_ssl
with_enabled tls r none = err enabled_required
with_enabled tls r (some false) = ok disabled_entry
with_enabled tls r (some true) = with_ssl tls r r.ssl

-- RgwPlacement.Normalized.
unfoldable pub normalized : Tls → RgwPlacement → Result RgwError RgwPlacement
unfolding with_enabled
normalized tls r = with_enabled tls r r.enabled
