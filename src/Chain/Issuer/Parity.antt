-- ===== src/Chain/Issuer/Parity.antt =====
-- A transfer as the RPC gives it, and as it comes over the rows of the issuer's service.
use lumengate.Prelude.{
  ℕ, ◌≡◌, refl, false, ◌&&◌, Option, none, some, List, [], ◌∷◌, if◌then◌else◌, length, take, drop,
}
use lumengate.Prelude.Result.{ok}
use Prim.Native.String.{String}
use lumengate.Crypto.Field.{from_bytes_be}
use lumengate.Crypto.Grumpkin.{Curve, from_affine, all_zero, point_from_bytes}
use lumengate.Chain.Events.{ConfidentialEvent, transfer, build_confidential_event}
use lumengate.Chain.Paging.{held}
use lumengate.Chain.Decode.{
  scv_bytes, ScVals, EventResponse, natural_event_id, rpc_event_coords, addr, nth, named, get,
  base_of, data_accessor, parse_known, parse_event,
}
use lumengate.Chain.IssuerRows.{
  IssuerCtEventRow, bare_row, big_hex, entry_of, data_field, field_hex, hex_point, point_field,
  row_of_known, parse_rpc_event,
}
use lumengate.Chain.Issuer.{row_accessor, two_parties, parse_issuer_ct_event}
use lumengate.Chain.Issuer.Texts.{
  is_even_text, TransferBytes, is_readable, parse_hex_field-big_hex, or_null-guard,
  parse_hex_point-hex_point,
}

module _ {Val : Type 0} where
  -- The entry of a name holds bytes.
  abbrev pub HasBytes : ScVals Val → List (String × Val) → String → List ℕ → Type 0
  HasBytes S by_name name b =
      (v : Val) × (get S by_name name ≡ ok v) × (S.arm v ≡ scv_bytes) × (S.bytes v ≡ ok b)

-- The event of a transfer, as the contract emits it, with an ephemeral key that is a point but not the
-- identity.
pub record IsTransfer {Val Point : Type 0} (S : ScVals Val) (C : Curve Point)
    (ev : EventResponse Val) : Type 0 where
  pub first : Val
  pub second : Val
  pub third : Val
  pub from : String
  pub to : String
  pub coords : ℕ × ℕ
  pub entries : List (Val × Val)
  pub by_name : List (String × Val)
  pub b : TransferBytes
  pub p : Point
  pub topics : ev.topic ≡ first ∷ second ∷ third ∷ []
  pub name : S.sym first ≡ ok "transfer"
  pub from_address : S.address second ≡ ok from
  pub to_address : S.address third ≡ ok to
  pub from_held : held (some from) ≡ some from
  pub to_held : held (some to) ≡ some to
  pub at : rpc_event_coords ev.id ≡ ok coords
  pub map_of : S.map_entries ev.value ≡ ok entries
  pub names : named S entries ≡ ok by_name
  pub has_r_e : HasBytes S by_name "r_e" b.r_e
  pub has_v_tilde : HasBytes S by_name "v_tilde" b.v_tilde
  pub has_sigma : HasBytes S by_name "sigma" b.sigma
  pub has_b_tilde : HasBytes S by_name "b_tilde" b.b_tilde
  pub has_v_aud_r : HasBytes S by_name "v_aud_r" b.v_aud_r
  pub has_r_aud_r : HasBytes S by_name "r_aud_r" b.r_aud_r
  pub has_v_aud_s : HasBytes S by_name "v_aud_s" b.v_aud_s
  pub has_b_aud_s : HasBytes S by_name "b_aud_s" b.b_aud_s
  pub long : length b.r_e ≡ 64
  pub finite : all_zero b.r_e ≡ false
  pub on_curve :
      from_affine ⦃C = C⦄ (from_bytes_be (take 32 b.r_e), from_bytes_be (drop 32 b.r_e)) ≡ ok p

module _ {Val Point : Type 0} (S : ScVals Val) ⦃C : Curve Point⦄ (ev : EventResponse Val)
    (T : IsTransfer S C ev) where
  abbrev pub transfer_of : ConfidentialEvent Point
  transfer_of = transfer (base_of S ev T.coords) (record {
    from = T.from;
    to = T.to;
    r_e = T.p;
    v_tilde = from_bytes_be T.b.v_tilde;
    sigma = from_bytes_be T.b.sigma;
    b_tilde = from_bytes_be T.b.b_tilde;
    v_aud_r = from_bytes_be T.b.v_aud_r;
    r_aud_r = from_bytes_be T.b.r_aud_r;
    v_aud_s = from_bytes_be T.b.v_aud_s;
    b_aud_s = from_bytes_be T.b.b_aud_s;
  })

  field-bytes :
      (name : String) {b : List ℕ}
      → HasBytes S T.by_name name b
      → (data_accessor S {Point = Point} T.by_name).field name ≡ ok (from_bytes_be b)
  unfolding data_accessor
  field-bytes name (v, there, arm, read) = rw there (rw read refl)

  point-bytes : (data_accessor S T.by_name).point "r_e" ≡ ok T.p
  unfolding data_accessor point_from_bytes
  point-bytes =
      let (v, there, arm, read) = T.has_r_e in
      rw there (rw read (rw T.long (rw T.finite T.on_curve)))

  parse_event-transfer : parse_event S ev ≡ ok (some transfer_of)
  unfolding parse_event parse_known addr nth build_confidential_event
  parse_event-transfer = rw T.topics (
      rw T.name (
        rw T.at (
          rw T.map_of (
            rw T.names (
              rw (addr, T.from_address)
                (rw (addr, T.to_address)
                  (rw point-bytes (
                    rw (field-bytes "v_tilde" T.has_v_tilde) (
                      rw (field-bytes "sigma" T.has_sigma) (
                        rw (field-bytes "b_tilde" T.has_b_tilde) (
                          rw (field-bytes "v_aud_r" T.has_v_aud_r) (
                            rw (field-bytes "r_aud_r" T.has_r_aud_r) (
                              rw (field-bytes "v_aud_s" T.has_v_aud_s)
                                (rw (field-bytes "b_aud_s" T.has_b_aud_s) refl))))))))))))))

  abbrev hex_of : List ℕ → Option (List ℕ)
  hex_of b = some (big_hex (from_bytes_be b))

  abbrev transfer_row : IssuerCtEventRow
  transfer_row =
      record (bare_row (natural_event_id ev.ledger ev.tx_hash T.coords.0 T.coords.1) ev.ledger
        ev.tx_hash "transfer") {
          from = some T.from;
          to = some T.to;
          r_e = some (hex_point T.b.r_e);
          sigma = hex_of T.b.sigma;
          v_tilde = hex_of T.b.v_tilde;
          b_tilde = hex_of T.b.b_tilde;
          v_aud_r = hex_of T.b.v_aud_r;
          r_aud_r = hex_of T.b.r_aud_r;
          v_aud_s = hex_of T.b.v_aud_s;
          b_aud_s = hex_of T.b.b_aud_s;
        }

  field_hex-bytes :
      (name : String) {b : List ℕ}
      → HasBytes S T.by_name name b
      → field_hex S ev.value name ≡ ok (big_hex (from_bytes_be b))
  unfolding field_hex data_field entry_of
  field_hex-bytes name (v, there, arm, read) =
      rw T.map_of (rw T.names (rw there (rw arm (rw read refl))))

  point_field-bytes : point_field S ev.value "r_e" ≡ ok (hex_point T.b.r_e)
  unfolding point_field entry_of
  point_field-bytes =
      let (v, there, arm, read) = T.has_r_e in
      rw T.map_of (rw T.names (rw there (rw read (rw T.long refl))))

  parse_rpc_event-transfer : parse_rpc_event S ev ≡ ok (some transfer_row)
  unfolding parse_rpc_event row_of_known addr nth
  parse_rpc_event-transfer = rw T.topics (
      rw T.name (
        rw T.at (
          rw (addr, T.from_address)
            (rw (addr, T.to_address)
              (rw point_field-bytes (
                rw (field_hex-bytes "sigma" T.has_sigma) (
                  rw (field_hex-bytes "v_tilde" T.has_v_tilde) (
                    rw (field_hex-bytes "b_tilde" T.has_b_tilde) (
                      rw (field_hex-bytes "v_aud_r" T.has_v_aud_r) (
                        rw (field_hex-bytes "r_aud_r" T.has_r_aud_r) (
                          rw (field_hex-bytes "v_aud_s" T.has_v_aud_s)
                            (rw (field_hex-bytes "b_aud_s" T.has_b_aud_s) refl))))))))))))

  parse_issuer_ct_event-transfer_row :
      parse_issuer_ct_event transfer_row ≡ (if is_readable T.b then some transfer_of else none)
  unfolding parse_issuer_ct_event build_confidential_event row_accessor
  parse_issuer_ct_event-transfer_row =
      rw (two_parties, T.from_held)
        (rw (two_parties, T.to_held)
          (rw (parse_hex_point-hex_point T.b.r_e T.p T.finite T.on_curve) (
            or_null-guard (is_even_text (take 32 T.b.r_e) && is_even_text (drop 32 T.b.r_e)) _ T.p _
              _ transfer_of
              (rw (parse_hex_field-big_hex T.b.v_tilde) (
                or_null-guard (is_even_text T.b.v_tilde) _ _ _ _ transfer_of (
                  rw (parse_hex_field-big_hex T.b.sigma) (
                    or_null-guard (is_even_text T.b.sigma) _ _ _ _ transfer_of (
                      rw (parse_hex_field-big_hex T.b.b_tilde) (
                        or_null-guard (is_even_text T.b.b_tilde) _ _ _ _ transfer_of (
                          rw (parse_hex_field-big_hex T.b.v_aud_r) (
                            or_null-guard (is_even_text T.b.v_aud_r) _ _ _ _ transfer_of (
                              rw (parse_hex_field-big_hex T.b.r_aud_r) (
                                or_null-guard (is_even_text T.b.r_aud_r) _ _ _ _ transfer_of (
                                  rw (parse_hex_field-big_hex T.b.v_aud_s) (
                                    or_null-guard (is_even_text T.b.v_aud_s) _ _ _ _ transfer_of (
                                      rw (parse_hex_field-big_hex T.b.b_aud_s) (
                                        or_null-guard (is_even_text T.b.b_aud_s) _ _ _ _ transfer_of
                                          refl)))))))))))))))))

  -- Of a transfer that the RPC's client decodes, with two addresses that are not empty and an
  -- ephemeral key that is a point of the curve but not the identity, the issuer's service makes
  -- a row. The client reads from the row the event that it decodes from the RPC, if each of the
  -- nine numbers that the service prints in hexadecimal has an even number of digits; if one
  -- has an odd number of digits, the client drops the transfer.
  pub parse_issuer_ct_event-parse_event :
      (row : IssuerCtEventRow) × (parse_rpc_event S ev ≡ ok (some row))
      × (parse_event S ev ≡ ok (some transfer_of))
      × (parse_issuer_ct_event row ≡ (if is_readable T.b then some transfer_of else none))
  parse_issuer_ct_event-parse_event = (
    transfer_row, parse_rpc_event-transfer, parse_event-transfer,
    parse_issuer_ct_event-transfer_row,
  )
