-- ===== src/Request/Laws.antt =====
-- A request is delivered once.
use tm4c123gxl_ota.Base.{◌≡◌, ◌⊎◌, arith, true, false, none, some}
use tm4c123gxl_ota.Types.{Version}
use tm4c123gxl_ota.Request.{
  RequestMailbox, request_crc, request_validate, request_store, request_consume, is_zero_version,
}

-- Storing fails for version 0.0.0 and then leaves the mailbox. For any other version it succeeds,
-- whatever the mailbox held, and what is stored is consumed as that version. After a consumption a
-- second one finds nothing.
pub request_store-consume :
    (version : Version) (global : RequestMailbox)
    → let (stored, m) = request_store version global in
      let (found, after) = request_consume m in
      (((is_zero_version version ≡ true) × (stored ≡ false) × (m ≡ global))
        ⊎ ((is_zero_version version ≡ false) × (stored ≡ true) × (found ≡ some version)))
      × ((request_consume after).0 ≡ none)
unfolding request_store request_consume request_validate request_crc
request_store-consume version global = ground arith
