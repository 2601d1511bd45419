-- ===== src/BootConfirm/Laws.antt =====
-- A started image confirms itself once.
use tm4c123gxl_ota.Base.{
  ℕ, ◌≤◌, ◌≡◌, ◌≢◌, arith, true, false, none, some, eq_bytes_refl, eq_bytes→eq, ◌⊎◌,
}
use tm4c123gxl_ota.Types.{Version, version_bytes, slot_b}
use tm4c123gxl_ota.BootConfirm.{
  ConfirmMailbox, mailbox_crc, confirmation_validate, confirmation_consume, confirmation_clear,
  boot_confirm, confirmed_magic,
}

-- An image of slot A or B stores its confirmation and resets if the mailbox is not marked as
-- consumed, or holds another slot or another version, as it does after an earlier image's. The bootloader then consumes that slot and version, a second time nothing, and the image,
-- started again, neither stores nor resets.
pub boot_confirm_once :
    (slot : ℕ) (version : Version) (global : ConfirmMailbox)
    → slot ≤ slot_b
    → (global.magic ≢ confirmed_magic)
      ⊎ (global.slot ≢ slot)
      ⊎ (version_bytes global.version ≢ version_bytes version)
    → let (m, resets) = boot_confirm slot version global in
      let (found, consumed) = confirmation_consume m in
      (resets ≡ true)
      × (found ≡ some (slot, version))
      × (confirmation_consume consumed ≡ (none, consumed))
      × (boot_confirm slot version consumed ≡ (consumed, false))
unfolding boot_confirm confirmation_consume confirmation_validate mailbox_crc
boot_confirm_once slot version global h fresh = ground (
  arith,
  eq_bytes_refl (version_bytes version),
  eq_bytes→eq (version_bytes global.version) (version_bytes version),
)

-- After the bootloader has cleared the mailbox nothing is found in it, and consuming from any
-- mailbox that is neither valid nor consumed clears it.
pub confirmation_consume_cleared :
    (global : ConfirmMailbox)
    → confirmation_validate global ≡ none
    → global.magic ≢ confirmed_magic
    → (confirmation_consume global ≡ (none, confirmation_clear))
      × ((confirmation_consume confirmation_clear).0 ≡ none)
unfolding confirmation_consume confirmation_validate
confirmation_consume_cleared global h fresh = ground arith
