-- ===== src/Examples/Mailboxes.antt =====
-- The confirmation mailbox at concrete values.
use tm4c123gxl_ota.Base.{◌≡◌, inl, inr, arith, none, some, true, false}
use tm4c123gxl_ota.Types.{slot_a, slot_b}
use tm4c123gxl_ota.BootConfirm.{
  ConfirmMailbox, confirmed_magic, boot_confirm, confirmation_consume, confirmation_clear,
}
use tm4c123gxl_ota.BootConfirm.Laws.{boot_confirm_once}
use tm4c123gxl_ota.Examples.{version_2}

-- What an image of slot A has left, of the same version.
abbrev old_confirmation : ConfirmMailbox
old_confirmation = record confirmation_clear {
  magic = confirmed_magic;
  slot = slot_a;
  version = version_2;
  crc32 = 0;
}

boot_confirm_once_example :
    let (m, resets) = boot_confirm slot_b version_2 old_confirmation in
    let (found, consumed) = confirmation_consume m in
    (resets ≡ true)
    × (found ≡ some (slot_b, version_2))
    × (confirmation_consume consumed ≡ (none, consumed))
    × (boot_confirm slot_b version_2 consumed ≡ (consumed, false))
boot_confirm_once_example =
    boot_confirm_once slot_b version_2 old_confirmation (omega arith) (inr (inl (λ e. omega arith)))
