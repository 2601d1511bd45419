-- ===== src/Lib.antt =====
-- Over-the-air update of a TM4C123 with two image slots: the bootloader with its update engine and
-- the guarded flash, the mailboxes between the application and the bootloader, the download from the
-- cloud that feeds the engine, and the code that drives the modem, which bootloader and application
-- share.
--
-- The flash holds the bootloader, slots A and B (each a header page and a payload), and two pages
-- with one copy of the metadata record each. A host sends packets over a serial link, or the modem
-- hands over a package range by range; the engine writes an image to the slot that is not active,
-- checks it, marks it pending in the metadata and resets. The next start decides which slot runs: a
-- pending one for a few attempts, until the image confirms itself through a mailbox in RAM. The
-- application listens for a request over MQTT, leaves it in a mailbox and resets, and the
-- bootloader's controller of the modem takes it over.
--
-- Parts, with the code that each file models:
--   Config           tm4c123gxl/common/inc/ota_config.h
--   Types            tm4c123gxl/common/inc/ota_types.h, with the bytes of each packed structure;
--                    Types.Layout reads the bytes back
--   Crc32            tm4c123gxl/common/src/ota_crc32.c
--   Protocol         tm4c123gxl/common/src/ota_protocol.c (encode, parser_init, consume)
--   Image            tm4c123gxl/common/src/ota_image.c
--   Metadata         tm4c123gxl/common/src/ota_metadata.c
--   Boot             tm4c123gxl/common/src/ota_boot.c
--   Request          tm4c123gxl/common/src/ota_request.c
--   BootConfirm      tm4c123gxl/application/src/boot_confirm.c
--   Handoff          tm4c123gxl/application/src/app_ota_handoff.c
--   Application      tm4c123gxl/application/src/app_main.c, the callback and the loop
--   Hal              tm4c123gxl/bootloader/src/bl_hal_tm4c.c, the guard of the flash; Hal.Flash has
--                    the functions behind it and, of bl_main.c, the services made of them
--   Update           tm4c123gxl/bootloader/src/bl_update.c
--   Startup          tm4c123gxl/bootloader/src/bl_main.c, from the reset to the loop; Startup.Loop
--                    has the loop and the whole of bl_main
--   CloudOta         tm4c_uart_esp32_bridge/cloud_ota.c
--   Http             tm4c_uart_esp32_bridge/esp_at_http.c
--   Rpc              tm4c_uart_esp32_bridge/esp_at_rpc.c
--   Controller       tm4c_uart_esp32_bridge/esp_at_controller.c: Controller.Command (messages and
--                    commands), Retry (RETRY, the tick, the next state), Range (the ranges), Calls
--                    (requests), Lines (process_line), Receive (a byte)
--   Bridge           tm4c_uart_esp32_bridge/bridge_uart.c, the set-up and the loop
--   Text             the texts of C, with what the code takes from string.h and stdio.h
-- Base holds the shared names and lemmas, and Examples the concrete runs. The files below a part
-- prove what they are named for.
--
-- Conventions. A function that changes a structure through a pointer returns the structure; the
-- globals (the mailboxes) and the flash (a store of any type) are arguments and results. Integers
-- are natural numbers, with the wrap of their C type written out where the code can reach it; `& 1`
-- and `>> 1` are remainders and quotients. Slots and slot states are numbers, since the code casts
-- any stored byte to them. The refusals of null pointers are not modelled: the storage of a caller
-- is always there. So is every service of the engine, as bl_services_init gives them. Whether the
-- controller has an update and a callback is a flag of its own. What it sends and logs is a list.
--
-- Loops. The loop over a payload runs on a number of rounds, for which its bytes are enough, since a
-- round takes at least one; the loop of cloud_ota_write on twice its bytes, since only a round that
-- sends a full chunk again takes none, and a round follows it only if the chunk is then empty; the
-- loop that erases pages on the bytes of its range. The endless loops of the bootloader and of the
-- application run over a list of what each round is given, up to a reset or a jump; a RESET
-- packet of the host ends its round where the code resets. One time stands
-- for all readings of the clock in front of the loop.
--
-- Hypotheses on what is not in the repository: Hal.Protect.DeviceLaws (what the data sheet says of
-- erasing and programming the flash). Where a part takes its services as an argument, it relies on
-- Image.Loop.Reads (a read copies the flash), Metadata.Commit.IoLaws and Update.Isolation.StaysInRange
-- (erasing and programming change only what they are asked to change); the services that the
-- bootloader makes of such a device satisfy them. Examples has a device that keeps to the laws.
--
-- Not modelled: the access to registers, the clock and the serial links in bl_hal_tm4c.c,
-- app_main.c, bridge_uart.c and the startup files; the jump itself (bl_jump.c, inline assembly); the
-- host tool under pc_tool.
pub mod Application
pub mod Base
pub mod Boot
pub mod BootConfirm
pub mod Bridge
pub mod CloudOta
pub mod Config
pub mod Controller
pub mod Crc32
pub mod Examples
pub mod Hal
pub mod Handoff
pub mod Http
pub mod Image
pub mod Metadata
pub mod Protocol
pub mod Request
pub mod Rpc
pub mod Startup
pub mod Text
pub mod Types
pub mod Update
