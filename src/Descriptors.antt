-- ===== src/Descriptors.antt =====
-- The descriptors of the device, LPC2146_USB/usb_tests/tn_usb_descr.c, which are the same file in
-- both projects.
pub mod Layout
use usb_bulk.Prelude.{ℕ, ◌%◌, ◌/◌, List, [], ◌∷◌}

-- `abDescriptors`, by its parts: the device, the configuration with its interface and endpoints, and
-- the strings.
abbrev pub device_descriptor : List ℕ → List ℕ
device_descriptor rest =
    18 ∷ 1 ∷ 0x10 ∷ 0x01 ∷ 0 ∷ 0 ∷ 0 ∷ 64 ∷ 0x37 ∷ 0x12 ∷ 0xCD ∷ 0xAB ∷ 0x00 ∷ 0x01 ∷ 1 ∷ 2 ∷ 3 ∷ 1
    ∷ rest

abbrev pub configuration_descriptor : List ℕ → List ℕ
configuration_descriptor rest = 9 ∷ 2 ∷ 46 ∷ 0 ∷ 1 ∷ 1 ∷ 0 ∷ 0xA0 ∷ 50 ∷ rest

abbrev pub interface_descriptor : List ℕ → List ℕ
interface_descriptor rest = 9 ∷ 4 ∷ 0 ∷ 0 ∷ 4 ∷ 0 ∷ 0 ∷ 0 ∷ 0 ∷ rest

-- A bulk endpoint of 64-byte packets.
abbrev pub endpoint_descriptor : ℕ → List ℕ → List ℕ
endpoint_descriptor address rest = 7 ∷ 5 ∷ address ∷ 2 ∷ 64 ∷ 0 ∷ 0 ∷ rest

-- The strings "LPC214x USB", "TNKernel USB" and "000011".
abbrev pub string_descriptors : List ℕ → List ℕ
string_descriptors rest =
    4 ∷ 3 ∷ 0x09 ∷ 0x04 ∷ 24 ∷ 3 ∷ b'L' ∷ 0 ∷ b'P' ∷ 0 ∷ b'C' ∷ 0 ∷ b'2' ∷ 0 ∷ b'1' ∷ 0 ∷ b'4' ∷ 0
    ∷ b'x' ∷ 0 ∷ b' ' ∷ 0 ∷ b'U' ∷ 0 ∷ b'S' ∷ 0 ∷ b'B' ∷ 0 ∷ 26 ∷ 3 ∷ b'T' ∷ 0 ∷ b'N' ∷ 0 ∷ b'K' ∷ 0
    ∷ b'e' ∷ 0 ∷ b'r' ∷ 0 ∷ b'n' ∷ 0 ∷ b'e' ∷ 0 ∷ b'l' ∷ 0 ∷ b' ' ∷ 0 ∷ b'U' ∷ 0 ∷ b'S' ∷ 0 ∷ b'B'
    ∷ 0 ∷ 14 ∷ 3 ∷ b'0' ∷ 0 ∷ b'0' ∷ 0 ∷ b'0' ∷ 0 ∷ b'0' ∷ 0 ∷ b'1' ∷ 0 ∷ b'1' ∷ 0 ∷ rest

abbrev pub ab_descriptors : List ℕ
ab_descriptors = device_descriptor (
    configuration_descriptor (
      interface_descriptor (
        endpoint_descriptor 2 (
          endpoint_descriptor 0x82
            (endpoint_descriptor 5 (endpoint_descriptor 0x85 (string_descriptors (0 ∷ []))))))))
