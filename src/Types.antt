-- ===== src/Types.antt =====
-- The constants of arm/include/a2065_types.h.
use Prim.Native.Nat.{ℕ}
use mathlib.Core.List.{List, [], ◌∷◌}

-- CSR0 bits
abbrev pub csr0_err : ℕ
csr0_err = 0x8000

abbrev pub csr0_babl : ℕ
csr0_babl = 0x4000

abbrev pub csr0_cerr : ℕ
csr0_cerr = 0x2000

abbrev pub csr0_miss : ℕ
csr0_miss = 0x1000

abbrev pub csr0_merr : ℕ
csr0_merr = 0x0800

abbrev pub csr0_rint : ℕ
csr0_rint = 0x0400

abbrev pub csr0_tint : ℕ
csr0_tint = 0x0200

abbrev pub csr0_idon : ℕ
csr0_idon = 0x0100

abbrev pub csr0_intr : ℕ
csr0_intr = 0x0080

abbrev pub csr0_inea : ℕ
csr0_inea = 0x0040

abbrev pub csr0_rxon : ℕ
csr0_rxon = 0x0020

abbrev pub csr0_txon : ℕ
csr0_txon = 0x0010

abbrev pub csr0_tdmd : ℕ
csr0_tdmd = 0x0008

abbrev pub csr0_stop : ℕ
csr0_stop = 0x0004

abbrev pub csr0_strt : ℕ
csr0_strt = 0x0002

abbrev pub csr0_init : ℕ
csr0_init = 0x0001

-- CSR3 bits
abbrev pub csr3_bswp : ℕ
csr3_bswp = 0x0004

abbrev pub csr3_acon : ℕ
csr3_acon = 0x0002

abbrev pub csr3_bcon : ℕ
csr3_bcon = 0x0001

-- Mode register bits
abbrev pub mode_prom : ℕ
mode_prom = 0x8000

abbrev pub mode_emba : ℕ
mode_emba = 0x0080

abbrev pub mode_intl : ℕ
mode_intl = 0x0040

abbrev pub mode_drty : ℕ
mode_drty = 0x0020

abbrev pub mode_coll : ℕ
mode_coll = 0x0010

abbrev pub mode_dtcr : ℕ
mode_dtcr = 0x0008

abbrev pub mode_loop : ℕ
mode_loop = 0x0004

abbrev pub mode_dtx : ℕ
mode_dtx = 0x0002

abbrev pub mode_drx : ℕ
mode_drx = 0x0001

-- TX descriptor bits
abbrev pub tx_own : ℕ
tx_own = 0x8000

abbrev pub tx_err : ℕ
tx_err = 0x4000

abbrev pub tx_add_fcs : ℕ
tx_add_fcs = 0x2000

abbrev pub tx_more : ℕ
tx_more = 0x1000

abbrev pub tx_one : ℕ
tx_one = 0x0800

abbrev pub tx_def : ℕ
tx_def = 0x0400

abbrev pub tx_stp : ℕ
tx_stp = 0x0200

abbrev pub tx_enp : ℕ
tx_enp = 0x0100

abbrev pub tx_buff : ℕ
tx_buff = 0x8000

abbrev pub tx_uflo : ℕ
tx_uflo = 0x4000

abbrev pub tx_lcol : ℕ
tx_lcol = 0x1000

abbrev pub tx_lcar : ℕ
tx_lcar = 0x0800

abbrev pub tx_rtry : ℕ
tx_rtry = 0x0400

-- RX descriptor bits
abbrev pub rx_own : ℕ
rx_own = 0x8000

abbrev pub rx_err : ℕ
rx_err = 0x4000

abbrev pub rx_fram : ℕ
rx_fram = 0x2000

abbrev pub rx_oflo : ℕ
rx_oflo = 0x1000

abbrev pub rx_crc : ℕ
rx_crc = 0x0800

abbrev pub rx_buff : ℕ
rx_buff = 0x0400

abbrev pub rx_stp : ℕ
rx_stp = 0x0200

abbrev pub rx_enp : ℕ
rx_enp = 0x0100

-- Sizes
abbrev pub rap_size : ℕ
rap_size = 128

abbrev pub max_packet_size : ℕ
max_packet_size = 4096

abbrev pub ram_offset : ℕ
ram_offset = 0x8000

abbrev pub ram_size : ℕ
ram_size = 0x8000

-- A2065 card identity
abbrev pub a2065_mfr_id : ℕ
a2065_mfr_id = 0x0202

abbrev pub a2065_prod_id : ℕ
a2065_prod_id = 0x70

abbrev pub commodore_oui0 : ℕ
commodore_oui0 = 0x00

abbrev pub commodore_oui1 : ℕ
commodore_oui1 = 0x80

abbrev pub commodore_oui2 : ℕ
commodore_oui2 = 0x10

-- Chip register offsets within card (for bridge addr field)
abbrev pub a2065_rdp_off : ℕ
a2065_rdp_off = 0x00

abbrev pub a2065_rap_off : ℕ
a2065_rap_off = 0x02

-- BROADCAST_MAC
abbrev pub broadcast_mac : List ℕ
broadcast_mac = 0xff ∷ 0xff ∷ 0xff ∷ 0xff ∷ 0xff ∷ 0xff ∷ []

-- RAM_MASK of arm/include/boardram_access.h
abbrev pub ram_mask : ℕ
ram_mask = 0x7fff
