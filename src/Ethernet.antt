-- ===== src/Ethernet.antt =====
-- arm/src/ethernet.cpp: the frames that are handed to the raw socket. `sock_open` of the card says
-- whether `sock_fd` is valid; Socket has the socket itself, and what the kernel answers.
pub mod Socket
pub mod Open
use a.Base.{ℕ, ◌==◌, if◌then◌else◌, not, false, ◌||◌, ◌∷◌, Array, slice}
use a.Card.{Card}

unfoldable pub ethernet_send : Array → ℕ → Card → Card
ethernet_send frame len c =
    if not c.sock_open || (len == 0) then c else record c { sent = slice frame 0 len ∷ c.sent }

unfoldable pub ethernet_close : Card → Card
ethernet_close c = record c { sock_open = false }
