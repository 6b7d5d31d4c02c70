-- ===== src/Remote/Exchange.antt =====
-- The exchange with card memory: an answer that comes in time is returned, one that is there already
-- is returned for any request, and without an answer the attempts end.
use a.Base.{
  ℕ, zero, suc, ◌+◌, ◌*◌, ◌/◌, ◌%◌, ◌<◌, ◌≡◌, refl, arith, Bool, true, false, Option, none, some,
}
use a.Base.{bit_and_low, u16, ◌>>>◌, has}
use a.Card.{Card}
use a.Doorbell.{rd64, wr64}
use a.Mailbox.{mbx_ram_req, mbx_ram_rsp}
use a.Remote.{xfer_req, poll_loop, attempts, boardram_xfer}

-- The card once its response is taken.
abbrev pub taken : Card → Card
taken c = wr64 mbx_ram_req 0 (wr64 mbx_ram_rsp 0 c)

-- No response is in the slot.
abbrev pub Unanswered : Card → Type 0
Unanswered c = has (rd64 0x8018 c) 1 ≡ false

module _ (fpga : ℕ → Card → Card) (service : Card → Option Card) where
  -- Without a response while `P` holds, which the service keeps and the FPGA does not end before
  -- poll `k`, the loop goes on to that poll.
  poll_loop-answered :
      (P : Card → Type 0) (k : ℕ)
      → ((c : Card) → P c → has (rd64 mbx_ram_rsp c) 1 ≡ false)
      → ((c : Card) → P c → (d : Card) × (service c ≡ some d) × P d)
      → ((i : ℕ) (c : Card) → i < k → fpga i c ≡ c)
      → ((c : Card) → P c → has (rd64 mbx_ram_rsp (fpga k c)) 1 ≡ true)
      → (j n i : ℕ) (c : Card) → P c
      → i + j ≡ k
      → j < n
      → (x : Card) × P x
        × (poll_loop fpga service n i c
            ≡ some (some (u16 (rd64 mbx_ram_rsp (fpga k x) >>> 1)), taken (fpga k x)))
  unfolding poll_loop
  poll_loop-answered P k quiet serves waits answers j zero i c p e l = absurd (omega arith)
  poll_loop-answered P k quiet serves waits answers zero (suc n) i c p e l =
      let same : i ≡ k = omega arith in (c, p, rw (same, answers c p) refl)
  poll_loop-answered P k quiet serves waits answers (suc j) (suc n) i c p e l =
      let s = serves c p in
      let rest =
        poll_loop-answered P k quiet serves waits answers j n (i + 1) s.0 s.2 (omega arith)
          (omega arith) in
      (rest.0, rest.1, rw (waits i c (omega arith), quiet c p, s.1) rest.2)

  pub attempts-answered :
      (P : Card → Type 0) (k n req : ℕ) (c : Card)
      → k < 10000
      → ((c : Card) → P c → has (rd64 mbx_ram_rsp c) 1 ≡ false)
      → ((c : Card) → P c → (d : Card) × (service c ≡ some d) × P d)
      → ((i : ℕ) (c : Card) → i < k → fpga i c ≡ c)
      → ((c : Card) → P c → has (rd64 mbx_ram_rsp (fpga k c)) 1 ≡ true)
      → P (wr64 mbx_ram_req req c)
      → (x : Card) × P x
        × (attempts fpga service (suc n) req c
            ≡ some (some (u16 (rd64 mbx_ram_rsp (fpga k x) >>> 1)), taken (fpga k x)))
  unfolding attempts
  attempts-answered P k n req c l quiet serves waits answers p =
      let x =
        poll_loop-answered P k quiet serves waits answers k 10000 0 (wr64 mbx_ram_req req c) p
          (omega arith) l in
      (x.0, x.1, rw x.2 refl)

  -- While no response comes the polls run out.
  poll_loop-silent :
      ((i : ℕ) (c : Card) → Unanswered c → Unanswered (fpga i c))
      → ((c : Card) → Unanswered c → (d : Card) × (service c ≡ some d) × Unanswered d)
      → (n i : ℕ) (c : Card) → Unanswered c
      → (d : Card) × (poll_loop fpga service n i c ≡ some (none, d)) × Unanswered d
  unfolding poll_loop
  poll_loop-silent silent serves zero i c u = (c, refl, u)
  poll_loop-silent silent serves (suc n) i c u =
      let s = serves (fpga i c) (silent i c u) in
      let rest = poll_loop-silent silent serves n (i + 1) s.0 s.2 in
      (rest.0, rw (silent i c u, s.1) rest.1, rest.2)

  attempts-silent :
      ((i : ℕ) (c : Card) → Unanswered c → Unanswered (fpga i c))
      → ((c : Card) → Unanswered c → (d : Card) × (service c ≡ some d) × Unanswered d)
      → (n req : ℕ) (c : Card) → Unanswered c
      → (d : Card) × (attempts fpga service n req c ≡ some (none, d))
  unfolding attempts
  attempts-silent silent serves zero req c u = (c, refl)
  attempts-silent silent serves (suc n) req c u =
      let p = poll_loop-silent silent serves 10000 0 (wr64 mbx_ram_req req c) u in
      let rest = attempts-silent silent serves n req p.0 p.2 in (rest.0, rw p.1 rest.1)

  -- When the response slot is empty and neither the FPGA nor the service between the polls, which
  -- returns, puts a response there, the exchange ends with 0xffff and the request withdrawn.
  pub boardram_xfer_timeout :
      (off wdata : ℕ) (write : Bool) (c : Card)
      → has (rd64 0x8018 c) 1 ≡ false
      → ((i : ℕ) (x : Card) → Unanswered x → Unanswered (fpga i x))
      → ((x : Card) → Unanswered x → (y : Card) × (service x ≡ some y) × Unanswered y)
      → (d : Card) × (boardram_xfer fpga service true off write wdata c ≡ some (0xffff, d))
        × (rd64 0x8010 d ≡ 0)
  unfolding boardram_xfer
  boardram_xfer_timeout off wdata write c none_yet silent serves =
      let a = attempts-silent silent serves 3 (xfer_req off write wdata) c none_yet in
      (wr64 mbx_ram_req 0 a.0, rw a.1 refl, refl)

  -- A response that is there is taken at the first poll.
  poll_loop-there :
      (n w : ℕ) (c : Card)
      → fpga 0 c ≡ c
      → w < 0x10000
      → rd64 mbx_ram_rsp c ≡ 1 + 2 * w
      → poll_loop fpga service (suc n) 0 c ≡ some (some w, taken c)
  unfolding poll_loop
  poll_loop-there n w c idle l e =
      let there : has (1 + 2 * w) 1 ≡ true =
        unfold has in ground (arith, bit_and_low 1 (1 + 2 * w)) in
      let value : (1 + 2 * w) / 2 % 0x10000 ≡ w = omega arith in rw (idle, e, there, value) refl

  -- A response of 16 bits that is there before the request is returned for any request, read or
  -- write and whatever the address, before the FPGA has seen the request, which is withdrawn with
  -- card memory as it was.
  pub boardram_xfer_stale :
      (off wdata w : ℕ) (write : Bool) (c : Card)
      → ((c : Card) → fpga 0 c ≡ c)
      → w < 0x10000
      → rd64 0x8018 c ≡ 1 + 2 * w
      → (d : Card) × (boardram_xfer fpga service true off write wdata c ≡ some (w, d))
        × (rd64 0x8010 d ≡ 0)
        × (d.boardram ≡ c.boardram)
  unfolding boardram_xfer attempts
  boardram_xfer_stale off wdata w write c idle l e =
      let x : Card = wr64 mbx_ram_req (xfer_req off write wdata) c in
      (taken x, rw (poll_loop-there 9999 w x (idle x) l e) refl, refl, refl)
