-- ===== src/Bridge/Client.antt =====
-- arm/src/bridge_client.cpp: the program that plays the FPGA on the older transport. `peer` is what
-- the daemon does while the client sleeps between two polls.
pub mod Window
use a.Base.{
  ℕ, zero, suc, ◌*◌, ◌/◌, ◌%◌, ◌^◌, ◌<◌, ◌≡◌, refl, arith, ◌==◌, leb, if◌then◌else◌, Bool, true,
  false, not, ◌&&◌,
}
use a.Base.{Option, none, some, ◌>>=◌, Array, u8, u16, bit_and, has, update, ap, ◌∙◌, bit_and_low}
use a.Card.{Card}
use a.Doorbell.{rd64, wr64}
use a.Registers.{chip_wput, chip_wget}
use a.Bridge.{
  bridge_read8, bridge_read16, bridge_write8, bridge_write16, bridge_reg_addr, bridge_reg_data,
  bridge_reg_done, bridge_reg_new_req, bridge_reg_result, bridge_reg_rw, finish, service_bridge,
  on_interrupt_cb, on_transmit_cb,
}

module _ (peer : Card → Option Card) where
  -- The loop over the polls; it is left without an error when none of them finds DONE.
  unfoldable pub await_done : ℕ → Card → Option Card
  await_done zero c = some c
  await_done (suc n) c =
      let rest = peer c >>= λ d. await_done n d in
      if not (bridge_read8 bridge_reg_done c == 0) then some c else rest

  unfoldable pub write_reg : ℕ → ℕ → Card → Option Card
  unfolding await_done
  write_reg addr_off word c =
      let asked = bridge_write8 bridge_reg_new_req 1 (
        bridge_write8 bridge_reg_rw 1
          (bridge_write8 bridge_reg_addr addr_off (bridge_write16 bridge_reg_data word c))) in
      await_done 100 asked >>= λ d. some (bridge_write8 bridge_reg_done 0 d)

  unfoldable pub read_reg : ℕ → Card → Option (ℕ × Card)
  unfolding await_done
  read_reg addr_off c =
      let asked =
        bridge_write8 bridge_reg_new_req 1
          (bridge_write8 bridge_reg_rw 0 (bridge_write8 bridge_reg_addr addr_off c)) in
      await_done 100 asked >>= λ d.
      let e = bridge_write8 bridge_reg_done 0 d in some (bridge_read16 bridge_reg_result e, e)

  -- The second poll finds what the daemon has done after the first.
  await_answer :
      (n : ℕ) (c d : Card)
      → bridge_read8 bridge_reg_done c ≡ 0
      → peer c ≡ some d
      → bridge_read8 bridge_reg_done d ≡ 1
      → await_done (suc (suc n)) c ≡ some d
  unfolding await_done
  await_answer n c d z p o = rw (z, p, o) refl

  -- A DONE that is there already ends the wait.
  await_stale :
      (n : ℕ) (c : Card) → bridge_read8 bridge_reg_done c ≡ 1 → await_done (suc n) c ≡ some c
  unfolding await_done
  await_stale n c o = rw o refl

module _ (stack : Array) where
  -- The request to select register `r`, and its answer.
  abbrev asked : ℕ → Card → Card
  asked r c = bridge_write8 bridge_reg_new_req 1 (
      bridge_write8 bridge_reg_rw 1
        (bridge_write8 bridge_reg_addr 2 (bridge_write16 bridge_reg_data r c)))

  abbrev selected : ℕ → Card → Card
  selected r c = record (asked r c) { rap = bit_and (u16 (u16 r)) 0x7f }

  served : (r : ℕ) (c : Card) → service_bridge stack (asked r c) ≡ some (finish 0 (selected r c))
  unfolding service_bridge chip_wput
  served r c = refl

  write_rap_lem :
      (r : ℕ) (c : Card)
      → bridge_read8 bridge_reg_done c ≡ 0
      → write_reg (service_bridge stack) 2 r c
        ≡ some (bridge_write8 bridge_reg_done 0 (finish 0 (selected r c)))
  unfolding write_reg finish
  write_rap_lem r c h =
      ap (λ o. o >>= λ d. some (bridge_write8 bridge_reg_done 0 d))
        (await_answer (service_bridge stack) 98 (asked r c) (finish 0 (selected r c)) h (served r c)
          refl)

  -- The request to read the selected register.
  abbrev wanted : Card → Card
  wanted c =
      bridge_write8 bridge_reg_new_req 1
        (bridge_write8 bridge_reg_rw 0 (bridge_write8 bridge_reg_addr 0 c))

  read_rdp_lem :
      (c : Card)
      → bridge_read8 bridge_reg_done c ≡ 0
      → read_reg (service_bridge stack) 0 c
        ≡ some (
          u16 (u16 (chip_wget c 0)),
          bridge_write8 bridge_reg_done 0 (finish (chip_wget c 0) (wanted c)),
        )
  unfolding read_reg finish service_bridge chip_wget
  read_rdp_lem c h =
      ap
        (λ o. o >>= λ d.
          let e = bridge_write8 bridge_reg_done 0 d in some (bridge_read16 bridge_reg_result e, e))
        (await_answer (service_bridge stack) 98 (wanted c) (finish (chip_wget c 0) (wanted c)) h
          refl refl)

  -- The client that selects a register and reads it, with no answer left over before, gets what
  -- the registers answer for it, and changes no register but RAP, if in each gap between two
  -- polls the daemon serves the mailbox once and nothing else happens: no transmission is tried,
  -- no frame comes in.
  pub select_and_read :
      (c : Card) (r : ℕ)
      → bridge_read8 bridge_reg_done c ≡ 0
      → (e : Card) × ((write_reg (service_bridge stack) 2 r c >>= λ d.
            read_reg (service_bridge stack) 0 d)
          ≡ some (chip_wget (record c { rap = r % 0x80 }) 0 % 0x10000, e))
        × (e.csr ≡ c.csr)
        × (e.rap ≡ r % 0x80)
  unfolding finish chip_wget
  select_and_read c r h =
      let x : Card = bridge_write8 bridge_reg_done 0 (finish 0 (selected r c)) in
      let e : Card = bridge_write8 bridge_reg_done 0 (finish (chip_wget x 0) (wanted x)) in
      let low : bit_and (u16 (u16 r)) 0x7f ≡ r % 0x80 =
        omega (arith, bit_and_low 7 (u16 (u16 r))) in
      let pair : u16 (u16 (chip_wget x 0)) ≡ chip_wget (record c { rap = r % 0x80 }) 0 % 0x10000 =
        omega arith ∙ ap (λ (s : ℕ). chip_wget (record c { rap = s }) 0 % 0x10000) low in
      (
        e,
        rw (write_rap_lem r c h) (read_rdp_lem x refl ∙ ap (λ (v : ℕ). some (v, e)) pair),
        refl,
        low,
      )

  -- When the daemon makes one more turn between the two, the selection and the reading, it serves
  -- the request of the selection again, which nobody has taken away, and the client reads zero,
  -- whatever the register holds; no answer was left over before.
  pub read_too_late :
      (c : Card) (r : ℕ)
      → bridge_read8 bridge_reg_done c ≡ 0
      → (e : Card) × ((write_reg (service_bridge stack) 2 r c >>= λ d.
            service_bridge stack d >>= λ f. read_reg (service_bridge stack) 0 f)
          ≡ some (0, e))
  unfolding finish read_reg service_bridge chip_wput
  read_too_late c r h =
      let x : Card = bridge_write8 bridge_reg_done 0 (finish 0 (selected r c)) in
      let y : Card = finish 0 (record x { rap = bit_and (u16 (u16 r)) 0x7f }) in
      let e : Card = bridge_write8 bridge_reg_done 0 (wanted y) in
      (
        e,
        ap
              (λ (o : Option Card).
                o >>= λ d. service_bridge stack d >>= λ f. read_reg (service_bridge stack) 0 f)
              (write_rap_lem r c h)
            ∙ ap
                (λ (o : Option Card). o >>= λ d.
                  let f = bridge_write8 bridge_reg_done 0 d in
                  some (bridge_read16 bridge_reg_result f, f))
                (await_stale (service_bridge stack) 99 (wanted y) refl),
      )
